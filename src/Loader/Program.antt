-- ===== src/Loader/Program.antt =====
-- Steps that keep a task ready and its pages mapped.
pub mod Loaded
use sbu_operating_system.Prelude.{
  ℕ, zero, suc, ◌+◌, ◌-◌, ◌*◌, ◌/◌, ◌%◌, ◌^◌, ◌≤◌, ◌<◌, ◌≡◌, ◌≢◌, ◌∙◌, ap, sym, subst, refl, arith,
  List, [], ◌∷◌, ◌++◌, ◌==◌, ◌||◌, Bool-cases, inl, inr, true, false, if◌then◌else◌, bit_or,
}
use sbu_operating_system.PhysMemory.Count.{free_pages}
use sbu_operating_system.Paging.{virtual_base}
use sbu_operating_system.Paging.Mmu.{walk}
use sbu_operating_system.Paging.Map.{Tables, SamePage}
use sbu_operating_system.Faults.{Task, root_pointer, heap_start, stack_start}
use sbu_operating_system.Loader.{
  ProgramHeader, Load, createvma, map_user_page, map_pages, load_segment, load_segments,
  load_binaries, lower_addr, higher_addr,
}
use sbu_operating_system.Loader.Range.{MapsUser, HasPage, map_user_page-HasPage}
use sbu_operating_system.Loader.Segment.{
  pages_of, IsLoaded, createvma-Tables, load_segment-IsLoaded,
}

-- A task whose tables form a tree and are reached through the window.
pub record IsReady (t : Task) (root : ℕ) : Type 0 where
  pub window : root_pointer t ≡ t.cr3
  pub tables : Tables t.machine t.cr3 root

-- A step keeps the task ready and the user's pages mapped, and takes at most `cost` pages.
pub record Keeps (t : Task) (root cost : ℕ) (t' : Task) : Type 0 where
  pub ready : IsReady t' root
  pub mapped : (w : ℕ) → MapsUser t.machine.ram root w → MapsUser t'.machine.ram root w
  pub supply : free_pages t.machine.phys ≤ free_pages t'.machine.phys + cost

pub Keeps-refl : (t : Task) (root : ℕ) → IsReady t root → Keeps t root 0 t
Keeps-refl t root r = record { ready = r; mapped = λ w h. h; supply = omega arith }

pub Keeps-trans :
    (t t1 t2 : Task) (root c1 c2 : ℕ)
    → Keeps t root c1 t1
    → Keeps t1 root c2 t2
    → Keeps t root (c1 + c2) t2
Keeps-trans t t1 t2 root c1 c2 a b = record {
  ready = b.ready;
  mapped = λ w h. b.mapped w (a.mapped w h);
  supply = omega (arith, a.supply, b.supply);
}

pub IsReady-same :
    (t t' : Task) (root : ℕ)
    → IsReady t root
    → t'.cr3 ≡ t.cr3
    → Tables t'.machine t.cr3 root
    → IsReady t' root
IsReady-same t t' root r cr3 tables = record {
  window = ap (λ p. bit_or p virtual_base) cr3 ∙ r.window ∙ sym cr3;
  tables = subst (λ p. Tables t'.machine p root) (sym cr3) tables;
}

pub createvma-Keeps :
    (t : Task) (root vm_start vm_end kind : ℕ)
    → IsReady t root
    → 1 ≤ free_pages t.machine.phys
    → Keeps t root 1 (createvma t vm_start vm_end kind)
createvma-Keeps t root vm_start vm_end kind r supply =
    let (tables, walks, fewer) = createvma-Tables t root vm_start vm_end kind r.tables supply in
    record {
      ready =
          IsReady-same t (createvma t vm_start vm_end kind) root r (unfold createvma in refl)
            tables;
      mapped = λ w h. (h.0, walks w ∙ h.1);
      supply = omega (arith, fewer);
    }

-- A page that is mapped again is still mapped.
pub HasPage-Keeps :
    (t t' : Task) (root v : ℕ) → IsReady t root → HasPage t root v t' → Keeps t root 4 t'
HasPage-Keeps t t' root v r p = record {
  ready = IsReady-same t t' root r p.same.0 p.tables;
  mapped = λ w h. elim (Bool-cases (w / 4096 % 2 ^ 36 == v / 4096 % 2 ^ 36)) [
    | inl same ↦ p.found w (ground arith)
    | inr other ↦ (h.0, p.others w (ground arith) ∙ h.1)
  ];
  supply = p.supply;
}

pub map_user_page-Keeps :
    (t : Task) (root v : ℕ)
    → IsReady t root
    → 4 ≤ free_pages t.machine.phys
    → Keeps t root 4 (map_user_page t v)
map_user_page-Keeps t root v r supply =
    HasPage-Keeps t (map_user_page t v) root v r
      (map_user_page-HasPage t root v r.window r.tables supply)

pub map_pages-Keeps :
    (n : ℕ) (t : Task) (root v : ℕ)
    → IsReady t root
    → 4 * n ≤ free_pages t.machine.phys
    → Keeps t root (4 * n) (map_pages n t v)
unfolding map_pages
map_pages-Keeps zero t root v r supply = Keeps-refl t root r
map_pages-Keeps (suc n) t root v r supply =
    let one = map_user_page-Keeps t root v r (omega arith) in
    let rest =
      map_pages-Keeps n (map_user_page t v) root (v + 4096) one.ready (omega (arith, one.supply)) in
    let cost : 4 + 4 * n ≡ 4 * suc n = omega arith in
    subst (λ c. Keeps t root c (map_pages n (map_user_page t v) (v + 4096))) cost
      (Keeps-trans t (map_user_page t v) (map_pages n (map_user_page t v) (v + 4096)) root 4 (4 * n)
        one rest)
