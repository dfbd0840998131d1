-- ===== src/Loader/Range.antt =====
-- Mapping new pages one after the other.
use sbu_operating_system.Prelude.{
  ℕ, zero, suc, ◌+◌, ◌-◌, ◌*◌, ◌^◌, ◌≤◌, ◌<◌, ◌≡◌, ◌∙◌, ap, sym, subst, refl, arith, some, bit_or,
  ◌==◌, Bool-cases, inl, inr,
}
use sbu_operating_system.PhysMemory.{allocate_page}
use sbu_operating_system.PhysMemory.Count.{free_pages}
use sbu_operating_system.Paging.{map_vir_phy_userspace, virtual_base}
use sbu_operating_system.Paging.Mmu.{walk}
use sbu_operating_system.Paging.Map.{Tables, SamePage}
use sbu_operating_system.Faults.{Task, root_pointer, map_new_page}
use sbu_operating_system.Faults.Handler.{map_new_page-GotPage}
use sbu_operating_system.Loader.{map_user_page, map_pages}

-- The address of a user's page, with the flags that it is mapped with.
abbrev pub MapsUser : (ℕ → ℕ) → ℕ → ℕ → Type 0
MapsUser ram root w = (page : ℕ) × (walk ram 3 root w ≡ some (page * 4096 + 7))

-- `n` pages from `v` on are mapped for the user, and no other address is translated otherwise.
pub record HasPages (t : Task) (root v n : ℕ) (t' : Task) : Type 0 where
  pub tables : Tables t'.machine t.cr3 root
  pub same : (t'.cr3 ≡ t.cr3) × (t'.regions ≡ t.regions) × (t'.brk ≡ t.brk)
  pub found : (w k : ℕ) → k < n → SamePage w (v + 4096 * k) → MapsUser t'.machine.ram root w
  pub others :
      (w : ℕ)
      → ((k : ℕ) → k < n → ¬ SamePage w (v + 4096 * k))
      → walk t'.machine.ram 3 root w ≡ walk t.machine.ram 3 root w
  pub supply : free_pages t.machine.phys ≤ free_pages t'.machine.phys + 4 * n

map_user_page-map_new_page :
    (t : Task) (v : ℕ) → root_pointer t ≡ t.cr3 → map_user_page t v ≡ map_new_page t v
unfolding map_user_page map_new_page
map_user_page-map_new_page t v window =
    let (padd, phys') = allocate_page t.machine.phys in
    ap
      (λ p. record t {
        machine = map_vir_phy_userspace (record t.machine { phys = phys' }) v padd p;
      })
      (sym window)

-- One page, at `v`.
pub record HasPage (t : Task) (root v : ℕ) (t' : Task) : Type 0 where
  pub tables : Tables t'.machine t.cr3 root
  pub same : (t'.cr3 ≡ t.cr3) × (t'.regions ≡ t.regions) × (t'.brk ≡ t.brk)
  pub found : (w : ℕ) → SamePage w v → MapsUser t'.machine.ram root w
  pub others : (w : ℕ) → ¬ SamePage w v → walk t'.machine.ram 3 root w ≡ walk t.machine.ram 3 root w
  pub supply : free_pages t.machine.phys ≤ free_pages t'.machine.phys + 4

pub map_user_page-HasPage :
    (t : Task) (root v : ℕ)
    → root_pointer t ≡ t.cr3
    → Tables t.machine t.cr3 root
    → 4 ≤ free_pages t.machine.phys
    → HasPage t root v (map_user_page t v)
map_user_page-HasPage t root v window tables supply =
    let g =
      map_new_page-GotPage t root v (subst (λ p. Tables t.machine p root) (sym window) tables)
        supply in
    rw (map_user_page-map_new_page t v window) (record {
      tables = subst (λ p. Tables (map_new_page t v).machine p root) window g.tables;
      same = unfold map_new_page in (refl, refl, refl);
      found = λ w e. (g.page, g.found w e);
      others = g.others;
      supply = g.supply;
    })

pub map_pages-HasPages :
    (n : ℕ) (t : Task) (root v : ℕ)
    → root_pointer t ≡ t.cr3
    → Tables t.machine t.cr3 root
    → 4 * n ≤ free_pages t.machine.phys
    → v + 4096 * n < 2 ^ 48
    → HasPages t root v n (map_pages n t v)
unfolding map_pages
map_pages-HasPages zero t root v window tables supply small = record {
  tables = tables;
  same = (refl, refl, refl);
  found = λ w k lt. elim lt [ ];
  others = λ w none?. refl;
  supply = omega arith;
}
map_pages-HasPages (suc n) t root v window tables supply small =
    let t1 = map_user_page t v in
    let one = map_user_page-HasPage t root v window tables (omega arith) in
    let cr3 = one.same.0 in
    let rest =
      map_pages-HasPages n t1 root (v + 4096)
        (ap (λ p. bit_or p virtual_base) cr3 ∙ window ∙ sym cr3)
        (subst (λ p. Tables t1.machine p root) (sym cr3) one.tables) (omega (arith, one.supply))
        (omega arith) in
    record {
      tables = subst (λ p. Tables (map_pages n t1 (v + 4096)).machine p root) cr3 rest.tables;
      same = (rest.same.0 ∙ cr3, rest.same.1 ∙ one.same.1, rest.same.2 ∙ one.same.2);
      found = λ w k lt at. elim (Bool-cases (k == 0)) [
        | inl first ↦
            let here : SamePage w v = ground arith in
            let apart : (j : ℕ) → j < n → ¬ SamePage w (v + 4096 + 4096 * j) =
              λ j lj s. absurd (omega arith) in
            let (page, walks) = one.found w here in (page, rest.others w apart ∙ walks)
        | inr later ↦
            let positive : 0 < k = ground arith in rest.found w (k - 1) (omega arith) (omega arith)
      ];
      others = λ w none?.
          rest.others w (λ k lt s. none? (k + 1) (omega arith) (omega arith))
          ∙ one.others w (λ s. none? 0 (omega arith) (omega arith));
      supply = omega (arith, one.supply, rest.supply);
    }
