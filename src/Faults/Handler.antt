-- ===== src/Faults/Handler.antt =====
-- What a page fault leaves mapped.
use sbu_operating_system.Prelude.{
  ℕ, ◌+◌, ◌-◌, ◌*◌, ◌/◌, ◌%◌, ◌^◌, ◌≤◌, ◌<◌, ◌≡◌, ◌∙◌, ◌⊎◌, ap, sym, refl, arith, true, false, some,
  subst, bit_and,
}
use sbu_operating_system.Bits.{bit_and-shift, bit_and-low_ones}
use sbu_operating_system.PhysMemory.{PhysMemory, allocate_page}
use sbu_operating_system.PhysMemory.Bitmap.{busy}
use sbu_operating_system.PhysMemory.Allocate.{Allocated, allocate_page-Allocated}
use sbu_operating_system.PhysMemory.Count.{free_pages, HasFree-free_pages, free_pages-allocate_page}
use sbu_operating_system.Paging.{Machine, map_vir_phy_userspace}
use sbu_operating_system.Paging.Mmu.{walk}
use sbu_operating_system.Paging.Map.{Tables, Mapped, SamePage, map_vir_phy-Mapped}
use sbu_operating_system.Faults.{
  Task, resumed, halted, map_new_page, in_region, page_fault, root_pointer, stack_end, stack_start,
  heap_start, heap_end,
}

-- The virtual page of `v` leads to a page that was free before; all other pages translate as they
-- did, and the tables are a tree again.
pub record GotPage (t : Task) (root v : ℕ) (m' : Machine) : Type 0 where
  pub page : ℕ
  pub was_free : busy t.machine.phys page ≡ 0
  pub tables : Tables m' (root_pointer t) root
  pub found : (w : ℕ) → SamePage w v → walk m'.ram 3 root w ≡ some (page * 4096 + 7)
  pub others : (w : ℕ) → ¬ SamePage w v → walk m'.ram 3 root w ≡ walk t.machine.ram 3 root w
  pub supply : free_pages t.machine.phys ≤ free_pages m'.phys + 4

-- Taking a page for data leaves the tables a tree.
Tables-allocate :
    (m : Machine) (pointer root address : ℕ) (phys' : PhysMemory)
    → Tables m pointer root
    → Allocated m.phys address phys'
    → Tables (record m { phys = phys' }) pointer root
Tables-allocate m pointer root address phys' t a = record {
  level = t.level;
  tree = record {
    child = t.tree.child;
    unique = t.tree.unique;
    taken = λ f k h. ground (arith, t.tree.taken f k h, a.marks f);
  };
  level_root = t.level_root;
  at = t.at;
}

pub map_new_page-GotPage :
    (t : Task) (root v : ℕ)
    → Tables t.machine (root_pointer t) root
    → 4 ≤ free_pages t.machine.phys
    → GotPage t root v (map_new_page t v).machine
unfolding map_new_page
map_new_page-GotPage t root v tables supply =
    let m = t.machine in
    let (padd, phys') = allocate_page m.phys in
    let a = allocate_page-Allocated m.phys (HasFree-free_pages m.phys (omega arith)) in
    let start : Machine = record m { phys = phys' } in
    let taken = free_pages-allocate_page m.phys (omega arith) in
    let mapped : Mapped true start v a.page (root_pointer t) root
        (map_vir_phy_userspace start v padd (root_pointer t)) =
      subst
        (λ x.
          Mapped true start v a.page (root_pointer t) root
            (map_vir_phy_userspace start v x (root_pointer t)))
        (sym a.at)
        (map_vir_phy-Mapped start v a.page (root_pointer t) root
          (Tables-allocate m (root_pointer t) root padd phys' tables a) (omega (arith, taken))).1 in
    record {
      page = a.page;
      was_free = a.was_free;
      tables = mapped.tables;
      found = mapped.found;
      others = mapped.others;
      supply = omega (arith, mapped.supply, taken);
    }

-- The mask clears the offset in the page, of an address below 2^36.
mask_page : (a : ℕ) → a < 2 ^ 36 → bit_and a 0xFFFFFF000 ≡ a / 4096 * 4096
mask_page a h =
    ap (λ x. bit_and x 0xFFFFFF000) split
    ∙ bit_and-shift 12 (a / 4096) (2 ^ 24 - 1) (a % 4096) (omega arith)
    ∙ ap (λ x. x * 4096) (bit_and-low_ones 24 (a / 4096) ∙ whole)
  where
    split : a ≡ a / 4096 * 4096 + a % 4096
    split = omega arith

    whole : a / 4096 % 2 ^ 24 ≡ a / 4096
    whole = omega arith

-- A page mapped at the first address of a page is mapped at all of its addresses.
GotPage-page :
    (t : Task) (root a : ℕ) (m' : Machine)
    → GotPage t root (a / 4096 * 4096) m'
    → GotPage t root a m'
GotPage-page t root a m' g =
    let same : SamePage (a / 4096 * 4096) a = ap (λ x. x % 2 ^ 36) (omega arith) in
    record {
      page = g.page;
      was_free = g.was_free;
      tables = g.tables;
      found = λ w e. g.found w (e ∙ sym same);
      others = λ w ne. g.others w (λ e. ne (e ∙ same));
      supply = g.supply;
    }

-- The task as it is resumed: its page is mapped, and nothing but the machine has changed.
pub record Served (t : Task) (root v : ℕ) (t' : Task) : Type 0 where
  pub got : GotPage t root v t'.machine
  pub same : (t'.cr3 ≡ t.cr3) × (t'.regions ≡ t.regions) × (t'.brk ≡ t.brk)

-- On tables that form a tree, and with four free pages, a fault at an address below 2^36 in a
-- region of type 0, or in the nine pages below the top of the stack, is resumed with a page that
-- was free mapped for the user at the page of the address, every other page translated as before
-- and the break unchanged.
pub page_fault-Served :
    (t : Task) (root a : ℕ)
    → Tables t.machine (root_pointer t) root
    → 4 ≤ free_pages t.machine.phys
    → a < 2 ^ 36
    → (in_region t.regions a ≡ true) ⊎ ((stack_end ≤ a) × (a < stack_start))
    → (t' : Task) × (page_fault t a ≡ resumed t') × Served t root a t'
page_fault-Served t root a tables supply small cause =
    let v = bit_and a 0xFFFFFF000 in
    let g = map_new_page-GotPage t root v tables supply in
    (
      map_new_page t v,
      unfold page_fault in ground arith,
      record {
        got =
            GotPage-page t root a (map_new_page t v).machine
              (subst (λ x. GotPage t root x (map_new_page t v).machine) (mask_page a small) g);
        same = unfold map_new_page in (refl, refl, refl);
      },
    )

-- What a fault in the heap comes to.
pub record Grown (t : Task) (root a : ℕ) (t' : Task) : Type 0 where
  pub got : GotPage t root t.brk t'.machine
  pub brk : t'.brk ≡ t.brk + 4096
  -- An address that is not on the page of the break is translated as before the fault.
  pub unserved : ¬ SamePage a t.brk → walk t'.machine.ram 3 root a ≡ walk t.machine.ram 3 root a

-- On tables that form a tree, with four free pages and with the page behind the break below the
-- end of the heap, a fault in the heap and outside the regions of type 0 maps a new page at the
-- break and moves the break by a page, wherever the address lies: the address itself is served
-- only if it lies on the page of the break.
pub page_fault-Grown :
    (t : Task) (root a : ℕ)
    → Tables t.machine (root_pointer t) root
    → 4 ≤ free_pages t.machine.phys
    → in_region t.regions a ≡ false
    → heap_start ≤ a
    → a ≤ heap_end
    → t.brk + 4096 < heap_end
    → (t' : Task) × (page_fault t a ≡ resumed t') × Grown t root a t'
page_fault-Grown t root a tables supply outside lo hi room =
    let g = map_new_page-GotPage t root t.brk tables supply in
    (
      record (map_new_page t t.brk) { brk = t.brk + 4096 },
      unfold page_fault in ground arith,
      record { got = g; brk = refl; unserved = g.others a },
    )

-- A fault outside the regions of type 0, the stack and the heap stops the machine.
pub page_fault-halted :
    (t : Task) (a : ℕ)
    → in_region t.regions a ≡ false
    → (a < stack_end) ⊎ (stack_start ≤ a)
    → (a < heap_start) ⊎ (heap_end < a)
    → page_fault t a ≡ halted t
unfolding page_fault
page_fault-halted t a outside no_stack no_heap = ground arith
