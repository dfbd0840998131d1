-- ===== src/Process/Fork/Tables.antt =====
-- The three outer loops of `copy_parents_pagetables`, which copy a tree of tables.
use sbu_operating_system.Prelude.{
  ℕ, zero, suc, ◌+◌, ◌*◌, ◌/◌, ◌%◌, ◌≤◌, ◌<◌, ◌≡◌, ◌∙◌, ap, arith, refl, inl, inr, ◌==◌,
  if◌then◌else◌, Bool-cases, bit_and, bit_or, true, false,
}
use sbu_operating_system.PhysMemory.{PhysMemory, allocate_page}
use sbu_operating_system.Paging.{Machine, direct, load, store, mask_permission, pt_p, virtual_base}
use sbu_operating_system.Paging.Entry.{mask_lem, present_lem, window_right}
use sbu_operating_system.Paging.Mmu.{entry}
use sbu_operating_system.Paging.Tree.{IsTree}
use sbu_operating_system.Paging.Frame.{SameEntries}
use sbu_operating_system.Paging.Leaf.{written}
use sbu_operating_system.Process.Fork.{copy_tables}
use sbu_operating_system.Process.Fork.Leaves.{or_seven, load_at, store_at}

-- The new tables that the loops take, for the entries from `i` of a table at level `n`.
unfoldable pub tables_below : (ℕ → ℕ) → ℕ → ℕ → ℕ → ℕ → ℕ
tables_below ram zero rounds i p = 0
tables_below ram (suc n) zero i p = 0
tables_below ram (suc n) (suc rounds) i p =
    let below = tables_below ram n 512 0 (entry ram p i / 4096) in
    let rest = tables_below ram (suc n) rounds (i + 1) p in
    if entry ram p i % 2 == 1 then 1 + below + rest else rest

pub tables_below-same :
    (level ram ram' : ℕ → ℕ) (phys : PhysMemory)
    → IsTree level ram phys
    → SameEntries level ram ram'
    → (n rounds i p : ℕ) → level p ≡ suc n
    → i + rounds ≤ 512
    → tables_below ram' n rounds i p ≡ tables_below ram n rounds i p
unfolding tables_below
tables_below-same level ram ram' phys t same zero rounds i p lp fits = refl
tables_below-same level ram ram' phys t same (suc n) zero i p lp fits = refl
tables_below-same level ram ram' phys t same (suc n) (suc rounds) i p lp fits =
    let e = same p (suc n) i lp (omega arith) in
    let rest =
      tables_below-same level ram ram' phys t same (suc n) rounds (i + 1) p lp (omega arith) in
    elim (Bool-cases (entry ram p i % 2 == 1)) [
      | inl here ↦
          let child = t.child p i n lp (omega arith) (ground arith) in
          let below = tables_below-same level ram ram' phys t same n 512 0 _ child (omega arith) in
          rw (e, here, below, rest) refl
      | inr absent ↦ rw (e, absent) rest
    ]

-- The page `q` linked as a table into the entry `i` of `c`.
abbrev pub linked_at : Machine → ℕ → ℕ → ℕ → Machine
linked_at m c i q = record {
  ram = written m.ram c i (q * 4096 + 7);
  phys = (allocate_page m.phys).1;
}

pub copy_tables-absent :
    (n rounds i parent child : ℕ) (m : Machine) (p : ℕ)
    → direct parent ≡ p * 4096
    → entry m.ram p i % 2 ≡ 0
    → copy_tables (suc n) (suc rounds) i parent child m
      ≡ copy_tables (suc n) rounds (i + 1) parent child m
unfolding copy_tables
copy_tables-absent n rounds i parent child m p at absent =
    let off : (bit_and (load m parent i) pt_p == 0) ≡ true =
      ap (λ x. bit_and x pt_p == 0) (load_at m parent p i at)
      ∙ ground (arith, present_lem (entry m.ram p i)) in
    rw off refl

pub copy_tables-present :
    (n rounds i parent child : ℕ) (m : Machine) (p c q : ℕ)
    → direct parent ≡ p * 4096
    → direct child ≡ c * 4096
    → entry m.ram p i % 2 ≡ 1
    → entry m.ram p i / 4096 < 16384
    → (allocate_page m.phys).0 ≡ q * 4096
    → q < 16384
    → copy_tables (suc n) (suc rounds) i parent child m
      ≡ copy_tables (suc n) rounds (i + 1) parent child (
          copy_tables n 512 0
            (virtual_base + entry m.ram p i / 4096 * 4096)
            (virtual_base + q * 4096)
            (linked_at m c i q))
unfolding copy_tables
copy_tables-present n rounds i parent child m p c q at_p at_c here small at_q small_q =
    let e = entry m.ram p i in
    let loaded = load_at m parent p i at_p in
    let on : (bit_and (load m parent i) pt_p == 0) ≡ false =
      ap (λ x. bit_and x pt_p == 0) loaded ∙ ground (arith, present_lem e) in
    let page = (allocate_page m.phys).0 in
    let taken : Machine = record m { phys = (allocate_page m.phys).1 } in
    let go : ℕ → ℕ → Machine → Machine = λ below new linked.
      copy_tables (suc n) rounds (i + 1) parent child (copy_tables n 512 0 below new linked) in
    let below_is : bit_or (bit_and (load m parent i) mask_permission) virtual_base
        ≡ virtual_base + e / 4096 * 4096 =
      ap (λ x. bit_or (bit_and x mask_permission) virtual_base) loaded
      ∙ ap (λ x. bit_or x virtual_base) (mask_lem e (omega arith))
      ∙ window_right (e / 4096 * 4096) (omega arith) in
    let new_is : bit_or page virtual_base ≡ virtual_base + q * 4096 =
      ap (λ x. bit_or x virtual_base) at_q ∙ window_right (q * 4096) (omega arith) in
    let linked_is : store taken child i (bit_or page 7) ≡ linked_at m c i q =
      store_at taken child c i (bit_or page 7) at_c
      ∙ ap (λ x. record taken { ram = written m.ram c i x })
          (ap (λ x. bit_or x 7) at_q ∙ or_seven q) in
    rw on refl
    ∙ ap (λ x. go x (bit_or page virtual_base) (store taken child i (bit_or page 7))) below_is
    ∙ ap (λ x. go (virtual_base + e / 4096 * 4096) x (store taken child i (bit_or page 7))) new_is
    ∙ ap (go (virtual_base + e / 4096 * 4096) (virtual_base + q * 4096)) linked_is
