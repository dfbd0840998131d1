-- ===== src/Process/Fork/Translated.antt =====
-- The child's tables against those of the parent.
use sbu_operating_system.Prelude.{
  ℕ, zero, suc, ◌+◌, ◌*◌, ◌/◌, ◌%◌, ◌^◌, ◌≤◌, ◌<◌, ◌≡◌, ◌⊎◌, ◌∙◌, ap, sym, arith, refl, inl, inr,
  ◌==◌, Bool-cases, subst, some, bit_or,
}
use sbu_operating_system.PhysMemory.{PhysMemory}
use sbu_operating_system.PhysMemory.Bitmap.{busy}
use sbu_operating_system.PhysMemory.Allocate.{allocate_page-Allocated}
use sbu_operating_system.PhysMemory.Count.{free_pages, HasFree-free_pages, free_pages-allocate_page}
use sbu_operating_system.Paging.{Machine, direct, virtual_base}
use sbu_operating_system.Paging.Entry.{window_right, direct_window}
use sbu_operating_system.Paging.Mmu.{entry, index, walk}
use sbu_operating_system.Paging.Tree.{IsTree}
use sbu_operating_system.Paging.Map.{Tables}
use sbu_operating_system.Process.Fork.{copy_tables, copy_parents_pagetables}
use sbu_operating_system.Process.Fork.Copied.{flagged, Shared, Copied, walk-Matches, walk-Shared}
use sbu_operating_system.Process.Fork.Leaves.{copy_pt-Copied, copy_pt-phys}
use sbu_operating_system.Process.Fork.Tables.{
  tables_below, linked_at, copy_tables-absent, copy_tables-present,
}
use sbu_operating_system.Process.Fork.Join.{
  taken_still, taken_now, linked_at-Shared, Copied-join, Copied-skip,
}

-- What was copied, and the pages that it took.
pub record CopiedWithin (level ram : ℕ → ℕ) (phys : PhysMemory) (m : Machine)
    (n i end p c count : ℕ) (m' : Machine) : Type 0 where
  pub copied : Copied level ram phys m n i end p c m'
  pub supply : free_pages m.phys ≤ free_pages m'.phys + count

module _ (level ram : ℕ → ℕ) (phys : PhysMemory)
    (words : (f j : ℕ) → j < 512 → entry ram f j < 2 ^ 64) (t : IsTree level ram phys) where
  -- A page that was free in a later state holds no table.
  free_level :
      (m : Machine) (q k : ℕ)
      → Shared level ram phys m
      → busy m.phys q ≡ 0
      → level q ≡ k
      → level q ≡ 0
  free_level m q zero s free lq = lq
  free_level m q (suc k) s free lq = absurd (omega (arith, s.taken q (t.taken q k lq).1))

  copy_tables-CopiedWithin :
      (n rounds i end parent child p c : ℕ) (m : Machine)
      → direct parent ≡ p * 4096
      → direct child ≡ c * 4096
      → i + rounds ≡ end
      → end ≤ 512
      → level p ≡ suc n
      → level c ≡ 0
      → busy m.phys c ≡ 1
      → Shared level ram phys m
      → tables_below ram n rounds i p ≤ free_pages m.phys
      → CopiedWithin level ram phys m n i end p c
          (tables_below ram n rounds i p)
          (copy_tables n rounds i parent child m)
  unfolding copy_tables tables_below
  copy_tables-CopiedWithin zero rounds i end parent child p c m at_p at_c total fits lp lc busy_c s
        supply =
      record {
        copied =
            copy_pt-Copied level ram phys words p c lp lc rounds i end parent child m at_p at_c
              total fits s;
        supply = omega (arith, ap free_pages (copy_pt-phys rounds i parent child m));
      }
  copy_tables-CopiedWithin (suc n) zero i end parent child p c m at_p at_c total fits lp lc busy_c s
        supply =
      record {
        copied = record {
          kept = s;
          grows = λ f h. h;
          frame = λ f j hj h lf ne. refl;
          before = λ j lt hj. refl;
          behind = λ j le hj. refl;
          matches = λ v lo hi. absurd (omega arith);
        };
        supply = omega arith;
      }
  copy_tables-CopiedWithin (suc n) (suc rounds) i end parent child p c m at_p at_c total fits lp lc
        busy_c s supply =
      let e = entry ram p i in
      let hi : i < 512 = omega arith in
      let same : entry m.ram p i ≡ e = s.upper p n i lp hi in
      elim (Bool-cases (e % 2 == 1)) [
        | inl here ↦
            let odd : e % 2 ≡ 1 = ground arith in
            let x = e / 4096 in
            let lx = t.child p i n lp hi odd in
            let small = (t.taken x n lx).0 in
            let below = tables_below ram n 512 0 x in
            let behind = tables_below ram (suc n) rounds (i + 1) p in
            let count : tables_below ram (suc n) (suc rounds) i p ≡ 1 + below + behind =
              rw here refl in
            let some_free : 0 < free_pages m.phys = omega (arith, count) in
            let a = allocate_page-Allocated m.phys (HasFree-free_pages m.phys some_free) in
            let q = a.page in
            let lq = free_level m q (level q) s a.was_free refl in
            let m1 = linked_at m c i q in
            let one : free_pages m.phys ≡ free_pages m1.phys + 1 =
              free_pages-allocate_page m.phys some_free in
            let grows : (f : ℕ) → busy m.phys f ≡ 1 → busy m1.phys f ≡ 1 =
              taken_still m.phys m1.phys q a.marks in
            let busy_q : busy m1.phys q ≡ 1 = taken_now m.phys m1.phys q a.marks in
            let s1 = linked_at-Shared level ram phys m c i q lc hi grows s in
            let from = virtual_base + x * 4096 in
            let to = virtual_base + q * 4096 in
            let sub =
              copy_tables-CopiedWithin n 512 0 512 from to x q m1
                (direct_window (x * 4096) (omega arith))
                (direct_window (q * 4096) (omega (arith, a.below))) refl (omega arith) lx lq busy_q
                s1 (omega (arith, count, one)) in
            let m2 = copy_tables n 512 0 from to m1 in
            let rest =
              copy_tables-CopiedWithin (suc n) rounds (i + 1) end parent child p c m2 at_p at_c
                (omega arith) fits lp lc (sub.copied.grows c (grows c busy_c)) sub.copied.kept
                (omega (arith, count, one, sub.supply)) in
            let m3 = copy_tables (suc n) rounds (i + 1) parent child m2 in
            let run =
              copy_tables-present n rounds i parent child m p c q at_p at_c
                (ap (λ y. y % 2) same ∙ odd) (omega (arith, same)) a.at a.below
              ∙ ap
                  (λ y.
                    copy_tables (suc n) rounds (i + 1) parent child
                      (copy_tables n 512 0 (virtual_base + y / 4096 * 4096) to m1))
                  same in
            subst
              (CopiedWithin level ram phys m (suc n) i end p c
                (tables_below ram (suc n) (suc rounds) i p))
              (sym run)
              (record {
                copied =
                    Copied-join level ram phys m m2 m3 n i end p c q hi (omega arith) lc lq busy_c
                      a.was_free a.marks sub.copied rest.copied;
                supply = omega (arith, count, one, sub.supply, rest.supply);
              })
        | inr absent ↦
            let even : e % 2 ≡ 0 = ground arith in
            let count : tables_below ram (suc n) (suc rounds) i p
                ≡ tables_below ram (suc n) rounds (i + 1) p =
              rw absent refl in
            let rest =
              copy_tables-CopiedWithin (suc n) rounds (i + 1) end parent child p c m at_p at_c
                (omega arith) fits lp lc busy_c s (omega (arith, count)) in
            let run =
              copy_tables-absent n rounds i parent child m p at_p (ap (λ x. x % 2) same ∙ even) in
            subst
              (CopiedWithin level ram phys m (suc n) i end p c
                (tables_below ram (suc n) (suc rounds) i p))
              (sym run)
              (record {
                copied = Copied-skip level ram phys m _ n i end p c even rest.copied;
                supply = omega (arith, rest.supply, count);
              })
      ]

-- The processor finds behind the child's table what it found behind the parent's, with the flags P, R
-- and U; and behind the parent's what it found there, with the old flags or with these.
pub record Translated (m : Machine) (root child : ℕ) (m' : Machine) : Type 0 where
  pub copies :
      (v e : ℕ)
      → index 3 v < 511
      → walk m.ram 3 root v ≡ some e
      → walk m'.ram 3 child v ≡ some (flagged e)
  pub originals :
      (v e : ℕ)
      → walk m.ram 3 root v ≡ some e
      → (walk m'.ram 3 root v ≡ some e) ⊎ (walk m'.ram 3 root v ≡ some (flagged e))
  pub grows : (f : ℕ) → busy m.phys f ≡ 1 → busy m'.phys f ≡ 1

-- The whole loop, as a copy of the first 511 entries.
pub copy_parents_pagetables-CopiedWithin :
    (m : Machine) (parent_cr3 root child : ℕ) (t : Tables m parent_cr3 root)
    → ((f j : ℕ) → j < 512 → entry m.ram f j < 2 ^ 64)
    → child < 2 ^ 19
    → t.level child ≡ 0
    → busy m.phys child ≡ 1
    → tables_below m.ram 3 511 0 root ≤ free_pages m.phys
    → CopiedWithin t.level m.ram m.phys m 3 0 511 root child
        (tables_below m.ram 3 511 0 root)
        (copy_parents_pagetables m parent_cr3 (child * 4096))
unfolding copy_parents_pagetables
copy_parents_pagetables-CopiedWithin m parent_cr3 root child t words small free taken supply =
    let pointer = window_right (child * 4096) (omega arith) in
    let at : direct (bit_or (child * 4096) virtual_base) ≡ child * 4096 =
      ap direct pointer ∙ direct_window (child * 4096) (omega arith) in
    let same : Shared t.level m.ram m.phys m = record {
      upper = λ f k j lf hj. refl;
      leaves = λ f j lf hj. inl refl;
      taken = λ f h. h;
    } in
    copy_tables-CopiedWithin t.level m.ram m.phys words t.tree 3 511 0 511 parent_cr3
      (bit_or (child * 4096) virtual_base) root child m t.at at refl (omega arith) t.level_root free
      taken same supply

-- For tables of the parent that form a tree of 64-bit words, and for a page of the child's that is
-- taken and holds no table of the parent, `copy_parents_pagetables` copies the translation of every
-- address below the last entry of the first table, if there is a free page for each table to copy.
-- The parent keeps its translations but for flags, and no page becomes free.
pub copy_parents_pagetables-Translated :
    (m : Machine) (parent_cr3 root child : ℕ) (t : Tables m parent_cr3 root)
    → ((f j : ℕ) → j < 512 → entry m.ram f j < 2 ^ 64)
    → child < 2 ^ 19
    → t.level child ≡ 0
    → busy m.phys child ≡ 1
    → tables_below m.ram 3 511 0 root ≤ free_pages m.phys
    → Translated m root child (copy_parents_pagetables m parent_cr3 (child * 4096))
copy_parents_pagetables-Translated m parent_cr3 root child t words small free taken supply =
    let level = t.level in
    let done =
      (copy_parents_pagetables-CopiedWithin m parent_cr3 root child t words small free taken
        supply).copied in
    let m' = copy_parents_pagetables m parent_cr3 (child * 4096) in
    record {
      copies = λ v e lt found.
          walk-Matches level m.ram m.phys m.phys m' 3 root child v e
            (done.matches v (omega arith) lt) found;
      originals = λ v e found.
          walk-Shared level m.ram m.phys m' 3 root v e t.tree t.level_root done.kept found;
      grows = done.grows;
    }
