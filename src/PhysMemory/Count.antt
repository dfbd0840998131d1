-- ===== src/PhysMemory/Count.antt =====
-- How many pages are left: the allocator's supply as a number.
use sbu_operating_system.Prelude.{
  ℕ, zero, suc, ◌+◌, ◌-◌, ◌≤◌, ◌<◌, ◌≡◌, arith, ltb, ap, subst, ◌==◌, if◌then◌else◌, Bool-cases,
  inl, inr,
}
use native.Mathlib.Nat.{le_refl}
use sbu_operating_system.PhysMemory.{PhysMemory, allocate_page}
use sbu_operating_system.PhysMemory.Bitmap.{busy}
use sbu_operating_system.PhysMemory.Allocate.{HasFree, allocate_page-Allocated}

-- The free pages below `n`.
unfoldable pub free_below : ℕ → PhysMemory → ℕ
free_below zero s = 0
free_below (suc n) s = (1 - busy s n) + free_below n s

abbrev pub reach : ℕ
reach = 16384

-- The free pages that `findFreePage` can find.
pub free_pages : PhysMemory → ℕ
free_pages s = free_below reach s

HasFree-below : (n : ℕ) (s : PhysMemory) → n ≤ 16384 → 0 < free_below n s → HasFree s
unfolding free_below
HasFree-below zero s le h = elim h [ ]
HasFree-below (suc n) s le h = elim (Bool-cases (busy s n == 0)) [
  | inl free ↦ (n, le, ground arith)
  | inr taken ↦ HasFree-below n s (omega arith) (ground arith)
]

pub HasFree-free_pages : (s : PhysMemory) → 0 < free_pages s → HasFree s
unfolding free_pages
HasFree-free_pages s h = HasFree-below 16384 s (le_refl 16384) h

-- Taking the page `p` lowers the count by one above it and not at all below it.
free_below-taken :
    (n p : ℕ) (s s' : PhysMemory)
    → busy s p ≡ 0
    → ((q : ℕ) → busy s' q ≡ (if q == p then 1 else busy s q))
    → free_below n s ≡ free_below n s' + (if ltb p n then 1 else 0)
unfolding free_below
free_below-taken zero p s s' free marks = ground arith
free_below-taken (suc n) p s s' free marks = elim (Bool-cases (n == p)) [
  | inl same ↦
      let at : n ≡ p = ground arith in
      ground (arith, free_below-taken n p s s' free marks, marks n, ap (busy s) at)
  | inr other ↦ ground (arith, free_below-taken n p s s' free marks, marks n)
]

-- Every allocation that succeeds leaves exactly one free page less.
pub free_pages-allocate_page :
    (s : PhysMemory) → 0 < free_pages s → free_pages s ≡ free_pages (allocate_page s).1 + 1
unfolding free_pages
free_pages-allocate_page s h =
    let a = allocate_page-Allocated s (HasFree-free_pages s h) in
    ground (arith, free_below-taken 16384 a.page s (allocate_page s).1 a.was_free a.marks, a.below)

free_below_mono : (k n : ℕ) (s : PhysMemory) → free_below n s ≤ free_below (k + n) s
free_below_mono zero n s = let e : 0 + n ≡ n = omega arith in rw e (le_refl _)
free_below_mono (suc k) n s = ground (arith, more k n s, free_below_mono k n s)
  where
    more : (k n : ℕ) (s : PhysMemory) → free_below (k + n) s ≤ free_below (suc k + n) s
    more k n s =
        let e : suc k + n ≡ suc (k + n) = omega arith in rw e (unfold free_below in omega arith)

-- A lower bound by a shorter count.
pub free_below-le-free_pages : (n : ℕ) (s : PhysMemory) → n ≤ 16384 → free_below n s ≤ free_pages s
unfolding free_pages
free_below-le-free_pages n s h =
    let e : 16384 - n + n ≡ 16384 = omega arith in
    subst (λ k. free_below n s ≤ free_below k s) e (free_below_mono (16384 - n) n s)
