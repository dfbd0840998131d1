-- ===== src/PhysMemory/Allocate.antt =====
-- `allocatePage`: what it hands out, and that it never hands a page out twice.
use sbu_operating_system.Prelude.{
  ℕ, ◌*◌, ◌<◌, ◌≡◌, arith, ◌==◌, if◌then◌else◌, Option, none, some, refl,
}
use sbu_operating_system.PhysMemory.{PhysMemory, allocate_page, set_page_busy, find_free_page}
use sbu_operating_system.PhysMemory.Bitmap.{busy, busy-set_page_busy}
use sbu_operating_system.PhysMemory.Search.{BusyBetween, IsFirstFree, find_free_page_lem}

-- A page in reach of the search is free.
abbrev pub HasFree : PhysMemory → Type 0
HasFree s = (q : ℕ) × (q < 16384) × (busy s q ≡ 0)

-- What an allocation that succeeds tells: the lowest free page was taken, by its address, and only
-- its mark changed.
pub record Allocated (s : PhysMemory) (address : ℕ) (s' : PhysMemory) : Type 0 where
  pub page : ℕ
  pub at : address ≡ page * 4096
  pub below : page < 16384
  pub was_free : busy s page ≡ 0
  pub lowest : BusyBetween (busy s) 0 page
  pub marks : (q : ℕ) → busy s' q ≡ (if q == page then 1 else busy s q)

-- Whenever a page in reach is free, `allocatePage` returns the address of the lowest one, marks it
-- busy, and changes no other mark.
pub allocate_page-Allocated :
    (s : PhysMemory) → HasFree s → let (address, s') = allocate_page s in Allocated s address s'
unfolding allocate_page
allocate_page-Allocated s (q, lt, free) = go (find_free_page s) (find_free_page_lem s)
  where
    go :
        (r : Option ℕ)
        → IsFirstFree (busy s) 0 16384 r
        → let (address, s') =
            (let out : ℕ × PhysMemory = elim r [
              | none ↦ (0, s)
              | some page ↦ (page * 4096, set_page_busy s page)
            ] in
              out) in
          Allocated s address s'
    go none all = absurd (ground (arith, all q))
    go (some p) (lo, hi, was_free, lowest) = record {
      page = p;
      at = refl;
      below = hi;
      was_free = was_free;
      lowest = lowest;
      marks = busy-set_page_busy s p;
    }

-- When every page in reach is busy, `allocatePage` returns 0 and changes nothing.
pub allocate_page_full : (s : PhysMemory) → BusyBetween (busy s) 0 16384 → allocate_page s ≡ (0, s)
unfolding allocate_page
allocate_page_full s full = go (find_free_page s) (find_free_page_lem s)
  where
    go :
        (r : Option ℕ)
        → IsFirstFree (busy s) 0 16384 r
        → ◌≡◌ {A = ℕ × PhysMemory}
            (elim r [ none ↦ (0, s) | some page ↦ (page * 4096, set_page_busy s page) ])
            (0, s)
    go none all = refl
    go (some p) (lo, hi, free, lowest) = absurd (ground (arith, full p))
