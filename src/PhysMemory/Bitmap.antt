-- ===== src/PhysMemory/Bitmap.antt =====
-- What `setPageFree` and `setPageBusy` do to the state of every page.
use sbu_operating_system.Prelude.{ℕ, ◌-◌, ◌/◌, ◌%◌, ◌^◌, ◌≡◌, arith, ◌==◌, if◌then◌else◌}
use sbu_operating_system.Bits.{
  bit, bit-le-one, bit-bit_and, bit-bit_or, bit-two_pow, bit-complement, two_pow-lt,
}
use sbu_operating_system.PhysMemory.{PhysMemory, set_page_free, set_page_busy}

-- 1 if the page is marked busy, 0 if it is free.
abbrev pub busy : PhysMemory → ℕ → ℕ
busy s page = bit (page % 64) (s.free_list (page / 64))

-- `setPageFree` frees the given page and leaves the mark of every other page alone.
pub busy-set_page_free :
    (s : PhysMemory) (page other : ℕ)
    → busy (set_page_free s page) other ≡ (if other == page then 0 else busy s other)
unfolding set_page_free
busy-set_page_free s page other = ground (
  arith,
  bit-bit_and (other % 64) (s.free_list (page / 64)) (2 ^ 64 - 1 - 2 ^ (page % 64)),
  bit-complement 64 (other % 64) (2 ^ (page % 64)) (omega arith)
      (two_pow-lt (page % 64) 64 (omega arith)),
  bit-two_pow (other % 64) (page % 64),
  bit-le-one (other % 64) (s.free_list (page / 64)),
)

-- `setPageBusy` marks the given page and leaves the mark of every other page alone.
pub busy-set_page_busy :
    (s : PhysMemory) (page other : ℕ)
    → busy (set_page_busy s page) other ≡ (if other == page then 1 else busy s other)
unfolding set_page_busy
busy-set_page_busy s page other = ground (
  arith,
  bit-bit_or (other % 64) (s.free_list (page / 64)) (2 ^ (page % 64)),
  bit-two_pow (other % 64) (page % 64),
  bit-le-one (other % 64) (s.free_list (page / 64)),
)
