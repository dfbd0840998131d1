-- ===== src/PhysMemory.antt =====
-- sys/physmemory.c: the bitmap of physical pages at `freeList`, and the allocator over it.
-- A set digit is a busy page. The array of words has no bound in the code, so it is a function.
pub mod Bitmap
pub mod Search
pub mod Allocate
pub mod Count
pub mod Boot
use sbu_operating_system.Prelude.{
  ℕ, zero, suc, ◌+◌, ◌-◌, ◌*◌, ◌/◌, ◌%◌, ◌^◌, bit_and, bit_or, Option, none, some, ltb, leb, ◌==◌,
  if◌then◌else◌, update, u64,
}

abbrev pub page_size : ℕ
page_size = 4096

pub record PhysMemory : Type 0 where
  pub free_list : ℕ → ℕ
  pub max_base : ℕ
  pub max_end : ℕ

unfoldable pub set_page_free : PhysMemory → ℕ → PhysMemory
set_page_free s page = record s {
  free_list =
      update s.free_list (page / 64)
        (bit_and (s.free_list (page / 64)) (2 ^ 64 - 1 - 2 ^ (page % 64)));
}

unfoldable pub set_page_busy : PhysMemory → ℕ → PhysMemory
set_page_busy s page = record s {
  free_list = update s.free_list (page / 64) (bit_or (s.free_list (page / 64)) (2 ^ (page % 64)));
}

-- The first loop of `makeFreeList`, with `end - base` rounds.
free_range : ℕ → ℕ → PhysMemory → PhysMemory
free_range zero i s = s
free_range (suc rounds) i s = free_range rounds (i + 1) (set_page_free s i)

-- Its second loop, on fuel; `i` is a `uint64_t`. `page_count` is an `int`, so `none` when it would
-- pass 2^31 - 1.
busy_low : ℕ → ℕ → ℕ → ℕ → PhysMemory → Option PhysMemory
busy_low zero physfree i page_count s = none
busy_low (suc fuel) physfree i page_count s =
    let next =
      busy_low fuel physfree (u64 (i + page_size)) (page_count + 1) (set_page_busy s page_count) in
    if leb i physfree then (if ltb (page_count + 1) (2 ^ 31) then next else none) else some s

-- `physbase` is not read. The free list itself is placed at `physfree`.
pub make_free_list : ℕ → ℕ → ℕ → ℕ → PhysMemory → Option PhysMemory
unfolding free_range busy_low
make_free_list physbase physfree base end s =
    let raised : PhysMemory = record s {
      max_base = if ltb s.max_base base then base else s.max_base;
      max_end = if ltb s.max_end end then end else s.max_end;
    } in
    let freed = free_range (end / page_size - base / page_size) (base / page_size) raised in
    busy_low (physfree / page_size + 2) physfree 0 0 freed

-- The inner loop of `findFreePage`, at digit `j` of a word.
find_bit : ℕ → ℕ → ℕ → Option ℕ
find_bit zero j word = none
find_bit (suc rounds) j word =
    let rest = find_bit rounds (j + 1) word in if bit_and word (2 ^ j) == 0 then some j else rest

-- The outer loop, at word `i`.
find_word : ℕ → ℕ → PhysMemory → Option ℕ
unfolding find_bit
find_word zero i s = none
find_word (suc rounds) i s = elim (find_bit 64 0 (s.free_list i)) [
  | some j ↦ some (i * 64 + j)
  | none ↦ find_word rounds (i + 1) s
]

-- `none` is the -1 of the code.
unfoldable pub find_free_page : PhysMemory → Option ℕ
unfolding find_word
find_free_page s = find_word 256 0 s

-- The physical address of the page, or 0 when every page of the bitmap is busy.
unfoldable pub allocate_page : PhysMemory → ℕ × PhysMemory
unfolding find_free_page set_page_busy
allocate_page s = elim (find_free_page s) [
  | none ↦ (0, s)
  | some page ↦ (page * page_size, set_page_busy s page)
]
