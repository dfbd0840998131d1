-- ===== src/Faults/Heap.antt =====
-- The user's `malloc`: a pointer that only grows.
use sbu_operating_system.Prelude.{ℕ, ◌+◌, ◌%◌, ◌^◌, ◌≤◌, ◌<◌, ◌≡◌, arith, Option, none, some, pos}
use sbu_operating_system.Faults.{malloc, heap_end}

-- The outcome of a request of `size` bytes.
abbrev pub Granted : ℕ → ℕ → Option ℕ × ℕ → Type 0
Granted size before (none, after) = (after ≡ before) × (heap_end < before + size + 8)
Granted size before (some p, after) =
    (p ≡ before) × (p + size ≤ after) × (after ≤ heap_end) × (before % 8 ≡ 0 → after % 8 ≡ 0)

-- For a size below 2^31 - 8 that is no multiple of 8, or with the unset variable at 0, `malloc`
-- either hands out `size` bytes from the pointer on, inside the heap and with the pointer kept a
-- multiple of 8, or, when the size and at most 8 bytes more do not fit the heap, returns NULL and
-- leaves the pointer.
pub malloc-Granted :
    (stale size before : ℕ)
    → (size % 8 ≡ 0 → stale ≡ 0)
    → size + 8 < 2 ^ 31
    → Granted size before (malloc stale (pos size) before)
unfolding malloc
malloc-Granted stale size before clean small = ground arith

-- For a size that is a multiple of 8 the outcome rests on what the unset variable `a` held: if
-- there is room, the pointer moves by that number too.
pub malloc_stale :
    (stale size before : ℕ)
    → size % 8 ≡ 0
    → before + stale + size ≤ heap_end
    → malloc stale (pos size) before ≡ (some before, before + stale + size)
unfolding malloc
malloc_stale stale size before whole room = ground arith
