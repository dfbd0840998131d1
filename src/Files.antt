-- ===== src/Files.antt =====
-- sys/tarfs.c and sys/dir.c: the sizes in the headers of the archive, and the step from one header
-- to the next. `charToInt` has read the octal digits of the field as a decimal number before.
pub mod Size
pub mod Archive
pub mod Paths
pub mod Nodes
pub mod Calls
use sbu_operating_system.Prelude.{
  ℕ, zero, suc, ◌+◌, ◌-◌, ◌*◌, ◌/◌, ◌%◌, ◌^◌, Option, none, some, ltb, ◌==◌, if◌then◌else◌, u64,
}

-- `(int) octSize % 10`, as it enters the product with a `uint64_t`: the cast comes before the
-- remainder, which is negative for a negative `int`.
pub size_digit : ℕ → ℕ
size_digit oct =
    let low = oct % 2 ^ 32 in
    if ltb low (2 ^ 31) then low % 10 else u64 (2 ^ 64 - (2 ^ 32 - low) % 10)

-- The loop over the digits, on fuel. `x` goes up by two in every round.
pub size_loop : ℕ → ℕ → ℕ → ℕ → ℕ → Option ℕ
unfolding size_digit
size_loop zero x oct power size = none
size_loop (suc fuel) x oct power size =
    let step = if ltb 0 x then u64 (power * 8) else power in
    let rest = size_loop fuel (x + 2) (oct / 10) step (u64 (size + u64 (size_digit oct * step))) in
    if oct == 0 then some size else rest

-- The size of a file, for the number that the field spells in decimal.
pub octal_size : ℕ → Option ℕ
unfolding size_loop
octal_size oct = size_loop 21 0 oct 1 0

-- The offset of the header behind the one at `offset`, in an archive below 2^31 bytes, the range of
-- `temp`.
unfoldable pub next_header : ℕ → ℕ → ℕ
next_header offset size =
    if size == 0
    then offset + 512
    else offset + (if size % 512 == 0 then size + 512 else size + (512 - size % 512) + 512)
