-- ===== src/Prelude/Words.antt =====
-- Wrapping of values to the fixed widths of C.
use Prim.Native.Nat.{ℕ, ◌%◌, ◌^◌}

abbrev pub u8 : ℕ → ℕ
u8 n = n % 2 ^ 8

abbrev pub u64 : ℕ → ℕ
u64 n = n % 2 ^ 64
