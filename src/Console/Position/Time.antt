-- ===== src/Console/Position/Time.antt =====
-- What `%t` prints of hours, minutes and seconds.
use sbu_operating_system.Prelude.{
  ℕ, ◌+◌, ◌/◌, ◌%◌, ◌<◌, ◌≡◌, arith, some, [], ◌∷◌, ltb, pos, Bool-cases, inl, inr,
}
use sbu_operating_system.Console.Position.{print_time_small, print_time, time_chars}

-- Of a number below 100, `%t` prints the two decimal digits.
pub time_chars_two_digits :
    (n : ℕ) → n < 100 → time_chars (pos n) ≡ some ((b'0' + n / 10) ∷ (b'0' + n % 10) ∷ [])
unfolding time_chars print_time print_time_small
time_chars_two_digits n lt = elim (Bool-cases (ltb n 10)) [
  | inl small ↦ ground arith
  | inr large ↦ ground arith
]
