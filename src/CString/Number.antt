-- ===== src/CString/Number.antt =====
-- `charToInt`: reading a decimal number.
use sbu_operating_system.Prelude.{
  ℕ, zero, suc, ◌+◌, ◌-◌, ◌*◌, ◌^◌, ◌≤◌, ◌<◌, ◌≡◌, refl, arith, List, [], ◌∷◌, length, some, u64,
  true, false,
}
use sbu_operating_system.CString.{Memory, char_to_int_loop, char_to_int, is_digit}

-- Decimal digits, as numbers below ten, stand as characters from `p` on, and another byte follows.
abbrev pub HoldsDigits : Memory → ℕ → List ℕ → Type 0
HoldsDigits m p [] = is_digit (m p) ≡ false
HoldsDigits m p (d ∷ ds) = (d < 10) × (m p ≡ b'0' + d) × HoldsDigits m (p + 1) ds

-- The number with the digits `ds` behind those of `acc`, the most significant first.
abbrev pub from_digits : ℕ → List ℕ → ℕ
from_digits acc [] = acc
from_digits acc (d ∷ ds) = from_digits (acc * 10 + d) ds

pub from_digits-le : (acc : ℕ) (ds : List ℕ) → acc ≤ from_digits acc ds
from_digits-le acc [] = omega arith
from_digits-le acc (d ∷ ds) = omega (arith, from_digits-le (acc * 10 + d) ds)

char_to_int_loop-from_digits :
    (fuel : ℕ) (m : Memory) (p acc : ℕ) (ds : List ℕ)
    → HoldsDigits m p ds
    → length ds < fuel
    → from_digits acc ds < 2 ^ 64
    → char_to_int_loop fuel m p acc ≡ some (from_digits acc ds)
unfolding char_to_int_loop
char_to_int_loop-from_digits zero m p acc ds h lt small = elim lt [ ]
char_to_int_loop-from_digits (suc fuel) m p acc [] h lt small = rw h refl
char_to_int_loop-from_digits (suc fuel) m p acc (d ∷ ds) h lt small =
    let digit : is_digit (m p) ≡ true = ground arith in
    let next : u64 (u64 (acc * 10) + (m p - b'0')) ≡ acc * 10 + d =
      omega (arith, from_digits-le (acc * 10 + d) ds) in
    rw (digit, next)
      (char_to_int_loop-from_digits fuel m (p + 1) (acc * 10 + d) ds h.2 (omega arith) small)

-- With fuel above the number of digits, `charToInt` ends and returns the decimal number that the
-- digits spell, if it fits 64 bits.
pub char_to_int-from_digits :
    (fuel : ℕ) (m : Memory) (p : ℕ) (ds : List ℕ)
    → HoldsDigits m p ds
    → length ds < fuel
    → from_digits 0 ds < 2 ^ 64
    → char_to_int fuel m p ≡ some (from_digits 0 ds)
unfolding char_to_int
char_to_int-from_digits fuel m p ds h lt small =
    char_to_int_loop-from_digits fuel m p 0 ds h lt small
