-- ===== src/Console/Digits.antt =====
-- `printInt` prints decimal, and `charToInt` reads it back.
use sbu_operating_system.Prelude.{
  ℕ, suc, ◌+◌, ◌-◌, ◌*◌, ◌%◌, ◌≤◌, ◌<◌, ◌≡◌, refl, arith, Option, some, List, [], ◌∷◌, map, length,
  negsuc,
}
use mathlib.Core.List
use sbu_operating_system.CString.{Memory, char_to_int}
use sbu_operating_system.CString.Layout.{Holds}
use sbu_operating_system.CString.Number.{from_digits}
use sbu_operating_system.Console.{print_int}

-- Only the characters of the ten digits.
abbrev pub AllDigits : List ℕ → Type 0
AllDigits [] = Unit
AllDigits (c ∷ cs) = (48 ≤ c) × (c < 58) × AllDigits cs

-- The number that the characters spell, the lowest digit first.
abbrev low_first : List ℕ → ℕ
low_first [] = 0
low_first (c ∷ cs) = (c - 48) + 10 * low_first cs

abbrev pub decode : List ℕ → List ℕ
decode cs = map (λ c. c - 48) cs

record Spells (n room : ℕ) (r : Option (List ℕ)) : Type 0 where
  chars : List ℕ
  returns : r ≡ some chars
  digits : AllDigits chars
  value : low_first chars ≡ n
  short : length chars ≤ room

record Reversed (cs out : List ℕ) : Type 0 where
  digits : AllDigits out
  value : from_digits 0 (decode out) ≡ low_first cs
  same_length : length out ≡ length cs

-- Characters that `charToInt` reads as `n`, wherever they stand in memory.
pub record ReadsAs (n : ℕ) (cs : List ℕ) : Type 0 where
  pub digits : AllDigits cs
  pub reads :
      (fuel : ℕ) (m : Memory) (p : ℕ)
      → Holds m p cs
      → length cs < fuel
      → char_to_int fuel m p ≡ some n

-- Of a negative `int`, `printInt` prints a single character, with a code from 39 to 48: neither a
-- sign nor the digits.
pub print_int_negative :
    (n : ℕ) → (c : ℕ) × (print_int (negsuc n) ≡ some (c ∷ [])) × (39 ≤ c) × (c ≤ 48)
unfolding print_int
print_int_negative n = (48 - suc n % 10, refl, omega arith, omega arith)
