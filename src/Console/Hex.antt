-- ===== src/Console/Hex.antt =====
-- `printHex` and `printPointer`, and what `%x` and `%p` make of their argument.
use sbu_operating_system.Prelude.{
  ℕ, ◌+◌, ◌-◌, ◌*◌, ◌^◌, ◌≤◌, ◌<◌, ◌≡◌, ◌↔◌, ◌⊎◌, arith, List, [], ◌∷◌, ltb, if◌then◌else◌,
}
use sbu_operating_system.Console.{int_of_long}

-- The value of a hexadecimal digit, and of several behind `acc`.
abbrev pub digit_value : ℕ → ℕ
digit_value c = if ltb c 58 then c - 48 else c - 55

abbrev pub read_hex : ℕ → List ℕ → ℕ
read_hex acc [] = acc
read_hex acc (c ∷ cs) = read_hex (acc * 16 + digit_value c) cs

-- One of 0 to 9 or A to F, and several of them.
abbrev pub IsHexDigit : ℕ → Type 0
IsHexDigit c = ((48 ≤ c) × (c ≤ 57)) ⊎ ((65 ≤ c) × (c ≤ 70))

abbrev pub AllHexDigits : List ℕ → Type 0
AllHexDigits [] = Unit
AllHexDigits (c ∷ cs) = IsHexDigit c × AllHexDigits cs

-- `%x` and `%p` keep an argument exactly when it is below 2^31 or at least 2^64 - 2^31; any other
-- is printed as another number, since it passes through an `int`.
pub int_of_long_iff :
    (n : ℕ) → n < 2 ^ 64 → (int_of_long n ≡ n) ↔ ((n < 2 ^ 31) ⊎ (2 ^ 64 - 2 ^ 31 ≤ n))
unfolding int_of_long
int_of_long_iff n h = (λ e. ground arith, λ e. ground arith)
