-- ===== src/Files/Size.antt =====
-- The octal sizes of the archive's headers.
use sbu_operating_system.Prelude.{
  ℕ, zero, suc, ◌+◌, ◌*◌, ◌/◌, ◌%◌, ◌^◌, ◌≤◌, ◌<◌, ◌≡◌, ◌∙◌, refl, ap, subst, arith, some, List, [],
  ◌∷◌, length, ltb, u64, ◌==◌, if◌then◌else◌, Bool-cases, inl, inr, sym,
}
use sbu_operating_system.CString.Number.{from_digits}
use sbu_operating_system.Files.{size_digit, size_loop, octal_size, next_header}

-- The number that octal digits spell, the most significant first, behind `acc`.
abbrev pub from_octal : ℕ → List ℕ → ℕ
from_octal acc [] = acc
from_octal acc (d ∷ ds) = from_octal (acc * 8 + d) ds

abbrev pub AllOctal : List ℕ → Type 0
AllOctal [] = Unit
AllOctal (d ∷ ds) = (d < 8) × AllOctal ds

-- The `k` decimal digits of `n`, read in base 8, make `v`.
abbrev InOctal : ℕ → ℕ → ℕ → Type 0
InOctal zero n v = (n ≡ 0) × (v ≡ 0)
InOctal (suc k) n v = (w : ℕ) × InOctal k (n / 10) w × (n % 10 < 8) × (v ≡ w * 8 + n % 10)

InOctal-zero : (k : ℕ) → InOctal k 0 0
InOctal-zero zero = (refl, refl)
InOctal-zero (suc k) = (0, InOctal-zero k, omega arith, refl)

InOctal-suc : (k n v d : ℕ) → InOctal k n v → d < 8 → InOctal (suc k) (n * 10 + d) (v * 8 + d)
InOctal-suc k n v d h lt =
    let same : n ≡ (n * 10 + d) / 10 = omega arith in
    (v, subst (λ m. InOctal k m v) same h, omega arith, omega arith)

InOctal-from_digits :
    (k : ℕ) (ds : List ℕ) (n v : ℕ)
    → InOctal k n v
    → AllOctal ds
    → InOctal (length ds + k) (from_digits n ds) (from_octal v ds)
InOctal-from_digits k [] n v h all = subst (λ j. InOctal j n v) (omega arith) h
InOctal-from_digits k (d ∷ ds) n v h all =
    subst (λ j. InOctal j (from_digits (n * 10 + d) ds) (from_octal (v * 8 + d) ds)) (omega arith)
      (InOctal-from_digits (suc k) ds (n * 10 + d) (v * 8 + d) (InOctal-suc k n v d h all.0) all.1)

InOctal-none : (k n v : ℕ) → InOctal k n v → n ≡ 0 → v ≡ 0
InOctal-none zero n v h none? = h.1
InOctal-none (suc k) n v (w, rest, lt, whole) none? =
    omega (arith, InOctal-none k (n / 10) w rest (omega arith))

-- A product is no smaller than its factors.
le-product : (a b : ℕ) → 0 < a → 0 < b → (a ≤ a * b) × (b ≤ a * b)
le-product zero b ha hb = elim ha [ ]
le-product (suc a) zero ha hb = elim hb [ ]
le-product (suc a) (suc b) ha hb = (omega arith, omega arith)

size_digit-small : (n : ℕ) → n < 2 ^ 31 → size_digit n ≡ n % 10
unfolding size_digit
size_digit-small n h = ground arith

-- The digits of a number, each weighed by `step`, weigh together no less than the octal number.
weigh_parts : (size step q r : ℕ) → size + step * r + step * 8 * q ≤ size + step * (q * 10 + r)
weigh_parts size step q r = omega arith

weigh : (size step n : ℕ) → size + step * (n % 10) + step * 8 * (n / 10) ≤ size + step * n
weigh size step n =
    let parts : n / 10 * 10 + n % 10 ≡ n = omega arith in
    subst (λ m. size + step * (n % 10) + step * 8 * (n / 10) ≤ size + step * m) parts
      (weigh_parts size step (n / 10) (n % 10))

weigh_octal :
    (size step n w : ℕ) → size + step * (n % 10) + step * 8 * w ≡ size + step * (w * 8 + n % 10)
weigh_octal size step n w = omega arith

-- `step` is the weight of the lowest digit that is left.
size_loop-octal :
    (fuel k x n v power step size : ℕ)
    → InOctal k n v
    → k < fuel
    → (if ltb 0 x then u64 (power * 8) else power) ≡ step
    → size + step * n < 2 ^ 31
    → 0 < step
    → size_loop fuel x n power size ≡ some (size + step * v)
unfolding size_loop
size_loop-octal zero k x n v power step size h lt weight small positive = elim lt [ ]
size_loop-octal (suc fuel) zero x n v power step size h lt weight small positive =
    rw (h.0, h.1) (ap some (omega arith))
size_loop-octal (suc fuel) (suc k) x n v power step size (w, rest, lt8, whole) lt weight small
      positive =
    elim (Bool-cases (n == 0)) [
      | inl zero? ↦
          let none? : v ≡ 0 = InOctal-none (suc k) n v (w, rest, lt8, whole) (ground arith) in
          rw (zero?, none?) (ap some (omega arith))
      | inr other ↦
          let (step_small, n_small) = le-product step n positive (ground arith) in
          let added : u64 (size + u64 (size_digit n * step)) ≡ size + step * (n % 10) =
            rw (size_digit-small n (omega arith)) (omega (arith, weigh size step n)) in
          rw (other, weight, added)
            (size_loop-octal fuel k (x + 2) (n / 10) w step (step * 8) (size + step * (n % 10)) rest
                (omega arith) (ground arith) (omega (arith, weigh size step n)) (omega arith)
              ∙ ap some (weigh_octal size step n w ∙ ap (λ u. size + step * u) (sym whole)))
    ]

-- For a field of at most 20 octal digits, whose decimal reading fits an `int` that is not negative,
-- the loop ends and gives the octal number.
pub octal_size-from_octal :
    (ds : List ℕ)
    → AllOctal ds
    → length ds ≤ 20
    → from_digits 0 ds < 2 ^ 31
    → octal_size (from_digits 0 ds) ≡ some (from_octal 0 ds)
unfolding octal_size
octal_size-from_octal ds all few small =
    size_loop-octal 21 (length ds) 0 (from_digits 0 ds) (from_octal 0 ds) 1 1 0
      (subst (λ j. InOctal j (from_digits 0 ds) (from_octal 0 ds)) (omega arith)
        (InOctal-from_digits 0 ds 0 0 (InOctal-zero 0) all))
      (omega arith) refl (omega arith) (omega arith)
    ∙ ap some (omega arith)

-- From an offset that is a multiple of 512, the next header stands at the first multiple of 512
-- behind this header and the contents of its file.
pub next_header-first :
    (offset size : ℕ)
    → offset % 512 ≡ 0
    → (next_header offset size % 512 ≡ 0)
      × (offset + 512 + size ≤ next_header offset size)
      × (next_header offset size < offset + 512 + size + 512)
unfolding next_header
next_header-first offset size aligned = (ground arith, ground arith, ground arith)
