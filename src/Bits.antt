-- ===== src/Bits.antt =====
-- Binary digits of machine words: what `&`, `|`, `~` and `1 << j` do to each digit, and the masks
-- of the page tables as arithmetic.
use Prim.Native.Nat.{digits, bitwise, bit_and-bitwise, bit_or-bitwise}
use native.Mathlib.Nat.{le_refl, pow-suc, one-le-pow, pow-le-pow_right}
use sbu_operating_system.Prelude.{
  ℕ, zero, suc, ◌+◌, ◌-◌, ◌*◌, ◌/◌, ◌%◌, ◌^◌, ◌≤◌, ◌<◌, min, max, bit_and, bit_or, ◌≡◌, refl, ap,
  sym, ◌∙◌, arith, ◌==◌, if◌then◌else◌,
}

-- The digit of weight `2 ^ k`.
abbrev pub bit : ℕ → ℕ → ℕ
bit zero x = x % 2
bit (suc k) x = bit k (x / 2)

pub bit-le-one : (k x : ℕ) → bit k x ≤ 1
bit-le-one zero x = omega arith
bit-le-one (suc k) x = bit-le-one k (x / 2)

-- The native operations recur on a count of digits. One more than are needed changes nothing, so
-- an operation obeys one equation.
module _ (rest : ℕ → ℕ) (op : ℕ → ℕ → ℕ) where
  one_more : (n x y : ℕ) → x ≤ n → digits rest op (suc n) x y ≡ digits rest op n x y
  one_more zero zero y h = refl
  one_more zero (suc x) y h = elim h [ ]
  one_more (suc n) zero y h = refl
  one_more (suc n) (suc x) y h = rw (one_more n (suc x / 2) (y / 2) (omega arith))

  more : (k n x y : ℕ) → x ≤ n → digits rest op (k + n) x y ≡ digits rest op n x y
  more zero n x y h = let e : 0 + n ≡ n = omega arith in rw e
  more (suc k) n x y h =
      let e : suc k + n ≡ suc (k + n) = omega arith in
      rw e (one_more (k + n) x y (omega arith) ∙ more k n x y h)

  halved_digits :
      (x y : ℕ)
      → op (suc x % 2) (y % 2) + 2 * bitwise rest op (suc x / 2) (y / 2) ≡ bitwise rest op (suc x) y
  halved_digits x y =
      let half = suc x / 2 in
      let e : x - half + half ≡ x = omega arith in
      omega (
        arith,
        ap (λ n. digits rest op n half (y / 2)) e,
        more (x - half) half half (y / 2) (le_refl half),
      )

pub halve-bit_and : (x y : ℕ) → bit_and x y ≡ min (x % 2) (y % 2) + 2 * bit_and (x / 2) (y / 2)
halve-bit_and zero y = simp bit_and-bitwise (omega arith)
halve-bit_and (suc x) y = simp bit_and-bitwise (sym (halved_digits (λ d. 0) min x y))

pub halve-bit_or : (x y : ℕ) → bit_or x y ≡ max (x % 2) (y % 2) + 2 * bit_or (x / 2) (y / 2)
halve-bit_or zero y = simp bit_or-bitwise (omega arith)
halve-bit_or (suc x) y = simp bit_or-bitwise (sym (halved_digits (λ d. d) max x y))

pub bit-bit_and : (k a b : ℕ) → bit k (bit_and a b) ≡ min (bit k a) (bit k b)
bit-bit_and zero a b = omega (arith, halve-bit_and a b)
bit-bit_and (suc k) a b = rw (halved a b) (bit-bit_and k (a / 2) (b / 2))
  where
    halved : (a b : ℕ) → bit_and a b / 2 ≡ bit_and (a / 2) (b / 2)
    halved a b = omega (arith, halve-bit_and a b)

pub bit-bit_or : (k a b : ℕ) → bit k (bit_or a b) ≡ max (bit k a) (bit k b)
bit-bit_or zero a b = omega (arith, halve-bit_or a b)
bit-bit_or (suc k) a b = rw (halved a b) (bit-bit_or k (a / 2) (b / 2))
  where
    halved : (a b : ℕ) → bit_or a b / 2 ≡ bit_or (a / 2) (b / 2)
    halved a b = omega (arith, halve-bit_or a b)

two_pow_half : (j : ℕ) → 2 ^ suc j / 2 ≡ 2 ^ j
two_pow_half j = omega (arith, pow-suc 2 j)

bit-zero : (k : ℕ) → bit k 0 ≡ 0
bit-zero zero = refl
bit-zero (suc k) = bit-zero k

-- Laws that go from `a / 2` to `a` are proved below every bound.
bit_and-zero_below : (n a : ℕ) → a ≤ n → bit_and a 0 ≡ 0
bit_and-zero_below n zero h = bit_and-bitwise 0 0
bit_and-zero_below zero (suc a) h = elim h [ ]
bit_and-zero_below (suc n) (suc a) h =
    omega (arith, halve-bit_and (suc a) 0, bit_and-zero_below n (suc a / 2) (omega arith))

pub bit_and-zero : (a : ℕ) → bit_and a 0 ≡ 0
bit_and-zero a = bit_and-zero_below a a (le_refl a)

bit_or-zero_below : (n a : ℕ) → a ≤ n → bit_or a 0 ≡ a
bit_or-zero_below n zero h = bit_or-bitwise 0 0
bit_or-zero_below zero (suc a) h = elim h [ ]
bit_or-zero_below (suc n) (suc a) h =
    omega (arith, halve-bit_or (suc a) 0, bit_or-zero_below n (suc a / 2) (omega arith))

pub bit_or-zero : (a : ℕ) → bit_or a 0 ≡ a
bit_or-zero a = bit_or-zero_below a a (le_refl a)

mul-two_pow : (q k : ℕ) → q * 2 ^ suc k ≡ q * 2 ^ k * 2
mul-two_pow q k = omega (arith, ap (λ (t : ℕ). q * t) (pow-suc 2 k))

low_ones : (k q r : ℕ) → r < 2 ^ k → bit_and (q * 2 ^ k + r) (2 ^ k - 1) ≡ r
low_ones zero q r h = rw bit_and-zero (omega arith)
low_ones (suc k) q r h = ground (
  arith,
  halve-bit_and (q * 2 ^ suc k + r) (2 ^ suc k - 1),
  mul-two_pow q k,
  pow-suc 2 k,
  one-le-pow k 2,
  low_ones k q (r / 2) (omega (arith, pow-suc 2 k)),
)

-- `1 << j` has the digit `j` alone.
pub bit-two_pow : (k j : ℕ) → bit k (2 ^ j) ≡ (if k == j then 1 else 0)
bit-two_pow zero zero = refl
bit-two_pow zero (suc j) = grind (arith, pow-suc 2 j)
bit-two_pow (suc k) zero = ground (arith, bit-zero k)
bit-two_pow (suc k) (suc j) = rw (two_pow_half j) (ground (arith, bit-two_pow k j))

-- Testing a word against `1 << j` reads the digit `j`.
pub bit_and-two_pow : (j a : ℕ) → bit_and a (2 ^ j) ≡ bit j a * 2 ^ j
bit_and-two_pow zero a = omega (arith, halve-bit_and a 1, bit_and-zero (a / 2))
bit_and-two_pow (suc j) a = omega (
  arith,
  halve-bit_and a (2 ^ suc j),
  pow-suc 2 j,
  two_pow_half j,
  ap (λ (t : ℕ). bit_and (a / 2) t) (two_pow_half j),
  bit_and-two_pow j (a / 2),
  ap (λ (t : ℕ). bit j (a / 2) * t) (pow-suc 2 j),
)

-- `~x` in `w` digits turns each of them round.
pub bit-complement : (w k x : ℕ) → k < w → x < 2 ^ w → bit k (2 ^ w - 1 - x) ≡ 1 - bit k x
bit-complement zero k x h hx = elim h [ ]
bit-complement (suc w) zero x h hx = omega (arith, pow-suc 2 w)
bit-complement (suc w) (suc k) x h hx =
    let half : (2 ^ suc w - 1 - x) / 2 ≡ 2 ^ w - 1 - x / 2 = omega (arith, pow-suc 2 w) in
    rw half (bit-complement w k (x / 2) (omega arith) (omega (arith, pow-suc 2 w)))

-- `(q << k) | r` is a sum when `r` has at most `k` digits.
pub bit_or-shift : (k q r : ℕ) → r < 2 ^ k → bit_or (q * 2 ^ k) r ≡ q * 2 ^ k + r
bit_or-shift zero q r h = ground (arith, bit_or-zero q)
bit_or-shift (suc k) q r h = ground (
  arith,
  halve-bit_or (q * 2 ^ suc k) r,
  mul-two_pow q k,
  bit_or-shift k q (r / 2) (omega (arith, pow-suc 2 k)),
)

-- A mask whose `k` low digits are off drops those of the word.
pub bit_and-shift :
    (k q m r : ℕ) → r < 2 ^ k → bit_and (q * 2 ^ k + r) (m * 2 ^ k) ≡ bit_and q m * 2 ^ k
bit_and-shift zero q m r h = ground arith
bit_and-shift (suc k) q m r h = ground (
  arith,
  halve-bit_and (q * 2 ^ suc k + r) (m * 2 ^ suc k),
  mul-two_pow q k,
  mul-two_pow m k,
  mul-two_pow (bit_and q m) k,
  bit_and-shift k q m (r / 2) (omega (arith, pow-suc 2 k)),
)

-- A mask of `k` low ones keeps the `k` low digits.
pub bit_and-low_ones : (k a : ℕ) → bit_and a (2 ^ k - 1) ≡ a % 2 ^ k
bit_and-low_ones k a = ground (arith, low_ones k (a / 2 ^ k) (a % 2 ^ k), one-le-pow k 2)

pub two_pow-lt : (k w : ℕ) → k < w → 2 ^ k < 2 ^ w
two_pow-lt k w h =
    omega (arith, pow-suc 2 k, one-le-pow k 2, pow-le-pow_right {n = 2} (omega arith) h)

pub bit_or-one : (a : ℕ) → bit_or a 1 ≡ a / 2 * 2 + 1
bit_or-one a = omega (arith, halve-bit_or a 1, bit_or-zero (a / 2))

pub bit_or-two : (a : ℕ) → bit_or a 2 ≡ a / 4 * 4 + 2 + a % 2
bit_or-two a = omega (arith, halve-bit_or a 2, bit_or-one (a / 2))

pub bit_or-four : (a : ℕ) → bit_or a 4 ≡ a / 8 * 8 + 4 + a % 4
bit_or-four a = omega (arith, halve-bit_or a 4, bit_or-two (a / 2))

bit_or_comm_below : (n a b : ℕ) → a ≤ n → bit_or a b ≡ bit_or b a
bit_or_comm_below n zero b h = omega (arith, bit_or-bitwise 0 b, bit_or-zero b)
bit_or_comm_below zero (suc a) b h = elim h [ ]
bit_or_comm_below (suc n) (suc a) b h = omega (
  arith,
  halve-bit_or (suc a) b,
  halve-bit_or b (suc a),
  bit_or_comm_below n (suc a / 2) (b / 2) (omega arith),
)

pub bit_or_comm : (a b : ℕ) → bit_or a b ≡ bit_or b a
bit_or_comm a b = bit_or_comm_below a a b (le_refl a)
