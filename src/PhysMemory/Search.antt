-- ===== src/PhysMemory/Search.antt =====
-- `findFreePage` is a linear search over 256 words of 64 digits.
use sbu_operating_system.Prelude.{
  ℕ, zero, suc, ◌+◌, ◌-◌, ◌*◌, ◌/◌, ◌%◌, ◌^◌, ◌≤◌, ◌<◌, ◌≡◌, ◌∙◌, arith, ◌==◌, Option, none, some,
  inl, inr, bit_and, refl, Bool-cases, ap, true, false,
}
use native.Mathlib.Nat.{one-le-pow}
use sbu_operating_system.Bits.{bit, bit-le-one, bit_and-two_pow}
use sbu_operating_system.PhysMemory.{PhysMemory, find_bit, find_word, find_free_page}
use sbu_operating_system.PhysMemory.Bitmap.{busy}

abbrev pub BusyBetween : (ℕ → ℕ) → ℕ → ℕ → Type 0
BusyBetween marks start end = (q : ℕ) → start ≤ q → q < end → marks q ≡ 1

-- The outcome of a search through the marks from `start` up to `end`: the first free page.
abbrev pub IsFirstFree : (ℕ → ℕ) → ℕ → ℕ → Option ℕ → Type 0
IsFirstFree marks start end none = BusyBetween marks start end
IsFirstFree marks start end (some p) =
    (start ≤ p) × (p < end) × (marks p ≡ 0) × BusyBetween marks start p

BusyBetween-append :
    (marks : ℕ → ℕ) (a b c : ℕ)
    → BusyBetween marks a b
    → BusyBetween marks b c
    → BusyBetween marks a c
BusyBetween-append marks a b c left right q lo hi = ground (arith, left q, right q)

IsFirstFree-append :
    (marks : ℕ → ℕ) (a b c : ℕ) (r : Option ℕ)
    → a ≤ b
    → BusyBetween marks a b
    → IsFirstFree marks b c r
    → IsFirstFree marks a c r
IsFirstFree-append marks a b c none le left right = BusyBetween-append marks a b c left right
IsFirstFree-append marks a b c (some p) le left (lo, hi, free, right) =
    (omega arith, hi, free, BusyBetween-append marks a b p left right)

-- The test of the inner loop reads a digit.
test_busy : (j word : ℕ) → (bit_and word (2 ^ j) == 0) ≡ false → bit j word ≡ 1
test_busy j word h = ground (arith, bit_and-two_pow j word, one-le-pow j 2, bit-le-one j word)

test_free : (j word : ℕ) → (bit_and word (2 ^ j) == 0) ≡ true → bit j word ≡ 0
test_free j word h = grind (arith, bit_and-two_pow j word, one-le-pow j 2, bit-le-one j word)

find_bit-IsFirstFree :
    (rounds j word end : ℕ)
    → j + rounds ≡ end
    → IsFirstFree (λ q. bit q word) j end (find_bit rounds j word)
unfolding find_bit
find_bit-IsFirstFree zero j word end e = λ q lo hi. absurd (omega arith)
find_bit-IsFirstFree (suc rounds) j word end e = elim (Bool-cases (bit_and word (2 ^ j) == 0)) [
  | inl hit ↦
      rw hit ((omega arith, omega arith, test_free j word hit, λ q lo hi. absurd (omega arith)))
  | inr miss ↦ rw miss (
      IsFirstFree-append (λ q. bit q word) j (j + 1) end (find_bit rounds (j + 1) word)
        (omega arith) (λ q lo hi. here miss q (omega arith))
        (find_bit-IsFirstFree rounds (j + 1) word end (omega arith)))
]
  where
    here : (bit_and word (2 ^ j) == 0) ≡ false → (q : ℕ) → q ≡ j → bit q word ≡ 1
    here miss q same = ap (λ k. bit k word) same ∙ test_busy j word miss

-- A word holds the marks of 64 pages.
busy_in_word : (s : PhysMemory) (i j : ℕ) → j < 64 → busy s (i * 64 + j) ≡ bit j (s.free_list i)
busy_in_word s i j h =
    let word : (i * 64 + j) / 64 ≡ i = omega arith in
    let digit : (i * 64 + j) % 64 ≡ j = omega arith in rw (word, digit)

BusyBetween-word :
    (s : PhysMemory) (i j : ℕ)
    → j ≤ 64
    → BusyBetween (λ q. bit q (s.free_list i)) 0 j
    → BusyBetween (busy s) (i * 64) (i * 64 + j)
BusyBetween-word s i j le all q lo hi =
    let place : q ≡ i * 64 + (q - i * 64) = omega arith in
    ap (busy s) place
    ∙ busy_in_word s i (q - i * 64) (omega arith)
    ∙ all (q - i * 64) (omega arith) (omega arith)

find_word-IsFirstFree :
    (rounds i end : ℕ) (s : PhysMemory)
    → i + rounds ≡ end
    → IsFirstFree (busy s) (i * 64) (end * 64) (find_word rounds i s)
unfolding find_word
find_word-IsFirstFree zero i end s e = λ q lo hi. absurd (omega arith)
find_word-IsFirstFree (suc rounds) i end s e =
    go (find_bit 64 0 (s.free_list i)) (find_bit-IsFirstFree 64 0 (s.free_list i) 64 (omega arith))
      (find_word-IsFirstFree rounds (i + 1) end s (omega arith))
  where
    go :
        (r : Option ℕ)
        → IsFirstFree (λ q. bit q (s.free_list i)) 0 64 r
        → IsFirstFree (busy s) ((i + 1) * 64) (end * 64) (find_word rounds (i + 1) s)
        → IsFirstFree
            (busy s)
            (i * 64)
            (end * 64)
            (elim r [ some j ↦ some (i * 64 + j) | none ↦ find_word rounds (i + 1) s ])
    go none all rest =
        IsFirstFree-append (busy s) (i * 64) ((i + 1) * 64) (end * 64) (find_word rounds (i + 1) s)
          (omega arith) (λ q lo hi. BusyBetween-word s i 64 (omega arith) all q lo (omega arith))
          rest
    go (some j) (lo, hi, free, below) rest = (
      omega arith,
      omega arith,
      busy_in_word s i j hi ∙ free,
      BusyBetween-word s i j (omega arith) below,
    )

-- `findFreePage` returns the lowest free page among the 16384 pages that its loops visit, and -1
-- exactly when all of them are busy.
pub find_free_page_lem : (s : PhysMemory) → IsFirstFree (busy s) 0 16384 (find_free_page s)
unfolding find_free_page
find_free_page_lem s = find_word-IsFirstFree 256 0 256 s refl
