-- ===== src/CString/Layout.antt =====
-- Which string memory holds at an address, and `strlen`.
use sbu_operating_system.Prelude.{
  ℕ, zero, suc, ◌+◌, ◌≤◌, ◌<◌, ◌≡◌, ◌≢◌, ◌∙◌, refl, arith, List, [], ◌∷◌, length, some,
}
use sbu_operating_system.CString.{Memory, strlen_loop, strlen}

-- The bytes `s`, none of them zero, stand from `p` on and a zero byte follows.
abbrev pub Holds : Memory → ℕ → List ℕ → Type 0
Holds m p [] = m p ≡ 0
Holds m p (c ∷ s) = (m p ≡ c) × (c ≢ 0) × Holds m (p + 1) s

-- A string is the only one at its address.
pub Holds-unique : (m : Memory) (p : ℕ) (s t : List ℕ) → Holds m p s → Holds m p t → s ≡ t
Holds-unique m p [] [] h k = refl
Holds-unique m p [] (d ∷ t) h k = ground arith
Holds-unique m p (c ∷ s) [] h k = ground arith
Holds-unique m p (c ∷ s) (d ∷ t) h k = ground (arith, Holds-unique m (p + 1) s t h.2 k.2)

-- A change outside the string and its zero byte leaves it in place.
pub Holds-frame :
    (m m' : Memory) (p : ℕ) (s : List ℕ)
    → ((a : ℕ) → p ≤ a → a ≤ p + length s → m' a ≡ m a)
    → Holds m p s
    → Holds m' p s
Holds-frame m m' p [] same h = same p (omega arith) (omega arith) ∙ h
Holds-frame m m' p (c ∷ s) same h = (
  same p (omega arith) (omega arith) ∙ h.0,
  h.1,
  Holds-frame m m' (p + 1) s (λ a lo hi. same a (omega arith) (omega arith)) h.2,
)

strlen_loop-length :
    (fuel : ℕ) (m : Memory) (p len n : ℕ) (s : List ℕ)
    → Holds m p s
    → length s < fuel
    → len + length s ≡ n
    → strlen_loop fuel m p len ≡ some n
unfolding strlen_loop
strlen_loop-length zero m p len n s h lt e = elim lt [ ]
strlen_loop-length (suc fuel) m p len n [] h lt e = ground arith
strlen_loop-length (suc fuel) m p len n (c ∷ s) h lt e =
    ground (arith, strlen_loop-length fuel m (p + 1) (len + 1) n s h.2 (omega arith) (omega arith))

-- With fuel above the length, `strlen` ends and returns the length of the string.
pub strlen-length :
    (fuel : ℕ) (m : Memory) (p : ℕ) (s : List ℕ)
    → Holds m p s
    → length s < fuel
    → strlen fuel m p ≡ some (length s)
unfolding strlen
strlen-length fuel m p s h lt = strlen_loop-length fuel m p 0 (length s) s h lt (omega arith)
