-- ===== src/CString/Read.antt =====
-- The bytes of a string, read out of memory.
use sbu_operating_system.Prelude.{
  ℕ, zero, suc, ◌+◌, ◌<◌, ◌≡◌, refl, arith, ◌≢◌, ◌↔◌, Bool, true, false, Bool-cases, inl, inr, pos,
  Option, none, some, List, [], ◌∷◌, length, ◌==◌, if◌then◌else◌, ◌>>=◌,
}
use sbu_operating_system.CString.{Memory, strcmp}
use sbu_operating_system.CString.Compare.{strcmp-eq}
use sbu_operating_system.CString.Layout.{Holds}

pub read_string : ℕ → Memory → ℕ → Option (List ℕ)
read_string zero m p = none
read_string (suc fuel) m p =
    let rest = read_string fuel m (p + 1) in
    if m p == 0 then some [] else (rest >>= λ s. some (m p ∷ s))

pub read_string-Holds :
    (fuel : ℕ) (m : Memory) (p : ℕ) (s : List ℕ)
    → Holds m p s
    → length s < fuel
    → read_string fuel m p ≡ some s
unfolding read_string
read_string-Holds zero m p s h lt = elim lt [ ]
read_string-Holds (suc fuel) m p [] h lt = ground arith
read_string-Holds (suc fuel) m p (c ∷ s) h lt =
    let rest = read_string-Holds fuel m (p + 1) s h.2 (omega arith) in
    let shown : (m p == 0) ≡ false = ground arith in rw (shown, rest, h.0) refl

-- `strcmp(s, t) == 0`, for strings that are only read.
pub same_string : List ℕ → List ℕ → Bool
same_string [] [] = true
same_string [] (d ∷ t) = false
same_string (c ∷ s) [] = false
same_string (c ∷ s) (d ∷ t) = let rest = same_string s t in if c == d then rest else false

pub same_string_iff : (s t : List ℕ) → (same_string s t ≡ true) ↔ (s ≡ t)
unfolding same_string
same_string_iff [] [] = (λ e. refl, λ e. refl)
same_string_iff [] (d ∷ t) = (λ e. absurd (cc e), λ e. absurd (cc e))
same_string_iff (c ∷ s) [] = (λ e. absurd (cc e), λ e. absurd (cc e))
same_string_iff (c ∷ s) (d ∷ t) =
    let rest = same_string_iff s t in (λ e. ground (arith, rest), λ e. ground (arith, rest))

-- `strcmp` finds the strings in memory equal exactly when they are the same.
pub strcmp-same_string :
    (fuel : ℕ) (m : Memory) (p q : ℕ) (s t : List ℕ)
    → Holds m p s
    → Holds m q t
    → length s < fuel
    → (strcmp fuel m p q ≡ some (pos 0)) ↔ (same_string s t ≡ true)
strcmp-same_string fuel m p q s t h k lt =
    let (equal, differ) = strcmp-eq fuel m p q s t h k lt in
    (
      λ e. elim (Bool-cases (same_string s t)) [
        | inl same ↦ same
        | inr other ↦
            let apart : s ≢ t = λ eq. cc (other, (same_string_iff s t).1 eq) in
            absurd (cc (e, differ apart))
      ],
      λ same. equal ((same_string_iff s t).0 same),
    )

pub same_string-ne : (s t : List ℕ) → s ≢ t → same_string s t ≡ false
same_string-ne s t ne = elim (Bool-cases (same_string s t)) [
  | inl same ↦ absurd (ne ((same_string_iff s t).0 same))
  | inr other ↦ other
]

-- The strings at some addresses.
unfoldable pub read_strings : ℕ → Memory → List ℕ → Option (List (List ℕ))
read_strings fuel m [] = some []
read_strings fuel m (t ∷ ts) = do
  s ← read_string fuel m t
  ss ← read_strings fuel m ts
  some (s ∷ ss)
