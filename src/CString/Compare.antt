-- ===== src/CString/Compare.antt =====
-- `strcmp` and `strncmp` against equality and prefixes of strings.
use sbu_operating_system.Prelude.{
  ℕ, zero, suc, ◌+◌, ◌<◌, ◌≡◌, ◌≢◌, ◌↔◌, refl, arith, ◌==◌, List, [], ◌∷◌, ◌++◌, length, some, pos,
  minus_one, ap₂, Bool-cases, inl, inr,
}
use sbu_operating_system.CString.{Memory, strcmp, strncmp}
use sbu_operating_system.CString.Layout.{Holds}

-- With fuel above the length of the first string, `strcmp` ends, and returns 0 for equal strings
-- and -1 for different ones.
pub strcmp-eq :
    (fuel : ℕ) (m : Memory) (p q : ℕ) (s t : List ℕ)
    → Holds m p s
    → Holds m q t
    → length s < fuel
    → (s ≡ t → strcmp fuel m p q ≡ some (pos 0)) × (s ≢ t → strcmp fuel m p q ≡ some minus_one)
unfolding strcmp
strcmp-eq zero m p q s t h k lt = elim lt [ ]
strcmp-eq (suc fuel) m p q [] [] h k lt = (λ e. ground arith, λ ne. absurd (ne refl))
strcmp-eq (suc fuel) m p q [] (d ∷ t) h k lt = (λ e. cc, λ ne. ground arith)
strcmp-eq (suc fuel) m p q (c ∷ s) [] h k lt = (λ e. cc, λ ne. ground arith)
strcmp-eq (suc fuel) m p q (c ∷ s) (d ∷ t) h k lt =
    let rest = strcmp-eq fuel m (p + 1) (q + 1) s t h.2 k.2 (omega arith) in
    (
      λ e. ground (arith, rest),
      λ ne. elim (Bool-cases (c == d)) [
        | inl same ↦
            let heads : c ≡ d = ground arith in
            let tails : s ≢ t = λ e. ne (ap₂ ◌∷◌ heads e) in ground (arith, rest.1 tails)
        | inr differ ↦ ground arith
      ],
    )

-- `t` stands at the front of `s`.
abbrev pub IsPrefix : List ℕ → List ℕ → Type 0
IsPrefix t s = (r : List ℕ) × (s ≡ t ++ r)

-- Comparing as many bytes as the second string has returns 0 exactly when that string is a prefix
-- of the first.
pub strncmp_prefix_iff :
    (m : Memory) (p q : ℕ) (s t : List ℕ)
    → Holds m p s
    → Holds m q t
    → (strncmp m p q (length t) ≡ pos 0) ↔ IsPrefix t s
unfolding strncmp
strncmp_prefix_iff m p q s [] h k = (λ e. (s, refl), λ e. refl)
strncmp_prefix_iff m p q [] (d ∷ t) h k = (λ e. absurd (ground arith), λ e. cc e.1)
strncmp_prefix_iff m p q (c ∷ s) (d ∷ t) h k =
    let rest = strncmp_prefix_iff m (p + 1) (q + 1) s t h.2 k.2 in
    elim (Bool-cases (c == d)) [
      | inl same ↦
          let heads : c ≡ d = ground arith in
          (
            λ e. let (r, eq) = rest.0 (ground arith) in (r, ap₂ ◌∷◌ heads eq),
            λ e. let back = rest.1 (e.0, cc e.1) in ground arith,
          )
      | inr differ ↦ (λ e. absurd (ground arith), λ e. absurd (ground (arith, e.1)))
    ]
