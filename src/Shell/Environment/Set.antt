-- ===== src/Shell/Environment/Set.antt =====
-- What a variable holds after it was set.
use sbu_operating_system.Prelude.{
  ℕ, ◌≤◌, ◌<◌, ◌≡◌, ◌⊎◌, ◌↔◌, inl, inr, refl, arith, ap, Bool-cases, true, false, ◌||◌, none, some,
  List, [], ◌∷◌, ◌++◌, length, length-append, ltb, codes,
}
use mathlib.Core.List.{append_assoc}
use sbu_operating_system.Shell.Environment.{strcmp1, matches, EnvVars, getenv, setenv}

-- `strcmp1` tells whether two strings are equal.
pub matches_iff : (s t : List ℕ) → (matches s t ≡ true) ↔ (s ≡ t)
unfolding matches strcmp1
matches_iff [] [] = (λ e. refl, λ e. refl)
matches_iff [] (d ∷ t) = (λ e. absurd (cc e), λ e. absurd (cc e))
matches_iff (c ∷ s) [] = (λ e. absurd (cc e), λ e. absurd (cc e))
matches_iff (c ∷ s) (d ∷ t) =
    let rest = matches_iff s t in (λ e. ground (arith, rest), λ e. ground (arith, rest))

abbrev pub IsPath : List ℕ → Type 0
IsPath name = (name ≡ codes "$path") ⊎ (name ≡ codes "$PATH")

path_name-matches :
    (name : List ℕ)
    → IsPath name
    → (matches name (codes "$path") || matches name (codes "$PATH")) ≡ true
path_name-matches name (inl e) = rw ((matches_iff name (codes "$path")).1 e) refl
path_name-matches name (inr e) = elim (Bool-cases (matches name (codes "$path"))) [
  | inl yes? ↦ rw yes? refl
  | inr no? ↦ rw (no?, (matches_iff name (codes "$PATH")).1 e) refl
]

-- Setting the path to a text that is not empty appends it behind a semicolon, and then the path is
-- read back so; when the whole does not fit 20 bytes, the write runs over the array.
pub setenv_path :
    (vars : EnvVars) (name : List ℕ) (c : ℕ) (t : List ℕ)
    → IsPath name
    → let path' = vars.path ++ (b';' ∷ c ∷ t) in
      (length path' < 20
        → (setenv vars name (c ∷ t) ≡ some (record vars { path = path' }))
          × (getenv (record vars { path = path' }) name ≡ some path'))
      × (20 ≤ length path' → setenv vars name (c ∷ t) ≡ none)
unfolding setenv getenv
setenv_path vars name c t h =
    let found = path_name-matches name h in
    let whole : (vars.path ++ (b';' ∷ [])) ++ (c ∷ t) ≡ vars.path ++ (b';' ∷ c ∷ t) =
      append_assoc vars.path (b';' ∷ []) (c ∷ t) in
    let front = length-append vars.path (b';' ∷ []) in
    let full = length-append vars.path (b';' ∷ c ∷ t) in
    (
      λ room.
          let first : ltb (length (vars.path ++ (b';' ∷ []))) 20 ≡ true =
            ground (arith, front, full) in
          let second : ltb (length ((vars.path ++ (b';' ∷ [])) ++ (c ∷ t))) 20 ≡ true =
            ground (arith, ap length whole) in
          (
            rw (found, first, second, setenv) (ap (λ p. some (record vars { path = p })) whole),
            rw (found, getenv) refl,
          ),
      λ full?.
          let second : ltb (length ((vars.path ++ (b';' ∷ [])) ++ (c ∷ t))) 20 ≡ false =
            ground (arith, ap length whole) in
          elim (Bool-cases (ltb (length (vars.path ++ (b';' ∷ []))) 20)) [
            | inl first ↦ rw (found, first, second, setenv) refl
            | inr first ↦ rw (found, first, setenv) refl
          ],
    )
