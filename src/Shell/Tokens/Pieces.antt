-- ===== src/Shell/Tokens/Pieces.antt =====
-- The pieces of a string between separators, as `tokenize_input` counts them: an empty piece where
-- a separator stands at the front or behind another, but none behind the last separator.
use sbu_operating_system.Prelude.{
  ℕ, ◌≡◌, refl, arith, ap, Option, none, some, List, [], ◌∷◌, ◌==◌, if◌then◌else◌, Bool-cases, inl,
  inr, ◌+◌, length, suc,
}

-- A character in front of the first piece.
abbrev pub cons_first : ℕ → List (List ℕ) → List (List ℕ)
cons_first c [] = (c ∷ []) ∷ []
cons_first c (w ∷ ws) = (c ∷ w) ∷ ws

abbrev pub pieces : ℕ → List ℕ → List (List ℕ)
pieces sep [] = []
pieces sep (c ∷ cs) = if c == sep then [] ∷ pieces sep cs else cons_first c (pieces sep cs)

-- What stands before the first separator, and what stands behind it.
abbrev pub first_word : ℕ → List ℕ → List ℕ
first_word sep [] = []
first_word sep (c ∷ cs) = if c == sep then [] else c ∷ first_word sep cs

abbrev pub behind_word : ℕ → List ℕ → Option (List ℕ)
behind_word sep [] = none
behind_word sep (c ∷ cs) = if c == sep then some cs else behind_word sep cs

abbrev pub pieces_of : ℕ → Option (List ℕ) → List (List ℕ)
pieces_of sep none = []
pieces_of sep (some cs) = pieces sep cs

pub pieces-first_word :
    (sep c : ℕ) (cs : List ℕ)
    → pieces sep (c ∷ cs) ≡ first_word sep (c ∷ cs) ∷ pieces_of sep (behind_word sep (c ∷ cs))
pieces-first_word sep c [] = ground arith
pieces-first_word sep c (d ∷ cs) = elim (Bool-cases (c == sep)) [
  | inl same ↦ rw same refl
  | inr differ ↦ rw differ (ap (cons_first c) (pieces-first_word sep d cs))
]

-- Where the pieces of a line at `p` start.
abbrev pub places : ℕ → List (List ℕ) → List ℕ
places p [] = []
places p (w ∷ ws) = p ∷ places (p + suc (length w)) ws
