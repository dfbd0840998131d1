-- ===== src/Shell/Tokens/Words.antt =====
-- Reading the tokens of a string back.
use sbu_operating_system.Prelude.{
  ℕ, suc, ◌<◌, ◌≡◌, ◌≤◌, refl, arith, Bool-cases, inl, inr, some, List, [], ◌∷◌, length, ◌==◌,
}
use sbu_operating_system.CString.{Memory}
use sbu_operating_system.CString.Read.{read_strings, read_string-Holds}
use sbu_operating_system.Shell.Tokens.Pieces.{pieces, cons_first}
use sbu_operating_system.Shell.Tokens.Cut.{AllHold}

-- All strings are shorter than `n`.
abbrev pub AllShort : ℕ → List (List ℕ) → Type 0
AllShort n [] = Unit
AllShort n (w ∷ ws) = (length w < n) × AllShort n ws

pub read_strings-AllHold :
    (fuel : ℕ) (m : Memory) (ts : List ℕ) (ws : List (List ℕ))
    → AllHold m ts ws
    → AllShort fuel ws
    → read_strings fuel m ts ≡ some ws
unfolding read_strings
read_strings-AllHold fuel m [] [] h short = refl
read_strings-AllHold fuel m [] (w ∷ ws) h short = elim h [ ]
read_strings-AllHold fuel m (t ∷ ts) [] h short = elim h [ ]
read_strings-AllHold fuel m (t ∷ ts) (w ∷ ws) h short =
    rw (read_string-Holds fuel m t w h.0 short.0, read_strings-AllHold fuel m ts ws h.1 short.1)
      refl

pub AllShort-le : (n k : ℕ) (ws : List (List ℕ)) → n ≤ k → AllShort n ws → AllShort k ws
AllShort-le n k [] le h = tt
AllShort-le n k (w ∷ ws) le h = (omega (arith, h.0), AllShort-le n k ws le h.1)

cons_first-AllShort :
    (n c : ℕ) (ws : List (List ℕ)) → 0 < n → AllShort n ws → AllShort (suc n) (cons_first c ws)
cons_first-AllShort n c [] some? h = (omega arith, tt)
cons_first-AllShort n c (w ∷ ws) some? h =
    (omega (arith, h.0), AllShort-le n (suc n) ws (omega arith) h.1)

pub pieces-AllShort : (sep : ℕ) (cs : List ℕ) → AllShort (suc (length cs)) (pieces sep cs)
pieces-AllShort sep [] = tt
pieces-AllShort sep (c ∷ cs) = elim (Bool-cases (c == sep)) [
  | inl same ↦ rw same (
    omega arith,
    AllShort-le (suc (length cs)) (suc (suc (length cs))) (pieces sep cs) (omega arith)
        (pieces-AllShort sep cs),
  )
  | inr differ ↦ rw differ (
      cons_first-AllShort (suc (length cs)) c (pieces sep cs) (omega arith)
        (pieces-AllShort sep cs))
]
