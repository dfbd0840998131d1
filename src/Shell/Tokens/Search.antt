-- ===== src/Shell/Tokens/Search.antt =====
-- `linearsearch` finds what the string has.
use sbu_operating_system.Prelude.{
  ℕ, zero, suc, ◌+◌, ◌<◌, ◌≡◌, arith, Bool, false, ◌||◌, some, List, [], ◌∷◌, length, ◌==◌,
  if◌then◌else◌, pos, minus_one,
}
use sbu_operating_system.CString.{Memory}
use sbu_operating_system.CString.Layout.{Holds}
use sbu_operating_system.Shell.Tokens.{linearsearch}

abbrev pub has : ℕ → List ℕ → Bool
has c [] = false
has c (d ∷ ds) = (d == c) || has c ds

pub linearsearch-has :
    (fuel : ℕ) (m : Memory) (p c : ℕ) (cs : List ℕ)
    → Holds m p cs
    → length cs < fuel
    → linearsearch fuel m p c ≡ some (if has c cs then pos 1 else minus_one)
unfolding linearsearch
linearsearch-has zero m p c cs h lt = elim lt [ ]
linearsearch-has (suc fuel) m p c [] h lt = ground arith
linearsearch-has (suc fuel) m p c (d ∷ cs) h lt =
    ground (arith, linearsearch-has fuel m (p + 1) c cs h.2 (omega arith))
