-- ===== src/Shell/Tokens.antt =====
-- Cutting a line up in place: `tokenize_input`, and `linearsearch`. A loop whose end depends on what
-- memory holds runs on fuel; `none` means that it went on longer than that.
pub mod Pieces
pub mod Cut
pub mod Search
pub mod Kernel
pub mod Words
use sbu_operating_system.Prelude.{
  ℕ, zero, suc, ◌+◌, Bool, true, false, ◌||◌, Option, none, some, List, [], ◌∷◌, ◌==◌,
  if◌then◌else◌, update, ◌>>=◌, ℤ, pos, minus_one,
}
use sbu_operating_system.CString.{Memory}
use sbu_operating_system.CString.Strtok.{skip_word}

-- The memory with each separator after a token overwritten, and the addresses of the tokens. The
-- number of tokens that the code returns is their number.
pub tokenize_input : ℕ → Memory → ℕ → ℕ → Option (Memory × List ℕ)
tokenize_input zero m input separator = none
tokenize_input (suc fuel) m input separator = elim (m input == 0) [
  | true ↦ some (m, [])
  | false ↦ elim (skip_word (suc fuel) m input separator) [
    | none ↦ none
    | some end ↦ elim (m end == 0) [
      | true ↦ some (m, input ∷ [])
      | false ↦ elim (tokenize_input fuel (update m end 0) (end + 1) separator) [
        | none ↦ none
        | some (m', tokens) ↦ some (m', input ∷ tokens)
      ]
    ]
  ]
]

-- 1 if the string has the character, and -1 if not.
pub linearsearch : ℕ → Memory → ℕ → ℕ → Option ℤ
linearsearch zero m str c = none
linearsearch (suc fuel) m str c =
    let rest = linearsearch fuel m (str + 1) c in
    if m str == 0 then some minus_one else if m str == c then some (pos 1) else rest
