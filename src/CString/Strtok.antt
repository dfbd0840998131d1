-- ===== src/CString/Strtok.antt =====
-- `strtok` of sys/string.c, which cuts a string up in place.
use sbu_operating_system.Prelude.{
  ℕ, zero, suc, ◌+◌, true, false, ◌||◌, Option, none, some, List, [], ◌∷◌, ◌==◌, if◌then◌else◌,
  update,
}
use sbu_operating_system.CString.{Memory}

-- The loop over a word: the address of the separator or of the zero byte.
unfoldable pub skip_word : ℕ → Memory → ℕ → ℕ → Option ℕ
skip_word zero m input separator = none
skip_word (suc fuel) m input separator =
    let rest = skip_word fuel m (input + 1) separator in
    if (m input == separator) || (m input == 0) then some input else rest

-- The loops over spaces.
unfoldable pub skip_blanks : ℕ → Memory → ℕ → Option ℕ
skip_blanks zero m input = none
skip_blanks (suc fuel) m input =
    let rest = skip_blanks fuel m (input + 1) in if m input == b' ' then rest else some input

-- The memory with each separator behind a token overwritten, and the addresses of the tokens.
unfoldable pub strtok_loop : ℕ → Memory → ℕ → ℕ → Option (Memory × List ℕ)
unfolding skip_blanks
strtok_loop zero m input separator = none
strtok_loop (suc fuel) m input separator = elim (m input == 0) [
  | true ↦ some (m, [])
  | false ↦ elim (skip_blanks (suc fuel) m input) [
    | none ↦ none
    | some token ↦ elim (skip_word (suc fuel) m token separator) [
      | none ↦ none
      | some end ↦ elim (m end == 0) [
        | true ↦ some (m, token ∷ [])
        | false ↦ elim (strtok_loop fuel (update m end 0) (end + 1) separator) [
          | none ↦ none
          | some (m', tokens) ↦ some (m', token ∷ tokens)
        ]
      ]
    ]
  ]
]

unfoldable pub strtok : ℕ → Memory → ℕ → ℕ → Option (Memory × List ℕ)
unfolding skip_blanks strtok_loop
strtok fuel m input separator = elim (skip_blanks fuel m input) [
  | none ↦ none
  | some start ↦ strtok_loop fuel m start separator
]
