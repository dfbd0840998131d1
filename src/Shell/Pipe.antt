-- ===== src/Shell/Pipe.antt =====
-- `parse_pipe`: the words in front of the pipe and behind it, cut out in place. On fuel.
pub mod Halves
use sbu_operating_system.Prelude.{
  ℕ, zero, suc, ◌+◌, Bool, true, false, ◌||◌, Option, none, some, List, [], ◌∷◌, ◌==◌,
  if◌then◌else◌, update, ◌>>=◌,
}
use sbu_operating_system.CString.{Memory}
use sbu_operating_system.CString.Strtok.{skip_word}

-- Spaces are overwritten up to the next other character.
pub skip_spaces : ℕ → Memory → ℕ → Option (Memory × ℕ)
skip_spaces zero m input = none
skip_spaces (suc fuel) m input =
    let rest = skip_spaces fuel (update m input 0) (input + 1) in
    if m input == b' ' then rest else some (m, input)

-- The end of a word in front of `|`, which does not stop at a zero byte.
pub word_end : ℕ → Memory → ℕ → Option ℕ
word_end zero m input = none
word_end (suc fuel) m input =
    let rest = word_end fuel m (input + 1) in
    if (m input == b' ') || (m input == b'|') then some input else rest

pub drop_space : Memory → ℕ → Memory × ℕ
drop_space m input = if m input == b' ' then (update m input 0, input + 1) else (m, input)

-- The first loop: the words, and where the second half starts.
pub first_half : ℕ → Memory → ℕ → Option (Memory × ℕ × List ℕ)
unfolding skip_spaces word_end drop_space
first_half zero m input = none
first_half (suc fuel) m input = elim (m input == b'|') [
  | true ↦ some (m, input, [])
  | false ↦ elim (skip_spaces fuel m input) [
    | none ↦ none
    | some (m1, start) ↦ elim (word_end fuel m1 start) [
      | none ↦ none
      | some end ↦
          let (m2, next) = drop_space m1 end in
          elim (m2 next == b'|') [
            | true ↦ some (update m2 next 0, next + 1, start ∷ [])
            | false ↦ elim (first_half fuel m2 next) [
              | none ↦ none
              | some (m3, rest, words) ↦ some (m3, rest, start ∷ words)
            ]
          ]
    ]
  ]
]

-- The second loop.
pub second_half : ℕ → Memory → ℕ → Option (Memory × List ℕ)
unfolding skip_spaces
second_half zero m input = none
second_half (suc fuel) m input = elim (m input == 0) [
  | true ↦ some (m, [])
  | false ↦ elim (skip_spaces fuel m input) [
    | none ↦ none
    | some (m1, start) ↦ elim (skip_word fuel m1 start b' ') [
      | none ↦ none
      | some end ↦ elim (second_half fuel m1 end) [
        | none ↦ none
        | some (m2, words) ↦ some (m2, start ∷ words)
      ]
    ]
  ]
]

-- The addresses of the words in front of the pipe and behind it. Neither array is ended by a null
-- pointer.
pub parse_pipe : ℕ → Memory → ℕ → Option (Memory × List ℕ × List ℕ)
unfolding first_half second_half
parse_pipe fuel m input = elim (first_half fuel m input) [
  | none ↦ none
  | some (m1, rest, token) ↦ elim (second_half fuel m1 rest) [
    | none ↦ none
    | some (m2, token2) ↦ some (m2, token, token2)
  ]
]
