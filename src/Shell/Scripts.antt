-- ===== src/Shell/Scripts.antt =====
-- Scripts of the shell: `execute_scripts` and `parse_scripts`, from the text that `read` has left in
-- the buffer. `none` is fuel that ran out, or undefined behaviour: a read through the null pointer, a
-- text, a list of lines or of words that overflows its array, or a command that is `none` itself.
pub mod Lines
use sbu_operating_system.Prelude.{
  ℕ, ◌+◌, Bool, true, false, Option, none, some, List, [], ◌∷◌, ◌++◌, length, ltb, ◌&&◌, ◌==◌,
  if◌then◌else◌, ◌>>=◌, codes,
}
use sbu_operating_system.CString.{Memory}
use sbu_operating_system.CString.Read.{read_string, read_strings}
use sbu_operating_system.Shell.Tokens.{tokenize_input}
use sbu_operating_system.Shell.Environment.{EnvVars, matches}
use sbu_operating_system.Shell.Commands.{Action, say, change_directory, execute_binaries}

-- The first line of a script.
abbrev pub header : List ℕ
header = codes "#!rootfs/bin/sbush"

-- The loop to the header. Behind the last token is the null pointer, which `strcmp1` reads.
pub find_header : ℕ → Memory → List ℕ → Option (List ℕ)
find_header fuel m [] = none
find_header fuel m (t ∷ ts) = do
  line ← read_string fuel m t
  if matches header line then some (t ∷ ts) else find_header fuel m ts

-- A line of the script, as words.
unfoldable pub run_words : EnvVars → List (List ℕ) → Option (EnvVars × List Action)
run_words vars [] = execute_binaries vars []
run_words vars (w ∷ []) =
    let command = execute_binaries vars (w ∷ []) in if matches w (codes "cd") then none else command
run_words vars (w ∷ d ∷ ws) =
    let command = execute_binaries vars (w ∷ d ∷ ws) in
    if matches w (codes "cd") then some (vars, change_directory d ∷ []) else command

-- `tokens_words` has room for 99 words and the null pointer.
pub run_lines : ℕ → Memory → EnvVars → List ℕ → Option (EnvVars × List Action)
unfolding run_words
run_lines fuel m vars [] = some (vars, [])
run_lines fuel m vars (t ∷ ts) = do
  cut ← tokenize_input fuel m t b' '
  words ← read_strings fuel cut.0 cut.1
  r ← if ltb (length words) 100 then run_words vars words else none
  rest ← run_lines fuel cut.0 r.0 ts
  some (rest.0, r.1 ++ rest.1)

-- The second test is on the line that the loop has stopped at.
pub execute_scripts : ℕ → Memory → EnvVars → List ℕ → Option (EnvVars × List Action)
unfolding find_header run_lines
execute_scripts fuel m vars tokens_lines = elim (find_header fuel m tokens_lines) [
  | none ↦ none
  | some [] ↦ none
  | some (t ∷ ts) ↦ (do
    line ← read_string fuel m t
    if matches header line
        then run_lines fuel m vars ts
        else some (vars, say (codes "Not a sbush script. Cannot execute") ∷ []))
]

-- `parse_scripts` from the text in the buffer on: it is printed and then executed.
-- The buffer has 1000 bytes, and `tokens_lines` has room for 99 lines and the null pointer.
pub parse_scripts : ℕ → Memory → EnvVars → ℕ → Option (EnvVars × List Action)
unfolding execute_scripts
parse_scripts fuel m vars buffer = do
  text ← read_string fuel m buffer
  cut ← tokenize_input fuel m buffer b'\n'
  r ←
      (if ltb (length text) 1000 && ltb (length cut.1) 100
        then execute_scripts fuel cut.0 vars cut.1
        else none)
  some (r.0, say text ∷ r.1)
