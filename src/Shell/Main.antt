-- ===== src/Shell/Main.antt =====
-- One round of the loop of `main`, for the line that `gets` left at `input`.
pub mod Loop
pub mod Typed
use sbu_operating_system.Prelude.{
  ℕ, zero, suc, ◌+◌, Bool, true, false, ◌&&◌, Option, none, some, List, [], ◌∷◌, ◌++◌, length, ltb,
  ◌==◌, if◌then◌else◌, ◌>>=◌, ℤ, pos, negsuc, drop, codes,
}
use sbu_operating_system.CString.{Memory, strlen, memset}
use sbu_operating_system.CString.Read.{read_strings}
use sbu_operating_system.Shell.Tokens.{tokenize_input, linearsearch}
use sbu_operating_system.Shell.Pipe.{parse_pipe}
use sbu_operating_system.Shell.Environment.{EnvVars, matches, stored}
use sbu_operating_system.Shell.Commands.{
  Action, say, change_directory, run_script, print_directory, pipe_up, run_background,
  execute_binaries,
}

-- `cd` with no argument goes to `./`.
abbrev directory_of : List (List ℕ) → List ℕ
directory_of [] = codes "./"
directory_of (t ∷ ts) = t

abbrev pub is_script : List ℕ → Bool
is_script (c ∷ d ∷ s) = (c == b'.') && (d == b'/')
is_script _ = false

abbrev all_but_last : List (List ℕ) → List (List ℕ)
all_but_last [] = []
all_but_last (t ∷ []) = []
all_but_last (t ∷ u ∷ ts) = t ∷ all_but_last (u ∷ ts)

-- `background_run`, which drops the last token; with only one, it joins the null pointer to the
-- path. The path has room for 100 bytes.
pub background_run : List (List ℕ) → Option (List Action)
background_run tokens = elim (all_but_last tokens) [
  | [] ↦ none
  | w ∷ ws ↦ (do path ← stored 100 (codes "/bin/" ++ w); some (run_background path (w ∷ ws) ∷ []))
]

-- What a round leaves: the memory, the variables, what was asked for, and `flag`.
pub record Round : Type 0 where
  pub memory : Memory
  pub vars : EnvVars
  pub actions : List Action
  pub flag : Bool

abbrev found : ℤ → Bool
found (pos n) = true
found (negsuc n) = false

-- The pipe: `ic` is the line itself, which is cut up already.
pub pipe_command : ℕ → Memory → EnvVars → ℕ → Option Round
pipe_command fuel m vars ic = elim (parse_pipe fuel m ic) [
  | none ↦ none
  | some (m', pipe1, pipe2) ↦
      some (record { memory = m'; vars = vars; actions = pipe_up pipe1 pipe2 ∷ []; flag = true })
]

abbrev pub asking : Memory → EnvVars → List Action → Round
asking m vars actions = record { memory = m; vars = vars; actions = actions; flag = true }

-- The tests on the first token and on the line, in the order of the code.
pub dispatch : ℕ → Memory → EnvVars → ℕ → List (List ℕ) → Bool → Bool → Option Round
unfolding pipe_command background_run
dispatch fuel m vars ic [] pipe? amp? = none
dispatch fuel m vars ic (w ∷ ws) pipe? amp? =
    if matches w (codes "cd")
    then some (asking m vars (change_directory (directory_of ws) ∷ []))
    else if is_script w
    then some (asking m vars (run_script (drop 2 w) ∷ []))
    else if matches w (codes "exit")
    then some (record (asking m vars (say (codes "Exiting Shell") ∷ [])) { flag = false })
    else if pipe?
    then pipe_command fuel m vars ic
    else if amp?
    then (background_run (w ∷ ws) >>= λ actions. some (asking m vars actions))
    else if matches w (codes "pwd")
    then some (asking m vars (print_directory ∷ []))
    else (execute_binaries vars (w ∷ ws) >>= λ r. some (asking m r.0 r.1))

-- The branch of a line that is not empty. `strcpy(ic, input)` copies the line onto itself.
pub read_line : ℕ → Memory → EnvVars → ℕ → Option Round
unfolding read_strings dispatch
read_line fuel m vars input = do
  len ← strlen fuel m input
  cut ← tokenize_input fuel m input b' '
  words ← read_strings fuel cut.0 cut.1
  pipe ← linearsearch fuel cut.0 input b'|'
  amp ← linearsearch fuel cut.0 input b'&'
  r ← dispatch fuel cut.0 vars input words (found pipe) (found amp)
  some (record r { memory = memset r.memory input 0 len })

-- The variables at the start.
abbrev pub initial_vars : EnvVars
initial_vars = record { path = codes "rootfs"; ps1 = codes "osunderferdman@sbush:~$" }

-- The prompt, and then the line.
pub main_round : ℕ → Memory → EnvVars → ℕ → Option Round
unfolding read_line
main_round fuel m vars input =
    let prompt = say vars.ps1 in
    let taken : Option Round = (do
      r ← read_line fuel m vars input
      some (record r { actions = prompt ∷ r.actions })) in
    if m input == 0 then some (asking m vars (prompt ∷ [])) else taken
