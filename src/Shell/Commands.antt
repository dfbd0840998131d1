-- ===== src/Shell/Commands.antt =====
-- `execute_binaries`: the commands that the shell carries out itself. `none` is a read through the
-- null pointer behind the last token, or a write behind an array.
pub mod Defined
use sbu_operating_system.Prelude.{
  ℕ, zero, suc, ◌+◌, ◌-◌, ◌*◌, ◌%◌, ◌^◌, Bool, true, false, ◌||◌, Option, none, some, List, [], ◌∷◌,
  length, ltb, leb, ◌==◌, if◌then◌else◌, ◌>>=◌, codes,
}
use sbu_operating_system.CString.{Memory, char_to_int}
use sbu_operating_system.Shell.Environment.{EnvVars, matches, getenv, setenv, is_variable}

-- What the shell asks of the system. `list_directory` and `show_file` are `ls` and `cat`.
pub data Action : Type 0 where
  list_directory show_file say change_directory run_script : List ℕ → Action
  wait : ℕ → Action
  show_tasks clear_screen print_directory : Action
  pipe_up : List ℕ → List ℕ → Action
  run_background : List ℕ → List (List ℕ) → Action

pub say_all : List (List ℕ) → List Action
say_all [] = []
say_all (t ∷ ts) = say t ∷ say_all ts

-- The rounds of the busy wait of `mysleep`, for the 32 bits of an `int`; `none` is an overflow. A
-- negative frequency counts as an `unsigned long`.
pub sleep_rounds : ℕ → Option ℕ
sleep_rounds time =
    let n = 1193182 * 120 * time in
    let back = 1193182 * 120 * (2 ^ 32 - time) in
    if ltb n (2 ^ 31) then some n else if leb back (2 ^ 31) then some (2 ^ 64 - back) else none

-- The string at the start of an empty memory.
abbrev pub at_zero : List ℕ → Memory
at_zero [] = λ i. 0
at_zero (c ∷ s) = λ i. elim i [ zero ↦ c | suc j ↦ at_zero s j ]

pub sleep_command : EnvVars → List (List ℕ) → Option (EnvVars × List Action)
unfolding sleep_rounds
sleep_command vars [] =
    some (vars, say (codes "Invalid. Usage sleep <forhowmuchtimeinseconds>") ∷ [])
sleep_command vars (t ∷ ts) = do
  time ← char_to_int (length t + 1) (at_zero t) 0
  rounds ← sleep_rounds (time % 2 ^ 32)
  some (vars, wait rounds ∷ [])

abbrev bad_variable : Action
bad_variable = say (codes "Invalid Environment Variable. Usage: export $PATH <path> or $PS1 <ps1>")

-- `setenv(tokens[1], tokens[2])`. With one argument the second is null, and is read if the first is
-- a variable.
pub export_command : EnvVars → List (List ℕ) → Option (EnvVars × List Action)
export_command vars [] = none
export_command vars (name ∷ []) = if is_variable name then none else some (vars, bad_variable ∷ [])
export_command vars (name ∷ env ∷ ts) =
    if is_variable name
    then (setenv vars name env >>= λ vars'. some (vars', []))
    else some (vars, bad_variable ∷ [])

abbrev starts_with : ℕ → List ℕ → Bool
starts_with c [] = false
starts_with c (d ∷ s) = d == c

-- `puts(getenv(name))`: for an unknown variable the null pointer is printed, after the message.
pub echo_command : EnvVars → List (List ℕ) → Option (EnvVars × List Action)
unfolding say_all
echo_command vars [] = none
echo_command vars (t ∷ ts) =
    if starts_with b'$' t
    then (getenv vars t >>= λ value. some (vars, say value ∷ []))
    else some (vars, say_all (t ∷ ts))

pub list_command : EnvVars → List (List ℕ) → Option (EnvVars × List Action)
list_command vars [] = some (vars, list_directory [] ∷ [])
list_command vars (t ∷ ts) = some (vars, list_directory t ∷ [])

pub show_command : EnvVars → List (List ℕ) → Option (EnvVars × List Action)
show_command vars (t ∷ []) = some (vars, show_file t ∷ [])
show_command vars _ = some (vars, say (codes "Invalid format. Correct format: cat filename") ∷ [])

unfoldable pub execute_binaries : EnvVars → List (List ℕ) → Option (EnvVars × List Action)
unfolding sleep_command export_command echo_command list_command show_command
execute_binaries vars [] = none
execute_binaries vars (name ∷ args) =
    if matches name (codes "ls")
    then list_command vars args
    else if matches name (codes "cat")
    then show_command vars args
    else if matches name (codes "sleep")
    then sleep_command vars args
    else if matches name (codes "export") || matches name (codes "EXPORT")
    then export_command vars args
    else if matches name (codes "echo")
    then echo_command vars args
    else if matches name (codes "ps")
    then some (vars, show_tasks ∷ [])
    else if matches name (codes "clear")
    then some (vars, clear_screen ∷ [])
    else some (vars, [])
