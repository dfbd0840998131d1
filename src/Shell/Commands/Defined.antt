-- ===== src/Shell/Commands/Defined.antt =====
-- Which commands run, and what they leave of the variables.
use sbu_operating_system.Prelude.{
  ℕ, ◌≡◌, ◌≢◌, refl, arith, false, some, List, [], ◌∷◌, codes, Bool-cases, inl, inr,
}
use sbu_operating_system.Shell.Environment.{EnvVars, matches}
use sbu_operating_system.Shell.Environment.Set.{matches_iff}
use sbu_operating_system.Shell.Commands.{
  Action, say, say_all, list_directory, show_file, show_tasks, clear_screen, list_command,
  show_command, execute_binaries,
}

-- The commands that set no variable and read no argument that may be missing.
abbrev pub IsHarmless : List ℕ → Type 0
IsHarmless name =
    (name ≢ codes "export")
    × (name ≢ codes "EXPORT")
    × (name ≢ codes "echo")
    × (name ≢ codes "sleep")

no_match : (s t : List ℕ) → s ≢ t → matches s t ≡ false
no_match s t ne = elim (Bool-cases (matches s t)) [
  | inl yes? ↦ absurd (ne ((matches_iff s t).0 yes?))
  | inr no? ↦ no?
]

list_command-runs :
    (vars : EnvVars) (args : List (List ℕ))
    → (actions : List Action) × (list_command vars args ≡ some (vars, actions))
unfolding list_command
list_command-runs vars [] = (list_directory [] ∷ [], refl)
list_command-runs vars (t ∷ ts) = (list_directory t ∷ [], refl)

show_command-runs :
    (vars : EnvVars) (args : List (List ℕ))
    → (actions : List Action) × (show_command vars args ≡ some (vars, actions))
unfolding show_command
show_command-runs vars [] = (say (codes "Invalid format. Correct format: cat filename") ∷ [], refl)
show_command-runs vars (t ∷ []) = (show_file t ∷ [], refl)
show_command-runs vars (t ∷ u ∷ ts) =
    (say (codes "Invalid format. Correct format: cat filename") ∷ [], refl)

-- A command other than `export`, `echo` and `sleep` is carried out whatever its arguments are, and
-- leaves the variables as they were.
pub execute_binaries-keeps :
    (vars : EnvVars) (name : List ℕ) (args : List (List ℕ))
    → IsHarmless name
    → (actions : List Action) × (execute_binaries vars (name ∷ args) ≡ some (vars, actions))
unfolding execute_binaries
execute_binaries-keeps vars name args h =
    let no1 = no_match name (codes "export") h.0 in
    let no2 = no_match name (codes "EXPORT") h.1 in
    let no3 = no_match name (codes "echo") h.2 in
    let no4 = no_match name (codes "sleep") h.3 in
    elim (Bool-cases (matches name (codes "ls"))) [
      | inl yes? ↦ let (actions, run) = list_command-runs vars args in (actions, rw yes? run)
      | inr ls? ↦ elim (Bool-cases (matches name (codes "cat"))) [
        | inl yes? ↦
            let (actions, run) = show_command-runs vars args in (actions, rw (ls?, yes?) run)
        | inr cat? ↦ elim (Bool-cases (matches name (codes "ps"))) [
          | inl yes? ↦ (show_tasks ∷ [], rw (ls?, cat?, no4, no1, no2, no3, yes?) refl)
          | inr ps? ↦ elim (Bool-cases (matches name (codes "clear"))) [
            | inl yes? ↦ (clear_screen ∷ [], rw (ls?, cat?, no4, no1, no2, no3, ps?, yes?) refl)
            | inr clear? ↦ ([], rw (ls?, cat?, no4, no1, no2, no3, ps?, clear?) refl)
          ]
        ]
      ]
    ]

-- `echo` prints its arguments, when the first one names no variable.
pub execute_binaries-echo :
    (vars : EnvVars) (c : ℕ) (t : List ℕ) (ts : List (List ℕ))
    → c ≢ b'$'
    → execute_binaries vars (codes "echo" ∷ (c ∷ t) ∷ ts) ≡ some (vars, say_all ((c ∷ t) ∷ ts))
unfolding execute_binaries matches
execute_binaries-echo vars c t ts ne = ground arith
