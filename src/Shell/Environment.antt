-- ===== src/Shell/Environment.antt =====
-- The two variables of the shell, and comparing and joining its strings. A string that is only read
-- comes as the list of its bytes before the zero byte. `none` is a write behind an array or a read
-- behind a string.
pub mod Set
use sbu_operating_system.Prelude.{
  ℕ, zero, suc, ◌+◌, Bool, true, false, ◌||◌, Option, none, some, List, [], ◌∷◌, ◌++◌, length, ltb,
  ◌==◌, if◌then◌else◌, ◌>>=◌, ℤ, pos, minus_one, codes,
}

-- `strcmp1`: 0 for equal strings, -1 for others.
unfoldable pub strcmp1 : List ℕ → List ℕ → ℤ
strcmp1 [] [] = pos 0
strcmp1 [] (d ∷ t) = minus_one
strcmp1 (c ∷ s) [] = minus_one
strcmp1 (c ∷ s) (d ∷ t) = let rest = strcmp1 s t in if c == d then rest else minus_one

abbrev is_zero : ℤ → Bool
is_zero (pos n) = n == 0
is_zero _ = false

-- `strcmp1(str1, str2) == 0`
unfoldable pub matches : List ℕ → List ℕ → Bool
unfolding strcmp1
matches str1 str2 = is_zero (strcmp1 str1 str2)

-- A string and its zero byte, stored in an array of `size` bytes.
abbrev pub stored : ℕ → List ℕ → Option (List ℕ)
stored size s = if ltb (length s) size then some s else none

-- `strcat` of the library, which copies a first byte before it looks for the end: of an empty string
-- it copies the zero byte and what lies behind it.
abbrev pub joined : ℕ → List ℕ → List ℕ → Option (List ℕ)
joined size s [] = none
joined size s (c ∷ t) = stored size (s ++ (c ∷ t))

pub record EnvVars : Type 0 where
  pub path : List ℕ
  pub ps1 : List ℕ

abbrev is_path : List ℕ → Bool
is_path name = matches name (codes "$path") || matches name (codes "$PATH")

abbrev is_ps1 : List ℕ → Bool
is_ps1 name = matches name (codes "$ps1") || matches name (codes "$PS1")

-- `none` is the null pointer, after a message.
unfoldable pub getenv : EnvVars → List ℕ → Option (List ℕ)
unfolding matches
getenv vars name =
    if is_path name then some vars.path else if is_ps1 name then some vars.ps1 else none

-- Whether `name` is one of the two; otherwise `setenv` only prints a message.
unfoldable pub is_variable : List ℕ → Bool
unfolding matches
is_variable name = is_path name || is_ps1 name

unfoldable pub setenv : EnvVars → List ℕ → List ℕ → Option EnvVars
unfolding matches
setenv vars name env =
    let extended : Option EnvVars = (do
      p ← joined 20 vars.path (codes ";")
      p' ← joined 20 p env
      some (record vars { path = p' })) in
    let prompt : Option EnvVars = (do s ← stored 30 env; some (record vars { ps1 = s })) in
    if is_path name then extended else if is_ps1 name then prompt else some vars
