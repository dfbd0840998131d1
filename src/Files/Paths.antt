-- ===== src/Files/Paths.antt =====
-- sys/dir.c: resolving names. The tokens are the strings between the slashes, as `strtok` finds them.
-- `none` is a read through a null pointer, behind the table of 100 nodes or behind a string, or a
-- write behind the 500 bytes of a path.
pub mod Relative
use sbu_operating_system.Prelude.{
  ℕ, zero, suc, ◌+◌, ◌-◌, Bool, true, false, ◌&&◌, Option, none, some, List, [], ◌∷◌, ◌++◌, length,
  ltb, ◌==◌, if◌then◌else◌, ◌>>=◌, codes, not,
}
use sbu_operating_system.CString.Read.{same_string}
use sbu_operating_system.Files.Archive.{Node}

-- `getFileParent` looks for the current directory, and copies the name of the one above it, which for
-- the root is the node behind the table.
pub get_file_parent : ℕ → ℕ → (ℕ → Node) → List ℕ → Option (List ℕ)
get_file_parent zero i nodes cwd = none
get_file_parent (suc rounds) i nodes cwd =
    let rest = get_file_parent rounds (i + 1) nodes cwd in
    let par = (nodes i).par in
    if same_string (nodes i).name cwd
    then (if ltb par 100 then some (nodes par).name else none)
    else rest

-- `strcat` onto a path. It reads behind the end of an empty string.
abbrev pub path_join : List ℕ → List ℕ → Option (List ℕ)
path_join path [] = none
path_join path (c ∷ s) =
    let longer = path ++ (c ∷ s) in if ltb (length longer) 500 then some longer else none

-- The tokens, with a slash behind all but the last.
pub join_tokens : List ℕ → List (List ℕ) → Option (List ℕ)
join_tokens path [] = some path
join_tokens path (t ∷ []) = path_join path t
join_tokens path (t ∷ u ∷ ts) = do
  p ← path_join path t
  p' ← path_join p (codes "/")
  join_tokens p' (u ∷ ts)

abbrev pub ends_with_slash : List ℕ → Bool
ends_with_slash [] = false
ends_with_slash (c ∷ []) = c == b'/'
ends_with_slash (c ∷ d ∷ s) = ends_with_slash (d ∷ s)

-- For a directory, the path ends with a slash.
pub close_path : List ℕ → ℕ → Option (List ℕ)
close_path [] flag_type = some []
close_path (c ∷ s) flag_type =
    if not (ends_with_slash (c ∷ s)) && (flag_type == 5)
    then path_join (c ∷ s) (codes "/")
    else some (c ∷ s)

-- `getAbsolutePath`. Only the first token is looked at for `..` and `.`.
pub get_absolute_path : (ℕ → Node) → List ℕ → List (List ℕ) → ℕ → Option (List ℕ)
unfolding get_file_parent join_tokens close_path
get_absolute_path nodes cwd [] flag_type = none
get_absolute_path nodes cwd (t ∷ ts) flag_type =
    let up : Option (List ℕ) = (do
      parent ← get_file_parent 100 0 nodes cwd
      path ← join_tokens parent ts
      close_path path flag_type) in
    let here : Option (List ℕ) = (do path ← join_tokens cwd ts; close_path path flag_type) in
    let below : Option (List ℕ) = (do path ← join_tokens cwd (t ∷ ts); close_path path flag_type) in
    if same_string t (codes "..") then up else if same_string t (codes ".") then here else below
