-- ===== src/Files/Calls.antt =====
-- sys/dir.c: the calls with a name from the caller's memory: `chdir`, `read_dir`, `open` and `getcwd`.
-- Resolving the name cuts it up in place; `read_dir` and `open` then copy the path over it.
pub mod Named
use sbu_operating_system.Prelude.{
  ℕ, ◌+◌, ◌-◌, ◌%◌, ◌^◌, Option, some, List, [], ◌∷◌, length, ltb, ◌==◌, if◌then◌else◌, update,
  ◌>>=◌,
}
use sbu_operating_system.CString.{Memory, memset}
use sbu_operating_system.CString.Read.{read_strings}
use sbu_operating_system.CString.Strtok.{strtok}
use sbu_operating_system.Process.{Descriptor}
use sbu_operating_system.Files.Archive.{Node}
use sbu_operating_system.Files.Paths.{get_absolute_path}
use sbu_operating_system.Files.Nodes.{open_dir, open_file, read_dir}

-- A string that is not in memory, copied to an address.
unfoldable pub store_string : Memory → ℕ → List ℕ → Memory
store_string m p [] = update m p 0
store_string m p (c ∷ s) = store_string (update m p c) (p + 1) s

-- `getcwd`
pub getcwd : Memory → ℕ → List ℕ → Memory
unfolding store_string
getcwd m buf cwd = store_string m buf cwd

-- `getAbsolutePath`, its tokens included.
pub resolve : ℕ → Memory → (ℕ → Node) → List ℕ → ℕ → ℕ → Option (Memory × List ℕ)
resolve fuel m nodes cwd dir_name flag_type = do
  cut ← strtok fuel m dir_name b'/'
  words ← read_strings fuel cut.0 cut.1
  path ← get_absolute_path nodes cwd words flag_type
  some (cut.0, path)

-- An address, cut to an `int` and made 64 bits again.
abbrev pub through_int : ℕ → ℕ
through_int address =
    let low = address % 2 ^ 32 in if ltb low (2 ^ 31) then low else low + 2 ^ 64 - 2 ^ 32

-- `chdir`: the memory, the current directory and the result.
pub chdir : ℕ → Memory → (ℕ → Node) → List ℕ → ℕ → Option (Memory × List ℕ × ℕ)
unfolding resolve
chdir fuel m nodes cwd dir_name = do
  found ← resolve fuel m nodes cwd dir_name 5
  opened ← open_dir nodes cwd found.1
  some (found.0, opened.0, through_int opened.1)

-- An empty name is replaced by `./`.
abbrev pub default_name : Memory → ℕ → Memory
default_name m name =
    if m name == 0 then update (update (update m name b'.') (name + 1) b'/') (name + 2) 0 else m

-- `open`: the memory, the descriptors and the result.
pub open_name :
    ℕ → Memory → (ℕ → Node) → List ℕ → List Descriptor → ℕ → Option (Memory × List Descriptor × ℕ)
unfolding resolve store_string
open_name fuel m nodes cwd fds file_name = do
  found ← resolve fuel (default_name m file_name) nodes cwd file_name 0
  opened ← open_file nodes fds found.1
  some (store_string found.0 file_name found.1, opened.0, opened.1)

-- `read_dir`: the memory and the lines that are printed.
pub read_dir_name : ℕ → Memory → (ℕ → Node) → List ℕ → ℕ → Option (Memory × List (List ℕ))
unfolding resolve store_string
read_dir_name fuel m nodes cwd dir_name = do
  found ← resolve fuel (default_name m dir_name) nodes cwd dir_name 5
  lines ← read_dir nodes found.1
  some (memset (store_string found.0 dir_name found.1) dir_name 0 (length found.1), lines)
