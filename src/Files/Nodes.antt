-- ===== src/Files/Nodes.antt =====
-- sys/dir.c: looking up, listing and reading nodes. The table ends at the first empty name; `none`
-- is a read behind its 100 nodes, through a null pointer, or a write behind an array.
pub mod Found
pub mod Reading
use sbu_operating_system.Prelude.{
  ℕ, zero, suc, ◌+◌, ◌-◌, ◌%◌, ◌^◌, Bool, true, false, ◌&&◌, Option, none, some, List, [], ◌∷◌,
  ◌++◌, length, drop, get_elem?, ltb, ◌==◌, if◌then◌else◌, update, ◌>>=◌, ℤ, pos, negsuc, minus_one,
}
use sbu_operating_system.CString.{Memory, char_to_int, memcpy}
use sbu_operating_system.CString.Read.{same_string}
use sbu_operating_system.Files.{octal_size}
use sbu_operating_system.Files.Archive.{Node}
use sbu_operating_system.Process.{Descriptor, getfd, enter_fd}

-- The loop of `open_dir` and of `open`, from node `i` on: the node with a name and a type, or
-- `some none` at the end of the table.
pub find_node : ℕ → ℕ → (ℕ → Node) → List ℕ → ℕ → Option (Option ℕ)
find_node zero i nodes name flag_type = none
find_node (suc rounds) i nodes name flag_type =
    let rest = find_node rounds (i + 1) nodes name flag_type in
    if length (nodes i).name == 0
    then some none
    else if same_string (nodes i).name name && ((nodes i).flag_type == flag_type)
    then some (some i)
    else rest

-- The current directory and the address that is returned; 0 when there is no such directory.
pub open_dir : (ℕ → Node) → List ℕ → List ℕ → Option (List ℕ × ℕ)
unfolding find_node
open_dir nodes cwd dir_name = elim (find_node 100 0 nodes dir_name 5) [
  | none ↦ none
  | some none ↦ some (cwd, 0)
  | some (some i) ↦ some ((nodes i).name, (nodes i).header_address)
]

-- `open`, for the absolute path: the search starts behind node 0. The descriptor is 0 when there is
-- no such file. With no free descriptor the node is written in front of the table.
pub open_file : (ℕ → Node) → List Descriptor → List ℕ → Option (List Descriptor × ℕ)
unfolding find_node
open_file nodes fds file_name = elim (find_node 99 1 nodes file_name 0) [
  | none ↦ none
  | some none ↦ some (fds, 0)
  | some (some i) ↦ elim (getfd fds) [ none ↦ none | some fd ↦ some (enter_fd fds fd i, fd) ]
]

-- Whether a string starts with another: `strncmp(name, dir, strlen(dir)) == 0`.
pub starts_with : List ℕ → List ℕ → Bool
starts_with name [] = true
starts_with [] (d ∷ dir) = false
starts_with (c ∷ name) (d ∷ dir) = if c == d then starts_with name dir else false

abbrev pub is_number : ℕ → Option ℕ → Bool
is_number par none = false
is_number par (some k) = par == k

-- The loop of `read_dir` and the lines that it prints. `n_parents` is the number of the directory,
-- -1 until it is met.
pub list_loop : ℕ → ℕ → (ℕ → Node) → List ℕ → Option ℕ → Option (List (List ℕ))
unfolding starts_with
list_loop zero i nodes dir_name n_parents = none
list_loop (suc rounds) i nodes dir_name n_parents =
    let name = (nodes i).name in
    let child = is_number (nodes i).par n_parents in
    elim (length name == 0) [
      | true ↦ some []
      | false ↦ elim (same_string name dir_name) [
        | true ↦ list_loop rounds (i + 1) nodes dir_name (some i)
        | false ↦ elim (list_loop rounds (i + 1) nodes dir_name n_parents) [
          | none ↦ none
          | some lines ↦ some (
              if starts_with name dir_name && child
              then drop (length dir_name) name ∷ lines
              else lines)
        ]
      ]
    ]

-- `read_dir`, for the absolute path.
pub read_dir : (ℕ → Node) → List ℕ → Option (List (List ℕ))
unfolding list_loop
read_dir nodes dir_name = list_loop 100 0 nodes dir_name none

-- `read_file` into `buf`, for a size that is not negative: the number of bytes, and the memory. The
-- root has the address 0, for which the code returns -1. A file size that is negative as an `int` is
-- below the size asked for, and no byte is copied.
pub read_file : ℕ → Memory → (ℕ → Node) → List Descriptor → ℕ → ℕ → ℕ → Option (Memory × ℤ)
read_file fuel m nodes fds fd buf size = elim (get_elem? fds fd) [
  | none ↦ none
  | some d ↦ elim d.node [
    | none ↦ none
    | some i ↦
        let file_addr = (nodes i).header_address in
        elim (file_addr == 0) [
          | true ↦ some (m, minus_one)
          | false ↦ elim (char_to_int fuel m (file_addr + 124)) [
            | none ↦ none
            | some digits ↦ elim (octal_size digits) [
              | none ↦ none
              | some decimal ↦
                  let file_size = decimal % 2 ^ 32 in
                  let count = if ltb file_size size then file_size else size in
                  let copied = memcpy m buf (file_addr + 512) count in
                  if ltb file_size (2 ^ 31)
                  then some (update copied (buf + count) 0, pos count)
                  else some (update m buf 0, negsuc (2 ^ 32 - 1 - file_size))
            ]
          ]
        ]
  ]
]
