-- ===== src/Files/Archive.antt =====
-- sys/tarfs.c: the table of nodes that `tarfs_init` makes of the archive, and the search of the
-- archive in `getFileOffset` of sys/dir.c. A header has its name at offset 0, the size at 124 and the
-- type at 156. `none` is a loop that ran out of fuel, or a write behind an array.
pub mod Layout
pub mod Entered
pub mod Offset
use sbu_operating_system.Prelude.{
  ℕ, zero, suc, ◌+◌, ◌-◌, ◌%◌, ◌^◌, Bool, true, false, Option, none, some, List, [], ◌∷◌, ◌++◌,
  length, take, get_elem?, ltb, ◌==◌, if◌then◌else◌, update, ◌>>=◌, codes, ℤ, pos,
}
use sbu_operating_system.CString.{Memory, char_to_int}
use sbu_operating_system.CString.Read.{read_string, same_string}
use sbu_operating_system.Files.{octal_size, next_header}

-- `tarfsStruct`; an entry that is not in use has an empty name.
pub record Node : Type 0 where
  pub name : List ℕ
  pub size : ℕ
  pub flag_type : ℕ
  pub header_address : ℕ
  pub par : ℕ

abbrev pub root_node : Node
root_node = record {
  name = codes "rootfs/";
  size = 0;
  flag_type = 5;
  header_address = 0;
  par = 100;
}

-- The string up to and including the last `/` at or before an index; `none` if there is none.
pub cut_behind_slash : ℕ → List ℕ → Option (List ℕ)
cut_behind_slash zero name = elim (get_elem? name 0) [
  | none ↦ none
  | some c ↦ if c == b'/' then some (take 1 name) else none
]
cut_behind_slash (suc k) name =
    let rest = cut_behind_slash k name in
    elim (get_elem? name (suc k)) [
      | none ↦ rest
      | some c ↦ if c == b'/' then some (take (k + 2) name) else rest
    ]

-- The loop over the nodes; without a match it stops at 100.
pub find_par : ℕ → ℕ → (ℕ → Node) → List ℕ → ℕ
find_par zero i nodes name = i
find_par (suc rounds) i nodes name =
    let rest = find_par rounds (i + 1) nodes name in
    if same_string name (nodes i).name then i else rest

-- `getPar`: the number of the node whose name is that of the directory above.
pub get_par : (ℕ → Node) → List ℕ → ℕ → ℕ
unfolding cut_behind_slash find_par
get_par nodes dir flag_type =
    let last = if flag_type == 0 then length dir - 1 else length dir - 2 in
    elim (cut_behind_slash last dir) [ none ↦ 999 | some name ↦ find_par 100 0 nodes name ]

-- The node of a header. A type other than 0 and 5 leaves `par` as it was for the header before.
pub make_node : (ℕ → Node) → List ℕ → ℕ → ℕ → ℕ → ℕ → Node
unfolding get_par
make_node nodes name size flag address par =
    let full = codes "rootfs/" ++ name in
    record {
      name = full;
      size = size % 2 ^ 32;
      flag_type = flag;
      header_address = address;
      par =
          if flag == 0
          then get_par nodes full 0
          else if flag == 5
          then get_par nodes full 5
          else par;
    }

-- Node `i`, of 100, is entered.
abbrev pub enter_node : (ℕ → Node) → ℕ → Node → Option (ℕ → Node)
enter_node nodes i n =
    if ltb i 100 then (if ltb (length n.name) 100 then some (update nodes i n) else none) else none

-- The loop of `tarfs_init` from the header at `temp` on, for node `i`.
pub init_loop : ℕ → Memory → ℕ → ℕ → ℕ → ℕ → (ℕ → Node) → Option (ℕ → Node)
unfolding make_node
init_loop zero m start temp i par nodes = none
init_loop (suc fuel) m start temp i par nodes =
    let header = start + temp in
    elim (read_string fuel m header) [
      | none ↦ none
      | some [] ↦ some nodes
      | some (c ∷ cs) ↦ elim (char_to_int fuel m (header + 124)) [
        | none ↦ none
        | some digits ↦ elim (octal_size digits) [
          | none ↦ none
          | some size ↦ elim (char_to_int fuel m (header + 156)) [
            | none ↦ none
            | some flag ↦
                let n = make_node nodes (c ∷ cs) size flag header par in
                elim (enter_node nodes i n) [
                  | none ↦ none
                  | some nodes' ↦
                      init_loop fuel m start (next_header temp size) (i + 1) n.par nodes'
                ]
          ]
        ]
      ]
    ]

-- `par` is what the stack holds at the start.
pub tarfs_init : ℕ → Memory → ℕ → ℕ → (ℕ → Node) → Option (ℕ → Node)
unfolding init_loop
tarfs_init fuel m start par nodes = init_loop fuel m start 0 1 par (update nodes 0 root_node)

-- The loop of `getFileOffset`, which goes on from the header behind `temp`. The comparison is with
-- `>= 0`, and `strcmp` returns 0 or -1. Both tests for an empty name are on the same header.
pub offset_loop : ℕ → Memory → ℕ → ℕ → List ℕ → Option ℕ
offset_loop zero m start temp filename = none
offset_loop (suc fuel) m start temp filename =
    let header = start + temp in
    elim (char_to_int fuel m (header + 124)) [
      | none ↦ none
      | some digits ↦ elim (octal_size digits) [
        | none ↦ none
        | some size ↦ elim (read_string fuel m header) [
          | none ↦ none
          | some name ↦ elim (length name == 0) [
            | true ↦ some 999
            | false ↦ elim (same_string name filename) [
              | true ↦ some (temp + 512)
              | false ↦ offset_loop fuel m start (next_header temp size) filename
            ]
          ]
        ]
      ]
    ]

-- `getFileOffset`. The first header is only looked at for its name; an archive with no header gives
-- -1 as a `uint64_t`.
pub get_file_offset : ℕ → Memory → ℕ → List ℕ → Option ℕ
unfolding offset_loop
get_file_offset fuel m start filename = elim (m start == 0) [
  | true ↦ some (2 ^ 64 - 1)
  | false ↦ offset_loop fuel m start 512 filename
]
