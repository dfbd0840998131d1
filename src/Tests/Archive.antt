-- ===== src/Tests/Archive.antt =====
-- The file system at an archive with the directory "a/" and the file "a/f", which has three bytes.
use sbu_operating_system.Prelude.{
  ℕ, zero, suc, ◌<◌, ◌≡◌, ◌≢◌, ◌⊎◌, inr, refl, arith, ◌==◌, if◌then◌else◌, some, List, [], ◌∷◌,
  length, codes,
}
use sbu_operating_system.CString.{Memory}
use sbu_operating_system.Process.{Descriptor, set_fd_array, getfd}
use sbu_operating_system.Files.{next_header}
use sbu_operating_system.Files.Archive.{Node, root_node, get_file_offset}
use sbu_operating_system.Files.Archive.Layout.{Entry, IsHeader, IsArchive}
use sbu_operating_system.Files.Archive.Offset.{contents_offset, get_file_offset-contents_offset}
use sbu_operating_system.CString.Layout.{Holds}
use sbu_operating_system.Files.Calls.{chdir, open_name}
use sbu_operating_system.Files.Calls.Named.{
  IsRelative, Changed, Opened, chdir-Changed, open_name-Opened,
}
use sbu_operating_system.Files.Nodes.{open_dir, open_file, read_file}
use sbu_operating_system.Files.Nodes.Found.{IsNode, NoneBetween, EndsAt, open_dir-first}
use sbu_operating_system.Files.Nodes.Reading.{IsRead, open_file-read_file}

abbrev memory : Memory
memory p =
    if p == 4096
    then b'a'
    else if p == 4097
    then b'/'
    else if p == 4220
    then b'0'
    else if p == 4252
    then b'5'
    else if p == 4608
    then b'a'
    else if p == 4609
    then b'/'
    else if p == 4610
    then b'f'
    else if p == 4732
    then b'3'
    else if p == 4764
    then b'0'
    else if p == 5120
    then b'x'
    else if p == 5121
    then b'y'
    else if p == 5122
    then b'z'
    else 0

abbrev directory_a : Entry
directory_a = record { name = b'a' ∷ b'/' ∷ []; digits = 0 ∷ []; flag = 5 }

abbrev file_f : Entry
file_f = record { name = b'a' ∷ b'/' ∷ b'f' ∷ []; digits = 3 ∷ []; flag = 0 }

IsHeader-a : IsHeader memory 4096 directory_a
IsHeader-a = record {
  named = omega arith;
  not_empty = λ e. cc e;
  sized = (omega arith, refl, refl);
  typed = (omega arith, refl, refl);
  octal = (omega arith, tt);
  few = omega arith;
  fits = omega arith;
  short = omega arith;
}

IsHeader-f : IsHeader memory 4608 file_f
IsHeader-f = record {
  named = omega arith;
  not_empty = λ e. cc e;
  sized = (omega arith, refl, refl);
  typed = (omega arith, refl, refl);
  octal = (omega arith, tt);
  few = omega arith;
  fits = omega arith;
  short = omega arith;
}

archive : IsArchive memory 4096 0 (directory_a ∷ file_f ∷ [])
unfolding next_header
archive = (IsHeader-a, (IsHeader-f, (refl, refl)))

abbrev empty_node : Node
empty_node = record { name = []; size = 0; flag_type = 0; header_address = 0; par = 0 }

get_file_offset-contents_offset_example :
    get_file_offset 95 memory 4096 (codes "a/f")
    ≡ some (contents_offset 512 (codes "a/f") (file_f ∷ []))
get_file_offset-contents_offset_example =
    get_file_offset-contents_offset 95 memory 4096 (codes "a/f") directory_a (file_f ∷ []) archive
      refl (omega arith)

abbrev nodes : ℕ → Node
nodes i =
    if i == 0
    then root_node
    else if i == 1
    then record {
      name = codes "rootfs/a/";
      size = 0;
      flag_type = 5;
      header_address = 4096;
      par = 0;
    }
    else if i == 2
    then record {
      name = codes "rootfs/a/f";
      size = 3;
      flag_type = 0;
      header_address = 4608;
      par = 1;
    }
    else empty_node

nodes_used : (j : ℕ) → j < 3 → length (nodes j).name ≢ 0
nodes_used zero lt e = absurd (omega arith)
nodes_used (suc zero) lt e = absurd (omega arith)
nodes_used (suc (suc zero)) lt e = absurd (omega arith)
nodes_used (suc (suc (suc j))) lt e = absurd (omega arith)

nodes-EndsAt : (lo : ℕ) → EndsAt nodes lo 3
nodes-EndsAt lo = record { used = λ j a b. nodes_used j b; empty = refl }

open_dir-first_example :
    ((i : ℕ) × IsNode nodes (codes "rootfs/a/") 5 i
      × NoneBetween nodes (codes "rootfs/a/") 5 0 i
      × (open_dir nodes (codes "rootfs/") (codes "rootfs/a/")
          ≡ some (codes "rootfs/a/", (nodes i).header_address)))
    ⊎ (NoneBetween nodes (codes "rootfs/a/") 5 0 3
        × (open_dir nodes (codes "rootfs/") (codes "rootfs/a/") ≡ some (codes "rootfs/", 0)))
open_dir-first_example =
    open_dir-first nodes (codes "rootfs/") (codes "rootfs/a/") 3 (nodes-EndsAt 0) (omega arith)

abbrev fds : List Descriptor
unfolding set_fd_array
fds = set_fd_array

fds-length : length fds ≡ 20
unfolding set_fd_array
fds-length = refl

fds-free : getfd fds ≡ some 3
unfolding getfd set_fd_array
fds-free = refl

IsNode-f : IsNode nodes (codes "rootfs/a/f") 0 2
IsNode-f = record { used = λ e. absurd (omega arith); named = refl; typed = refl }

none_before_f : NoneBetween nodes (codes "rootfs/a/f") 0 1 2
none_before_f zero a b = absurd (omega arith)
none_before_f (suc zero) a b = (nodes_used 1 (omega arith), λ n. cc n.typed)
none_before_f (suc (suc j)) a b = absurd (omega arith)

open_file-read_file_example :
    (fds' : List Descriptor) × (open_file nodes fds (codes "rootfs/a/f") ≡ some (fds', 3))
    × IsRead memory 5120 8192 3 (read_file 93 memory nodes fds' 3 8192 100)
open_file-read_file_example =
    open_file-read_file 93 memory nodes fds (codes "rootfs/a/f") 3 2 3 8192 100 file_f
      (nodes-EndsAt 1) (omega arith) (omega arith) (omega arith) IsNode-f none_before_f fds-length
      fds-free (omega arith) IsHeader-f (omega arith) (inr (omega arith))

abbrev name_memory : Memory
name_memory p = if p == 10 then b'a' else 0

name-IsRelative : IsRelative (b'a' ∷ [])
name-IsRelative = record {
  no_space = refl;
  open? = refl;
  first = b'a' ∷ [];
  others = [];
  split = refl;
  names = ((λ e. cc e), refl, tt);
  no_up = λ e. cc e;
  no_here = λ e. cc e;
}

name-Holds : Holds name_memory 10 (b'a' ∷ [])
name-Holds = omega arith

chdir-Changed_example :
    Changed nodes
      (codes "rootfs/")
      (codes "rootfs/a/")
      3
      (chdir 2 name_memory nodes (codes "rootfs/") 10)
chdir-Changed_example =
    chdir-Changed 2 name_memory nodes (codes "rootfs/") 10 3 (b'a' ∷ []) name-Holds name-IsRelative
      (omega arith) (omega arith) (nodes-EndsAt 0) (omega arith)

open_name-Opened_example :
    Opened name_memory nodes fds 10
      (codes "rootfs/a")
      (open_name 2 name_memory nodes (codes "rootfs/") fds 10)
open_name-Opened_example =
    open_name-Opened 2 name_memory nodes (codes "rootfs/") fds 10 b'a' [] name-Holds name-IsRelative
      (omega arith) (omega arith)
