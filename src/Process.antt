-- ===== src/Process.antt =====
-- sys/process.c: the descriptor table of a task, process numbers, and the choice of the task to
-- run. A node of the file system is its index in `tarfs_fs`; a task is its address.
pub mod Descriptors
pub mod Pids
pub mod Scheduling
pub mod Task
pub mod Fork
use sbu_operating_system.Prelude.{
  ℕ, zero, suc, ◌+◌, ◌-◌, ◌^◌, Bool, Option, none, some, List, [], ◌∷◌, length, set, get_elem?,
  ◌==◌, if◌then◌else◌, update,
}

-- `fdStruct`; `none` is the null pointer.
pub record Descriptor : Type 0 where
  pub fd : ℕ
  pub node : Option ℕ
  pub permission : ℕ

abbrev empty_fd : ℕ → Descriptor
empty_fd i = record { fd = i; node = none; permission = 0 }

-- `setfdArray`, with `rounds` entries left from entry `i` on.
set_fds : ℕ → ℕ → List Descriptor
set_fds zero i = []
set_fds (suc rounds) i = empty_fd i ∷ set_fds rounds (i + 1)

unfoldable pub set_fd_array : List Descriptor
unfolding set_fds
set_fd_array = set_fds 20 0

abbrev pub is_open : Option ℕ → Bool
is_open none = Bool.false
is_open (some node) = Bool.true

-- The loop of `getfd`; an entry out of range is not read, since the table has 20.
find_fd : ℕ → ℕ → List Descriptor → Option ℕ
find_fd zero i fds = none
find_fd (suc rounds) i fds =
    let rest = find_fd rounds (i + 1) fds in
    elim (get_elem? fds i) [ none ↦ rest | some d ↦ if is_open d.node then rest else some i ]

-- `none` is the -1 of the code.
unfoldable pub getfd : List Descriptor → Option ℕ
unfolding find_fd
getfd fds = find_fd 17 3 fds

-- `copyfdArray`: every field of every entry.
unfoldable pub copy_fd_array : List Descriptor → List Descriptor → List Descriptor
copy_fd_array [] _ = []
copy_fd_array (d ∷ ds) [] = d ∷ ds
copy_fd_array (d ∷ ds) (e ∷ es) =
    record { fd = e.fd; node = e.node; permission = e.permission } ∷ copy_fd_array ds es

-- `close`: the entry is emptied whatever it held.
pub close_fd : List Descriptor → ℕ → List Descriptor
close_fd [] fd = []
close_fd (d ∷ ds) zero = record d { node = none } ∷ ds
close_fd (d ∷ ds) (suc fd) = d ∷ close_fd ds fd

-- What `open` enters for the node of a file.
pub enter_fd : List Descriptor → ℕ → ℕ → List Descriptor
enter_fd [] fd node = []
enter_fd (d ∷ ds) zero node = record d { node = some node } ∷ ds
enter_fd (d ∷ ds) (suc fd) node = d ∷ enter_fd ds fd node

-- `processArray`: 1 marks a number in use.
abbrev pub pid_limit : ℕ
pid_limit = 2048

find_pid : ℕ → ℕ → (ℕ → ℕ) → Option ℕ
find_pid zero i used = none
find_pid (suc rounds) i used =
    let rest = find_pid rounds (i + 1) used in if used i == 0 then some i else rest

-- `getPid`; the failure is -1 as a `uint64_t`.
unfoldable pub get_pid : (ℕ → ℕ) → ℕ × (ℕ → ℕ)
unfolding find_pid
get_pid used = elim (find_pid pid_limit 0 used) [
  | none ↦ (2 ^ 64 - 1, used)
  | some i ↦ (i, update used i 1)
]

-- `currentTask`, `nextTask` and the field `nextTask` of each task.
pub record Schedule : Type 0 where
  pub current : ℕ
  pub next : ℕ
  pub link : ℕ → ℕ

-- `waitpid` up to the context switch. Both arguments are ignored.
pub waitpid : Schedule → Schedule
waitpid s =
    let s1 : Schedule = record s { link = update s.link s.current (s.link s.next) } in
    let s2 : Schedule = record s1 { link = update s1.link s.next s.current } in
    record s2 { current = s.next; next = s.current }

-- What `fork` does to the schedule for the new task `child`.
pub fork_links : Schedule → ℕ → Schedule
fork_links s child =
    let parent = s.current in
    let s1 : Schedule = record s { link = update s.link parent child } in
    let s2 : Schedule = record s1 { link = update s1.link child s.next } in
    record s2 { current = parent; next = child }
