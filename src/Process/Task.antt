-- ===== src/Process/Task.antt =====
-- The structure of a task, and `ps`, which prints two of them.
use sbu_operating_system.Prelude.{
  ℕ, ◌-◌, ◌%◌, ◌^◌, Option, none, some, List, [], ◌∷◌, ltb, ◌==◌, if◌then◌else◌, ◌>>=◌, codes, ℤ,
  pos, negsuc,
}
use sbu_operating_system.Console.{Screen, string, int, kprintf}
use sbu_operating_system.Faults.{Region}
use sbu_operating_system.Process.{Descriptor}

-- `taskStruct`, with the regions and the break of its `mm_struct`; the fields that nothing reads are
-- left out.
pub record TaskStruct : Type 0 where
  pub pid : ℕ
  pub ppid : ℕ
  pub krsp : ℕ
  pub kstack : ℕ
  pub rsp : ℕ
  pub task_state : ℕ
  pub fds : List Descriptor
  pub cwd : List ℕ
  pub regions : List Region
  pub brk : ℕ
  pub cr3 : ℕ
  pub rip : ℕ

abbrev pub thread_running : ℕ
thread_running = 1

abbrev pub thread_sleeping : ℕ
thread_sleeping = 2

-- The low 32 bits of a number, as an `int`.
abbrev pub int_of : ℕ → ℤ
int_of n = let low = n % 2 ^ 32 in if ltb low (2 ^ 31) then pos low else negsuc (2 ^ 32 - 1 - low)

-- `fetchpid` and `fetchppid`
pub fetchpid : TaskStruct → ℤ
fetchpid t = int_of t.pid

pub fetchppid : TaskStruct → ℤ
fetchppid t = int_of t.ppid

-- The text that `state` holds after the two tests; in any other state it is what it was.
abbrev pub state_text : Option (List ℕ) → ℕ → Option (List ℕ)
state_text old task_state =
    if task_state == thread_sleeping
    then some (codes "SLEEPING")
    else if task_state == thread_running
    then some (codes "RUNNING")
    else old

-- `ps`, for the current task and the next. `none` prints an array that was never set.
pub ps : Screen → TaskStruct → TaskStruct → Option Screen
ps s current next = do
  first ← state_text none current.task_state
  s1 ← kprintf s (codes "PID: %d STATE: %s \n") (int (int_of current.pid) ∷ string first ∷ [])
  second ← state_text (some first) next.task_state
  kprintf s1 (codes "PID: %d STATE: %s \n") (int (int_of next.pid) ∷ string second ∷ [])
