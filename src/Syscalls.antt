-- ===== src/Syscalls.antt =====
-- sys/syscalls.c: the system calls, on the state that they share. Its `linearsearch` is that of the
-- shell once more. The result of a call is dropped by `my_syscalls_function`; the caller finds it
-- in `rax`, which sys/irq.s does not restore. `none` is a loop out of fuel or a stray access.
-- `memory` is the memory of the program that calls, in the user half of the addresses.
pub mod Written
use sbu_operating_system.Prelude.{
  ℕ, ◌+◌, ◌-◌, ◌%◌, ◌^◌, Bool, true, false, ◌||◌, Option, none, some, List, [], ◌∷◌, ◌++◌, length,
  ◌==◌, if◌then◌else◌, ltb, update, ◌>>=◌, codes, ℤ, pos, negsuc,
}
use sbu_operating_system.CString.{Memory}
use sbu_operating_system.CString.Read.{read_string, same_string}
use sbu_operating_system.Console.{Screen, string, kprintf, clear_screen}
use sbu_operating_system.Shell.Tokens.{linearsearch}
use sbu_operating_system.Keyboard.{Keyboard, Read, line, waiting, fault, read_from_stdin}
use sbu_operating_system.Files.Archive.{Node}
use sbu_operating_system.Files.Nodes.{find_node, read_file}
use sbu_operating_system.Files.Calls.{
  store_string, getcwd, resolve, chdir, default_name, open_name, read_dir_name,
}
use sbu_operating_system.Process.{Descriptor, Schedule, close_fd, waitpid}
use sbu_operating_system.Process.Task.{TaskStruct, int_of, fetchpid, fetchppid, ps}

-- `linearsearch(buf, '@') != -1`
abbrev found : ℤ → Bool
found (pos n) = true
found (negsuc n) = ltb 0 n

-- The text that the kernel prompts with.
abbrev pub prompt : List ℕ
prompt = codes "sbush:~$"

-- `sys_write`, which does not look at the length. Only descriptor 1 is written to.
unfoldable pub sys_write : ℕ → Memory → Screen → ℕ → ℕ → Option Screen
sys_write fuel m s fd buf =
    let written : Option Screen = (do
      text ← read_string fuel m buf
      at ← linearsearch fuel m buf b'@'
      kprintf s
          (if same_string prompt text
            then codes "%s"
            else if found at
            then codes "%s"
            else codes "%s \n")
          (string text ∷ [])) in
    if fd == 1 then written else some s

-- What the calls read and change.
pub record System : Type 0 where
  pub memory : Memory
  pub screen : Screen
  pub keyboard : Keyboard
  pub nodes : ℕ → Node
  pub schedule : Schedule
  pub tasks : ℕ → TaskStruct

abbrev pub current_task : System → TaskStruct
current_task s = s.tasks s.schedule.current

abbrev pub with_current : System → TaskStruct → System
with_current s t = record s { tasks = update s.tasks s.schedule.current t }

-- A call returns, or it waits for the keyboard, or it goes on in `fork` or `execve`. The value of a
-- read from the keyboard depends on timing, and is `none`.
pub data CallResult : Type 0 where
  returned : System → Option ℤ → CallResult
  waits : System → CallResult
  forks : System → CallResult
  executes : System → List ℕ → ℕ → ℕ → CallResult

abbrev pub done : System → ℤ → Option CallResult
done s v = some (returned s (some v))

-- `sys_read`, for a length that is not negative as an `int`. The keys come as scan codes.
unfoldable pub sys_read : ℕ → List ℕ → System → ℕ → ℕ → ℕ → Option CallResult
sys_read fuel keys s fd buf size =
    let from_file : Option CallResult = (do
      r ← read_file fuel s.memory s.nodes (current_task s).fds fd buf size
      done (record s { memory = r.0 }) r.1) in
    elim (fd == 0) [
      | true ↦ elim (read_from_stdin keys s.keyboard) [
        | line cs k ↦
            some (returned (record s { memory = store_string s.memory buf cs; keyboard = k }) none)
        | waiting k ↦ some (waits (record s { keyboard = k }))
        | fault ↦ none
      ]
      | false ↦ if ltb size (2 ^ 31) then from_file else none
    ]

-- `sys_open`, and what `open` prints if there is no such file.
unfoldable pub sys_open : ℕ → System → ℕ → Option CallResult
sys_open fuel s name =
    let t = current_task s in
    do
      path ← resolve fuel (default_name s.memory name) s.nodes t.cwd name 0
      node ← find_node 99 1 s.nodes path.1 0
      screen ← elim node [
        | none ↦ kprintf s.screen (codes "No such file %s \n") (string path.1 ∷ [])
        | some i ↦ some s.screen
      ]
      r ← open_name fuel s.memory s.nodes t.cwd t.fds name
      done (with_current (record s { memory = r.0; screen = screen }) (record t { fds = r.1 }))
          (int_of r.2)

-- `sys_chdir`, and what `open_dir` prints if there is no such directory.
unfoldable pub sys_chdir : ℕ → System → ℕ → Option CallResult
sys_chdir fuel s name =
    let t = current_task s in
    do
      path ← resolve fuel s.memory s.nodes t.cwd name 5
      node ← find_node 100 0 s.nodes path.1 5
      screen ← elim node [
        | none ↦ kprintf s.screen (codes "No such directory \n ") [] >>= λ screen.
            kprintf screen (codes "%s \n") (string path.1 ∷ [])
        | some i ↦ some s.screen
      ]
      r ← chdir fuel s.memory s.nodes t.cwd name
      done (with_current (record s { memory = r.0; screen = screen }) (record t { cwd = r.1 }))
          (int_of r.2)

pub print_lines : Screen → List (List ℕ) → Option Screen
print_lines s [] = some s
print_lines s (l ∷ ls) = kprintf s (codes "%s \n") (string l ∷ []) >>= λ s'. print_lines s' ls

-- `sys_readDir`
unfoldable pub sys_read_dir : ℕ → System → ℕ → Option CallResult
unfolding print_lines
sys_read_dir fuel s name = do
  r ← read_dir_name fuel s.memory s.nodes (current_task s).cwd name
  screen ← print_lines s.screen r.1
  done (record s { memory = r.0; screen = screen }) (pos 0)

-- `sys_close`; a descriptor outside the table is a write outside the task.
unfoldable pub sys_close : System → ℕ → Option CallResult
sys_close s fd =
    let t = current_task s in
    if ltb fd 20 then done (with_current s (record t { fds = close_fd t.fds fd })) (pos 0) else none

-- `sys_execvpe` copies the name into 50 bytes.
unfoldable pub sys_execvpe : ℕ → System → ℕ → ℕ → ℕ → Option CallResult
sys_execvpe fuel s file argv envp = read_string fuel s.memory file >>= λ name.
    if ltb (length name) 50 then some (executes s name argv envp) else none

-- `sys_ps`
unfoldable pub sys_ps : System → Option CallResult
sys_ps s = do
  screen ← ps s.screen (current_task s) (s.tasks s.schedule.next)
  done (record s { screen = screen }) (pos 0)

-- A pointer in the user half of the addresses. The data of the kernel lies in the other half, and is
-- not part of `memory`: the calls do not check their pointers, and one that reads or writes there is
-- `none`.
abbrev at_user : {A : Type 0} → ℕ → Option A → Option A
at_user p result = if ltb p (2 ^ 47) then result else none

abbrev int_arg : ℕ → ℕ
int_arg n = n % 2 ^ 32

-- `my_syscalls_function`, for the registers `rax`, `rbx`, `rcx` and `rdx`. The calls of the shell
-- for pipes are not among the cases.
unfoldable pub my_syscalls_function : ℕ → List ℕ → System → ℕ → ℕ → ℕ → ℕ → Option CallResult
my_syscalls_function fuel keys s rax rbx rcx rdx =
    let wrote : Option CallResult = sys_write fuel s.memory s.screen (int_arg rbx) rcx >>= λ screen.
    done (record s { screen = screen }) (pos 0) in
    if rax == 3
    then at_user rcx (sys_read fuel keys s (int_arg rbx) rcx (int_arg rdx))
    else if rax == 4
    then at_user rcx wrote
    else if rax == 5
    then at_user rbx (sys_open fuel s rbx)
    else if rax == 6
    then sys_close s (int_arg rbx)
    else if rax == 12
    then at_user rbx (sys_chdir fuel s rbx)
    else if rax == 20
    then done s (fetchpid (current_task s))
    else if rax == 64
    then done s (fetchppid (current_task s))
    else if rax == 59
    then at_user rbx (sys_execvpe fuel s rbx rcx rdx)
    else if rax == 7
    then done (record s { schedule = waitpid s.schedule }) (pos 1)
    else if rax == 2
    then some (forks s)
    else if rax == 162
    then done s (pos 0)
    else if rax == 120
    then done s (pos 0)
    else if rax == 183
    then at_user rbx (done (record s { memory = getcwd s.memory rbx (current_task s).cwd }) (pos 1))
    else if rax == 200
    then at_user rbx (sys_read_dir fuel s rbx)
    else if rax == 270
    then sys_ps s
    else if rax == 14
    then done (record s { screen = clear_screen s.screen }) (pos 0)
    else some (returned s none)
