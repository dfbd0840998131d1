-- ===== src/Libc.antt =====
-- libc/*.c: the functions around the system calls. Each puts its arguments into the registers and
-- traps to `my_syscalls_function`; a register that it does not set is 0 here, and is not read by the
-- call. The arrays that the functions copy through come as their addresses.
pub mod Gets
pub mod Close
use sbu_operating_system.Prelude.{
  ℕ, ◌+◌, ◌-◌, ◌%◌, ◌^◌, Bool, true, false, ◌||◌, Option, none, some, List, [], ◌∷◌, length, ◌==◌,
  if◌then◌else◌, ltb, update, ◌>>=◌, ℤ, pos, negsuc, minus_one, codes, zero, suc, u8,
}
use sbu_operating_system.CString.{Memory, memset}
use sbu_operating_system.CString.Read.{read_string}
use sbu_operating_system.Files.Calls.{store_string}
use sbu_operating_system.Keyboard.{Read, line, read_from_stdin}
use sbu_operating_system.Syscalls.{
  System, CallResult, returned, waits, forks, executes, done, my_syscalls_function,
}

-- What the function does once the call has returned.
abbrev pub after : Option CallResult → (System → Option ℤ → Option CallResult) → Option CallResult
after none f = none
after (some (returned s v)) f = f s v
after (some (waits s)) f = some (waits s)
after (some (forks s)) f = some (forks s)
after (some (executes s name argv envp)) f = some (executes s name argv envp)

-- A string copied into an array of 100 bytes; `chdir` and `open` clear it first.
pub copied_name : ℕ → Memory → ℕ → ℕ → Option Memory
copied_name fuel m array path = do
  name ← read_string fuel m path
  if ltb (length name) 100 then some (store_string (memset m array 0 100) array name) else none

abbrev only_minus_one : Option ℤ → Option ℤ
only_minus_one none = none
only_minus_one (some (pos n)) = some (pos 0)
only_minus_one (some (negsuc n)) = some (if n == 0 then minus_one else pos 0)

pub chdir_call : ℕ → List ℕ → System → ℕ → ℕ → Option CallResult
unfolding copied_name
chdir_call fuel keys s array path = do
  m ← copied_name fuel s.memory array path
  after (my_syscalls_function fuel keys (record s { memory = m }) 12 array 0 0)
      (λ s' v. some (returned s' (only_minus_one v)))

pub open_call : ℕ → List ℕ → System → ℕ → ℕ → ℕ → Option CallResult
unfolding copied_name
open_call fuel keys s array path flag = do
  m ← copied_name fuel s.memory array path
  my_syscalls_function fuel keys (record s { memory = m }) 5 array flag 0

-- `close` puts the descriptor into `rcx`, and 0 into `rbx`.
pub close_call : ℕ → List ℕ → System → ℕ → Option CallResult
close_call fuel keys s fd =
    after (my_syscalls_function fuel keys s 6 0 fd 0) (λ s' v. done s' (pos 0))

-- The bytes of a string, without a zero byte behind them.
pub store_bytes : Memory → ℕ → List ℕ → Memory
store_bytes m p [] = m
store_bytes m p (c ∷ s) = store_bytes (update m p c) (p + 1) s

-- The line that the keyboard gives fits an array of that many bytes, with its zero byte.
abbrev pub fits : ℕ → Read → Bool
fits room (line cs k) = ltb (length cs) room
fits room _ = true

-- `gets`, through the array `in` of 1000 bytes, which is cleared again. `none` is a longer line,
-- which the kernel writes past the end of `in`. The room at `input` is the caller's.
pub gets_call : ℕ → List ℕ → System → ℕ → ℕ → Option CallResult
unfolding store_bytes
gets_call fuel keys s array input =
    let copied : Option CallResult =
      after (my_syscalls_function fuel keys s 3 0 array 1000) (λ s' v. (do
        text ← read_string fuel s'.memory array
        let len = length text
        let cleared = memset (store_bytes s'.memory input text) array 0 len
        done (record s' { memory = update cleared (input + len) 0 }) (pos input))) in
    if fits 1000 (read_from_stdin keys s.keyboard) then copied else none

-- `getcwd`, through the array `buffer`; no zero byte is added, and the result is behind the text.
pub getcwd_call : ℕ → List ℕ → System → ℕ → ℕ → ℕ → Option CallResult
unfolding store_bytes
getcwd_call fuel keys s array buf size =
    after (my_syscalls_function fuel keys s 183 array size 0) (λ s' v. (do
      text ← read_string fuel s'.memory array
      done (record s' { memory = store_bytes s'.memory buf text }) (pos (buf + length text))))

-- The copy in `read`, up to and including a zero byte or the byte 255, which is `EOF` as a `char`.
pub copy_until : ℕ → Memory → ℕ → ℕ → Option Memory
copy_until zero m from to = none
copy_until (suc fuel) m from to =
    let m' : Memory = update m to (m from) in
    let rest = copy_until fuel m' (from + 1) (to + 1) in
    if (m from == 0) || (m from == 255) then some m' else rest

-- `read`, through an array of 100 bytes, whatever the size.
pub read_call : ℕ → List ℕ → System → ℕ → ℕ → ℕ → ℕ → Option CallResult
unfolding copy_until
read_call fuel keys s array fd buffer size =
    let cleared : System = record s { memory = memset s.memory array 0 100 } in
    after (my_syscalls_function fuel keys cleared 3 fd array size) (λ s' v. (do
      m ← copy_until fuel s'.memory array buffer
      some (returned (record s' { memory = m }) v)))

pub puts_call : ℕ → List ℕ → System → ℕ → Option CallResult
puts_call fuel keys s text = my_syscalls_function fuel keys s 4 1 text 7

-- `putchar`, through an array of one byte. The call returns 0, so the result is `EOF`.
pub putchar_call : ℕ → List ℕ → System → ℕ → ℕ → Option CallResult
putchar_call fuel keys s array c =
    let stored : System = record s { memory = update s.memory array (u8 c) } in
    after (my_syscalls_function fuel keys stored 4 1 array 1) (λ s' v. (do
      r ← v
      elim r [
        | pos n ↦ done s' (if n == 1 then pos (u8 c) else minus_one)
        | negsuc n ↦ done s' minus_one
      ]))

-- `write`, which puts a space first; `space` is the address of the text " ".
pub write_call : ℕ → List ℕ → System → ℕ → ℕ → ℕ → ℕ → Option CallResult
unfolding puts_call
write_call fuel keys s space fd text count =
    after (puts_call fuel keys s space) (λ s' v. my_syscalls_function fuel keys s' 4 fd text count)

pub getpid_call : ℕ → List ℕ → System → Option CallResult
getpid_call fuel keys s = my_syscalls_function fuel keys s 20 0 0 0

pub getppid_call : ℕ → List ℕ → System → Option CallResult
getppid_call fuel keys s = my_syscalls_function fuel keys s 64 0 0 0

pub clearscreen_call : ℕ → List ℕ → System → Option CallResult
clearscreen_call fuel keys s = my_syscalls_function fuel keys s 14 0 0 0

pub fork_call : ℕ → List ℕ → System → Option CallResult
fork_call fuel keys s = my_syscalls_function fuel keys s 2 0 0 0

pub execve_call : ℕ → List ℕ → System → ℕ → ℕ → ℕ → Option CallResult
execve_call fuel keys s filename argv envp = my_syscalls_function fuel keys s 59 filename argv envp

pub waitpid_call : ℕ → List ℕ → System → ℕ → ℕ → Option CallResult
waitpid_call fuel keys s pid status = my_syscalls_function fuel keys s 7 pid status 0

pub exit_call : ℕ → List ℕ → System → ℕ → Option CallResult
exit_call fuel keys s status = my_syscalls_function fuel keys s 1 status 0 0

-- `pipe`; what it copies to `fdg` before is read by nothing.
pub pipe_call : ℕ → List ℕ → System → ℕ → Option CallResult
pipe_call fuel keys s fdg = my_syscalls_function fuel keys s 42 fdg 0 0

pub dup2_call : ℕ → List ℕ → System → ℕ → ℕ → Option CallResult
dup2_call fuel keys s oldfd newfd = my_syscalls_function fuel keys s 63 oldfd newfd 0

pub wait_call : ℕ → List ℕ → System → ℕ → Option CallResult
wait_call fuel keys s status = my_syscalls_function fuel keys s 114 status 0 0

pub sleep_call : ℕ → List ℕ → System → ℕ → Option CallResult
sleep_call fuel keys s seconds =
    after (my_syscalls_function fuel keys s 162 seconds 0 0)
      (λ s' v. some (returned s' (only_minus_one v)))
