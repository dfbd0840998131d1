-- ===== src/Libc/Close.antt =====
-- Calls that do not do what their callers mean.
use sbu_operating_system.Prelude.{ℕ, ◌≡◌, refl, none, some, List, ◌==◌, if◌then◌else◌, pos}
use sbu_operating_system.Process.{close_fd}
use sbu_operating_system.Process.Descriptors.{node_at, node_at-close_fd}
use sbu_operating_system.Syscalls.{
  System, current_task, with_current, returned, done, sys_close, my_syscalls_function,
}
use sbu_operating_system.Libc.{close_call, pipe_call, dup2_call, wait_call, exit_call}

-- `close` of the library closes descriptor 0, whatever descriptor it is given, and reports success;
-- every other descriptor stays as it was.
pub close_call_zero :
    (fuel : ℕ) (keys : List ℕ) (s : System) (fd : ℕ)
    → let t = current_task s in
      let fds = close_fd t.fds 0 in
      (close_call fuel keys s fd ≡ done (with_current s (record t { fds = fds })) (pos 0))
      × ((j : ℕ) → node_at fds j ≡ (if j == 0 then none else node_at t.fds j))
unfolding close_call my_syscalls_function sys_close
close_call_zero fuel keys s fd = (refl, λ j. node_at-close_fd (current_task s).fds 0 j)

-- The library's `pipe`, `dup2`, `wait` and `exit` trap with numbers that the kernel does nothing
-- for: the state is as before, the task goes on, and there is no result.
pub calls_without_effect :
    (fuel : ℕ) (keys : List ℕ) (s : System) (a b : ℕ)
    → let nothing = some (returned s none) in
      (pipe_call fuel keys s a ≡ nothing)
      × (dup2_call fuel keys s a b ≡ nothing)
      × (wait_call fuel keys s a ≡ nothing)
      × (exit_call fuel keys s a ≡ nothing)
unfolding pipe_call dup2_call wait_call exit_call my_syscalls_function
calls_without_effect fuel keys s a b = (refl, refl, refl, refl)
