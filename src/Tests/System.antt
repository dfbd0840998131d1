-- ===== src/Tests/System.antt =====
-- System calls, the and the library around them, at small states.
use sbu_operating_system.Prelude.{
  ℕ, ◌≡◌, inl, refl, arith, none, List, [], ◌∷◌, ◌++◌, ◌==◌, if◌then◌else◌, false, replicate, pos,
  codes,
}
use sbu_operating_system.Faults.{Region}
use sbu_operating_system.Keyboard.{Keyboard}
use sbu_operating_system.Keyboard.Layout.{us_keyboard}
use sbu_operating_system.Keyboard.Line.{AllPlain}
use sbu_operating_system.Files.Archive.{root_node}
use sbu_operating_system.Process.{Schedule, set_fd_array, close_fd}
use sbu_operating_system.Process.Descriptors.{node_at}
use sbu_operating_system.Process.Task.{TaskStruct}
use sbu_operating_system.Syscalls.{System, done, with_current}
use sbu_operating_system.Libc.{gets_call, close_call}
use sbu_operating_system.Libc.Close.{close_call_zero}
use sbu_operating_system.Libc.Gets.{Typed, gets_call-Typed}
use sbu_operating_system.Shell.Tokens.Pieces.{first_word}
use sbu_operating_system.Shell.Environment.{matches, strcmp1}
use sbu_operating_system.Shell.Main.{initial_vars}
use sbu_operating_system.Shell.Main.Loop.{IsPlain, Executed}
use sbu_operating_system.Shell.Main.Typed.{shell_round, main_round_typed}

abbrev idle : Keyboard
idle = record {
  shift_flag = false;
  control_flag = false;
  scan_flag = false;
  scan_buffer = replicate 1024 0;
  scan_length = 0;
  screen = [];
}

-- Task 20 runs, task 10 is next.
abbrev schedule : Schedule
schedule = record { current = 20; next = 10; link = λ t. if t == 20 then 10 else 20 }

abbrev code_region : Region
code_region = record { vm_start = 0x400000; vm_end = 0x401234; kind = 0 }

abbrev task : TaskStruct
unfolding set_fd_array
task = record {
  pid = 1;
  ppid = 1;
  krsp = 0xffffffff80009fe0;
  kstack = 0xffffffff8000a000;
  rsp = 0;
  task_state = 1;
  fds = set_fd_array;
  cwd = codes "rootfs/";
  regions = code_region ∷ [];
  brk = 0x08000000;
  cr3 = 0xffffffff80001000;
  rip = 0x400000;
}

abbrev system : System
system = record {
  memory = λ a. 0;
  screen = record { cells = λ a. 0; cursor = 0; x = 0; y = 0 };
  keyboard = idle;
  nodes = λ i. root_node;
  schedule = schedule;
  tasks = λ t. task;
}

close_call_zero_example :
    let fds = close_fd task.fds 0 in
    (close_call 5 [] system 3 ≡ done (with_current system (record task { fds = fds })) (pos 0))
    × ((j : ℕ) → node_at fds j ≡ (if j == 0 then none else node_at task.fds j))
close_call_zero_example = close_call_zero 5 [] system 3

-- The keys of "hi".
abbrev hi_keys : List ℕ
hi_keys = 35 ∷ 23 ∷ []

abbrev hi_text : List ℕ
hi_text = b'h' ∷ b'i' ∷ []

hi-AllPlain : AllPlain hi_keys
unfolding us_keyboard
hi-AllPlain = (omega arith, (omega arith, tt))

gets_call-Typed_example :
    Typed system 100 200 hi_text (gets_call 9 (hi_keys ++ (28 ∷ [])) system 100 200)
unfolding us_keyboard
gets_call-Typed_example =
    gets_call-Typed 9 hi_keys system 100 200 refl refl refl refl hi-AllPlain
      (omega arith, (omega arith, tt)) (omega arith) (omega arith) (omega arith) (inl (omega arith))

hi-IsPlain : IsPlain (first_word b' ' hi_text)
unfolding matches strcmp1
hi-IsPlain = record {
  no_pipe = refl;
  no_amp = refl;
  no_cd = refl;
  no_script = refl;
  no_exit = refl;
  no_pwd = refl;
}

main_round_typed_example :
    (s' : System) × (gets_call 9 (hi_keys ++ (28 ∷ [])) system 100 200 ≡ done s' (pos 200))
    × Executed s'.memory initial_vars 200 hi_text
        (shell_round 9 (hi_keys ++ (28 ∷ [])) system initial_vars 100 200)
unfolding us_keyboard
main_round_typed_example =
    main_round_typed 9 hi_keys system initial_vars 100 200 b'h' (b'i' ∷ []) refl refl refl refl
      hi-AllPlain (omega arith) (omega arith) refl (omega arith, (omega arith, tt)) (omega arith)
      (inl (omega arith)) hi-IsPlain
