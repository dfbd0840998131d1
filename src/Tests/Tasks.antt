-- ===== src/Tests/Tasks.antt =====
-- Descriptors, process numbers, the schedule, page faults and the heap at small states.
use sbu_operating_system.Prelude.{
  ℕ, ◌-◌, ◌^◌, ◌≤◌, ◌<◌, ◌≡◌, ◌⊎◌, inr, refl, arith, none, some, List, [], ◌∷◌, length, ◌==◌,
  if◌then◌else◌, false, pos,
}
use native.Mathlib.Nat.{le_trans}
use sbu_operating_system.PhysMemory.{PhysMemory}
use sbu_operating_system.PhysMemory.Count.{free_below, free_pages, free_below-le-free_pages}
use sbu_operating_system.Paging.Map.{Tables}
use sbu_operating_system.Process.{
  Descriptor, set_fd_array, getfd, close_fd, enter_fd, get_pid, Schedule,
}
use sbu_operating_system.Process.Descriptors.{node_at, open_close}
use sbu_operating_system.Process.Pids.{InUse, get_pid_lem}
use sbu_operating_system.Process.Scheduling.{waits, waits_two}
use sbu_operating_system.Faults.{Task, resumed, in_region, page_fault, malloc}
use sbu_operating_system.Faults.Handler.{Served, Grown, page_fault-Served, page_fault-Grown}
use sbu_operating_system.Faults.Heap.{Granted, malloc-Granted}

abbrev fds : List Descriptor
unfolding set_fd_array
fds = set_fd_array

fds-length : length fds ≡ 20
unfolding set_fd_array
fds-length = refl

getfd-fds : getfd fds ≡ some 3
unfolding getfd set_fd_array
getfd-fds = refl

open_close_example :
    (node_at fds 3 ≡ none)
    × ((j : ℕ) → node_at (enter_fd fds 3 7) j ≡ (if j == 3 then some 7 else node_at fds j))
    × (close_fd (enter_fd fds 3 7) 3 ≡ fds)
open_close_example = open_close fds 3 7 fds-length getfd-fds

abbrev two_used : ℕ → ℕ
two_used i = if i == 0 then 1 else if i == 1 then 1 else 0

get_pid_lem_example :
    let (pid, used') = get_pid two_used in
    ((pid < 2048)
      × (two_used pid ≡ 0)
      × InUse two_used 0 pid
      × ((i : ℕ) → used' i ≡ (if i == pid then 1 else two_used i)))
    ⊎ (InUse two_used 0 2048 × (pid ≡ 2 ^ 64 - 1) × (used' ≡ two_used))
get_pid_lem_example = get_pid_lem two_used

-- Task 20 runs, task 10 is next.
abbrev schedule : Schedule
schedule = record { current = 20; next = 10; link = λ t. if t == 20 then 10 else 20 }

waits_two_example :
    (((waits 3 schedule).current ≡ 20) × ((waits 3 schedule).next ≡ 10))
    ⊎ (((waits 3 schedule).current ≡ 10) × ((waits 3 schedule).next ≡ 20))
waits_two_example = waits_two 3 schedule

abbrev phys : PhysMemory
phys = record { free_list = λ i. if i == 0 then 3 else 0; max_base = 0; max_end = 0 }

-- Page 1 holds the empty tables of a task with one code region.
abbrev task : Task
task = record {
  machine = record { ram = λ a. 0; phys = phys };
  cr3 = 0xffffffff80001000;
  regions = record { vm_start = 0x400000; vm_end = 0x401234; kind = 0 } ∷ [];
  brk = 0x08000000;
}

task-Tables : Tables task.machine 0xffffffff80001000 1
task-Tables = record {
  level = λ page. if page == 1 then 4 else 0;
  tree = record {
    child = λ f i k lf hi p. absurd (omega arith);
    unique = λ f i k g j l lf lg hi hj p q e. absurd (omega arith);
    taken = λ f k lf. ground arith;
  };
  level_root = refl;
  at = refl;
}

four-le-free_pages : 4 ≤ free_pages phys
unfolding free_below
four-le-free_pages = le_trans (omega arith) (free_below-le-free_pages 8 phys (omega arith))

page_fault-Served_example :
    (t' : Task) × (page_fault task 0xFFFEFFF8 ≡ resumed t') × Served task 1 0xFFFEFFF8 t'
page_fault-Served_example =
    page_fault-Served task 1 0xFFFEFFF8 task-Tables four-le-free_pages (omega arith)
      (inr (omega arith))

page_fault-Grown_example :
    (t' : Task) × (page_fault task 0x08003000 ≡ resumed t') × Grown task 1 0x08003000 t'
page_fault-Grown_example =
    page_fault-Grown task 1 0x08003000 task-Tables four-le-free_pages outside (omega arith)
      (omega arith) (omega arith)
  where
    outside : in_region task.regions 0x08003000 ≡ false
    outside = unfold in_region in refl

malloc-Granted_example : Granted 13 0x08000000 (malloc 0 (pos 13) 0x08000000)
malloc-Granted_example = malloc-Granted 0 13 0x08000000 (λ e. refl) (omega arith)
