-- ===== src/Tests/Fork.antt =====
-- The copy of page tables at a small tree.
use sbu_operating_system.Prelude.{
  [], ◌∷◌, length, ℕ, ◌+◌, ◌*◌, ◌^◌, ◌≤◌, ◌<◌, ◌≡◌, refl, arith, ◌==◌, if◌then◌else◌,
}
use native.Mathlib.Nat.{le_trans}
use sbu_operating_system.PhysMemory.{allocate_page}
use sbu_operating_system.PhysMemory.Count.{free_below, free_pages, free_below-le-free_pages}
use sbu_operating_system.Paging.{Machine, kmalloc}
use sbu_operating_system.Paging.Map.{Tables}
use sbu_operating_system.Paging.Mmu.{entry}
use sbu_operating_system.Process.Fork.{Processes, copy_parents_pagetables, fork}
use sbu_operating_system.Process.{set_fd_array}
use sbu_operating_system.Process.Task.{TaskStruct}
use sbu_operating_system.Process.Fork.Outcome.{Outcome, fork-Forked}
use sbu_operating_system.Process.Fork.Tables.{tables_below}
use sbu_operating_system.Process.Fork.Translated.{Translated, copy_parents_pagetables-Translated}

-- Pages 1, 3, 4 and 5 hold the tables of the parent, which map address 0 to page 9, and page 6 an
-- empty table of the kernel; page 2 is the child's. Page 8, which is free, still holds the last entry
-- of an older first table.
abbrev machine : Machine
machine = record {
  ram = λ a.
      if a == 0x1000
      then 0x3007
      else if a == 0x3000
      then 0x4007
      else if a == 0x4000
      then 0x5007
      else if a == 0x5000
      then 0x9003
      else if a == 0x1ff8
      then 0x6003
      else if a == 0x8ff8
      then 0x6003
      else 0;
  phys = record { free_list = λ i. if i == 0 then 127 else 0; max_base = 0; max_end = 0 };
}

abbrev level : ℕ → ℕ
level page =
    if page == 1
    then 4
    else if page == 3
    then 3
    else if page == 4
    then 2
    else if page == 5
    then 1
    else if page == 6
    then 3
    else 0

machine-Tables : Tables machine 0xffffffff80001000 1
machine-Tables = record {
  level = level;
  tree = record {
    child = λ f i k lf hi p. ground arith;
    unique = λ f i k g j l lf lg hi hj p q e. ground arith;
    taken = λ f k lf. ground arith;
  };
  level_root = refl;
  at = refl;
}

machine-words : (f j : ℕ) → j < 512 → entry machine.ram f j < 2 ^ 64
machine-words f j hj = word (f * 4096 + 8 * j)
  where
    word : (a : ℕ) → machine.ram a < 2 ^ 64
    word a = ground arith

tables_below-machine : tables_below machine.ram 3 511 0 1 ≡ 3
unfolding tables_below
tables_below-machine = refl

three-le-free_pages : 3 ≤ free_pages machine.phys
unfolding free_below
three-le-free_pages =
    le_trans (omega arith) (free_below-le-free_pages 12 machine.phys (omega arith))

copy_parents_pagetables-Translated_example :
    Translated machine 1 2 (copy_parents_pagetables machine 0xffffffff80001000 (2 * 4096))
unfolding machine-Tables
copy_parents_pagetables-Translated_example =
    copy_parents_pagetables-Translated machine 0xffffffff80001000 1 2 machine-Tables machine-words
      (omega arith) refl refl (omega (arith, tables_below-machine, three-le-free_pages))

abbrev parent : TaskStruct
unfolding set_fd_array
parent = record {
  pid = 1;
  ppid = 1;
  krsp = 0xffffffff8000bfe0;
  kstack = 0xffffffff8000c000;
  rsp = 0;
  task_state = 1;
  fds = set_fd_array;
  cwd = [];
  regions = record { vm_start = 0; vm_end = 0x1000; kind = 0 } ∷ [];
  brk = 0;
  cr3 = 0xffffffff80001000;
  rip = 0;
}

abbrev processes : Processes
processes = record {
  machine = machine;
  used = λ i. if i == 0 then 1 else if i == 1 then 1 else 0;
  schedule = record { current = 20; next = 10; link = λ t. if t == 20 then 10 else 20 };
  tasks = λ t. parent;
}

parent-fds : length parent.fds ≡ 20
unfolding set_fd_array
parent-fds = refl

eight-le-free_pages : 8 ≤ free_pages machine.phys
unfolding free_below
eight-le-free_pages =
    le_trans (omega arith) (free_below-le-free_pages 20 machine.phys (omega arith))

fork-Forked_example :
    (table : ℕ) × ((allocate_page (kmalloc machine).1.phys).0 ≡ table * 4096)
    × Outcome processes 1 table (fork processes 0xffffffff8000bf00 0xffffffff80205000)
unfolding parent
fork-Forked_example =
    fork-Forked processes 0xffffffff8000bf00 0xffffffff80205000 1 parent-fds machine-Tables
      machine-words (omega (arith, tables_below-machine, eight-le-free_pages))
