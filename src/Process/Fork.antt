-- ===== src/Process/Fork.antt =====
-- `fork`, `createInitThread` and `execve` of sys/process.c. A task is its address; its structure, its
-- regions and its `mm_struct` come as values, though each of them takes a page from `kmalloc`; for
-- `fork` these pages are told apart from one another, and lie apart from tables. What is printed is
-- left out.
pub mod Child
pub mod Copied
pub mod Memory
pub mod Outcome
pub mod Quiet
pub mod Translated
pub mod Join
pub mod Tables
pub mod Leaves
use sbu_operating_system.Prelude.{
  ℕ, zero, suc, ◌+◌, ◌-◌, ◌*◌, ◌%◌, ◌^◌, bit_and, bit_or, Bool, true, false, Option, none, some,
  List, [], ◌∷◌, ltb, ◌&&◌, ◌==◌, if◌then◌else◌, update, u64, codes, ℤ, pos, minus_one,
}
use sbu_operating_system.PhysMemory.{allocate_page, find_free_page}
use sbu_operating_system.Paging.{Machine, kmalloc, load, store, pt_p, mask_permission, virtual_base}
use sbu_operating_system.Faults.{Region, Task, stack_start}
use sbu_operating_system.Loader.{ProgramHeader, Load, load_binaries}
use sbu_operating_system.Process.{Schedule, fork_links, get_pid, set_fd_array, copy_fd_array}
use sbu_operating_system.Process.Task.{TaskStruct, thread_sleeping, thread_running, int_of}

-- The innermost loop of `copy_parents_pagetables`: an entry of the parent that is present gets the
-- flags P, R and U, and the child gets every entry.
pub copy_pt : ℕ → ℕ → ℕ → ℕ → Machine → Machine
copy_pt zero l parent child m = m
copy_pt (suc rounds) l parent child m =
    let e = load m parent l in
    let shared = bit_or (bit_and e mask_permission) 7 in
    let m1 = if bit_and e pt_p == 0 then m else store m parent l shared in
    copy_pt rounds (l + 1) parent child (store m1 child l (load m1 parent l))

-- The three loops around it, which repeat one body: a new table for each entry that is present. The
-- new table is not cleared.
pub copy_tables : ℕ → ℕ → ℕ → ℕ → ℕ → Machine → Machine
unfolding copy_pt
copy_tables zero rounds i parent child m = copy_pt rounds i parent child m
copy_tables (suc level) zero i parent child m = m
copy_tables (suc level) (suc rounds) i parent child m =
    let e = load m parent i in
    let (page, phys') = allocate_page m.phys in
    let linked = store (record m { phys = phys' }) child i (bit_or page 7) in
    let below = bit_or (bit_and e mask_permission) virtual_base in
    let copied = copy_tables level 512 0 below (bit_or page virtual_base) linked in
    if bit_and e pt_p == 0
    then copy_tables (suc level) rounds (i + 1) parent child m
    else copy_tables (suc level) rounds (i + 1) parent child copied

-- `copy_parents_pagetables`, which leaves out the last entry.
pub copy_parents_pagetables : Machine → ℕ → ℕ → Machine
unfolding copy_tables
copy_parents_pagetables m parent_cr3 child_cr3 =
    copy_tables 3 511 0 parent_cr3 (bit_or child_cr3 virtual_base) m

pub record Processes : Type 0 where
  pub machine : Machine
  pub used : ℕ → ℕ
  pub schedule : Schedule
  pub tasks : ℕ → TaskStruct

-- A page for each region.
pub copy_regions : List Region → Machine → Machine
copy_regions [] m = m
copy_regions (r ∷ rs) m = copy_regions rs (kmalloc m).1

-- `memcpy` of a page, a word at a time.
pub copy_words : ℕ → ℕ → ℕ → ℕ → Machine → Machine
copy_words zero i dest source m = m
copy_words (suc rounds) i dest source m =
    copy_words rounds (i + 1) dest source (store m dest i (load m source i))

-- The part of `fork` behind the regions, for a child with the page `cr3`.
pub start_child : Processes → ℕ → TaskStruct → ℕ → Processes × ℤ
unfolding copy_words
start_child p child t offset =
    let parent = p.tasks p.schedule.current in
    let (stack, m) = kmalloc p.machine in
    let kstack = stack + 0x1000 in
    let krsp = u64 (u64 (kstack - 32 + (2 ^ 64 - parent.krsp)) + offset) in
    let m' = copy_words 512 0 stack (parent.kstack - 0x1000) m in
    let t' : TaskStruct = record t {
      rsp = stack_start - 32;
      task_state = thread_sleeping;
      kstack = kstack;
      krsp = krsp;
    } in
    (
      record p {
        machine = m';
        schedule = fork_links p.schedule child;
        tasks = update p.tasks child t';
      },
      int_of t.pid,
    )

-- The page of the first table of the child, and memory once the tables are copied.
pub child_tables : Processes → ℕ × Machine
unfolding copy_parents_pagetables
child_tables p =
    let m1 = (kmalloc p.machine).1 in
    let (page, phys') = allocate_page m1.phys in
    let taken : Machine = record m1 { phys = phys' } in
    (page, copy_parents_pagetables taken (p.tasks p.schedule.current).cr3 page)

-- Once the child's tables are loaded, the processor finds the next instruction through their last
-- entry: the kernel goes on if it is the entry through which the parent's tables map the kernel.
pub kernel_mapped : Processes → Bool
kernel_mapped p =
    let (page, m) = child_tables p in
    load m (bit_or page virtual_base) 511 == load m (p.tasks p.schedule.current).cr3 511

-- The part of `fork` up to the regions: the state, the child and its structure. `rip` is the place
-- where the child goes on.
pub copy_task : Processes → ℕ → Processes × ℕ × TaskStruct
unfolding child_tables copy_regions
copy_task p rip =
    let parent = p.tasks p.schedule.current in
    let child = (kmalloc p.machine).0 in
    let (pid, used') = get_pid p.used in
    let (page, m2) = child_tables p in
    let t : TaskStruct = record {
      pid = pid;
      ppid = parent.pid;
      krsp = 0;
      kstack = 0;
      rsp = 0;
      task_state = 0;
      fds = copy_fd_array set_fd_array parent.fds;
      cwd = parent.cwd;
      regions = parent.regions;
      brk = parent.brk;
      cr3 = bit_or page virtual_base;
      rip = rip;
    } in
    (record p { machine = copy_regions parent.regions (kmalloc m2).1; used = used' }, child, t)

-- A page is left for `kmalloc`. Without one it gives page 0, for everything that it is asked for.
pub has_page : Machine → Bool
has_page m = elim (find_free_page m.phys) [ some q ↦ true | none ↦ false ]

-- A page is left for the `mm_struct` and for each region.
pub has_pages : List Region → Machine → Bool
unfolding has_page
has_pages [] m = has_page m
has_pages (r ∷ rs) m = let rest = has_pages rs (kmalloc m).1 in has_page m && rest

-- The ways through `fork`: no page for the task; no number left; no kernel in the tables that are
-- loaded; no page for what follows; no region; no page for the stack; a child.
abbrev pub early_return :
    {A : Type 0} → Bool → Bool → Bool → Bool → List Region → Bool → A → A → A → Option A
early_return false full? mapped? pages? rs stack? full empty child = none
early_return true true mapped? pages? rs stack? full empty child = some full
early_return true false false pages? rs stack? full empty child = none
early_return true false true false rs stack? full empty child = none
early_return true false true true [] stack? full empty child = some empty
early_return true false true true (r ∷ rs) false full empty child = none
early_return true false true true (r ∷ rs) true full empty child = some child

-- `fork`, as the parent returns from it; `offset` is its stack pointer. `none` is a fault behind the
-- load of the child's tables, or a page 0 that stands for several structures. With no number left,
-- the new page is in no list, and is no task.
pub fork : Processes → ℕ → ℕ → Option (Processes × ℤ)
unfolding kernel_mapped copy_task start_child has_pages
fork p offset rip =
    let (copied, child, t) = copy_task p rip in
    let regions = (p.tasks p.schedule.current).regions in
    early_return (has_page p.machine) ((get_pid p.used).0 == 2 ^ 64 - 1) (kernel_mapped p)
      (has_pages regions (child_tables p).1) regions (has_page copied.machine)
      (record p { machine = (kmalloc p.machine).1; used = (get_pid p.used).1 }, minus_one)
      (record copied { tasks = update p.tasks child t }, minus_one)
      (start_child copied child t offset)

-- What the loader works on, of a task.
abbrev pub load_of : Machine → TaskStruct → Load
load_of m t = record {
  task = record { machine = m; cr3 = t.cr3; regions = t.regions; brk = t.brk };
  copies = [];
  rsp = t.rsp;
  rip = t.rip;
}

abbrev pub with_load : TaskStruct → Load → TaskStruct
with_load t l = record t { regions = l.task.regions; brk = l.task.brk; rsp = l.rsp; rip = l.rip }

-- `execve` up to the switch to user code, for a program with the header at `elf_ehdr`: the task gets a
-- new `mm_struct` and no region, and keeps its tables.
pub execve : Processes → ℕ → ℕ → List ProgramHeader → Processes
execve p elf_ehdr e_entry phs =
    let t = p.tasks p.schedule.current in
    let m = (kmalloc p.machine).1 in
    let l = load_binaries elf_ehdr e_entry phs (load_of m (record t { regions = []; brk = 0 })) in
    record p { machine = l.task.machine; tasks = update p.tasks p.schedule.current (with_load t l) }

abbrev fresh_task : ℕ → ℕ → TaskStruct
fresh_task pid ppid = record {
  pid = pid;
  ppid = ppid;
  krsp = 0;
  kstack = 0;
  rsp = 0;
  task_state = 0;
  fds = set_fd_array;
  cwd = [];
  regions = [];
  brk = 0;
  cr3 = 0;
  rip = 0;
}

-- `createInitThread` up to the switch to user code: a task for the kernel with the tables that are
-- loaded, and one for the shell, whose tables have the last entry of the kernel's. `code` is the
-- address of `switch_to_ring3`.
pub create_init_thread : Processes → ℕ → ℕ → ℕ → ℕ → List ProgramHeader → Processes
create_init_thread p cr3 code elf_ehdr e_entry phs =
    let (thread1, m1) = kmalloc p.machine in
    let (pid1, used1) = get_pid p.used in
    let (stack1, m2) = kmalloc m1 in
    let rsp1 = stack1 + 0x1000 - 32 in
    let kernel_cr3 = bit_or cr3 virtual_base in
    let t1 : TaskStruct = record (fresh_task pid1 0) {
      kstack = stack1 + 0x1000;
      rsp = rsp1;
      cr3 = kernel_cr3;
      task_state = thread_sleeping;
    } in
    let (thread2, m3) = kmalloc (store m2 rsp1 0 code) in
    let (pid2, used2) = get_pid used1 in
    let (user_cr3, m4) = kmalloc m3 in
    let m5 = store m4 user_cr3 511 (load m4 kernel_cr3 511) in
    let m6 = (kmalloc m5).1 in
    let (stack2, m7) = kmalloc m6 in
    let t2 : TaskStruct = record (fresh_task pid2 pid2) {
      cr3 = user_cr3;
      task_state = thread_running;
      cwd = codes "rootfs/";
      kstack = stack2 + 0x1000;
      krsp = stack2 + 0x1000 - 32;
    } in
    let l = load_binaries elf_ehdr e_entry phs (load_of m7 t2) in
    record {
      machine = l.task.machine;
      used = used2;
      schedule = record {
        current = thread2;
        next = thread1;
        link = update (update p.schedule.link thread2 thread1) thread1 thread2;
      };
      tasks = update (update p.tasks thread1 t1) thread2 (with_load t2 l);
    }
