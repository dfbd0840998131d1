-- ===== src/Loader.antt =====
-- sys/elf64.c: `createvma` and `load_binaries`. The ELF header and the program headers, which the
-- code reads as structures laid over the archive, come as records; so do the regions that `createvma`
-- links, though each takes a page from `kmalloc`. What is copied to the program's own addresses is
-- listed, not written.
pub mod Range
pub mod Segment
pub mod Program
use sbu_operating_system.Prelude.{
  ℕ, zero, suc, ◌+◌, ◌-◌, ◌*◌, ◌/◌, ◌%◌, Bool, ◌||◌, List, [], ◌∷◌, ◌++◌, ◌==◌, if◌then◌else◌, u64,
}
use sbu_operating_system.PhysMemory.{allocate_page, page_size}
use sbu_operating_system.Paging.{kmalloc, map_vir_phy_userspace}
use sbu_operating_system.Faults.{Task, Region, heap_start, stack_start}

-- `Elf64_Phdr`, but for the fields that the loader does not read.
pub record ProgramHeader : Type 0 where
  pub p_type : ℕ
  pub p_flags : ℕ
  pub p_offset : ℕ
  pub p_vaddr : ℕ
  pub p_filesz : ℕ
  pub p_memsz : ℕ

-- A call of `memcpy` into the program.
pub record Copy : Type 0 where
  pub destination : ℕ
  pub source : ℕ
  pub size : ℕ

-- `STACK_MAX_SIZE`
abbrev pub stack_max_size : ℕ
stack_max_size = 40960

-- A new region at the end of the list; its fields are set by the caller.
pub createvma : Task → ℕ → ℕ → ℕ → Task
createvma t vm_start vm_end kind = record t {
  machine = (kmalloc t.machine).1;
  regions = t.regions ++ (record { vm_start = vm_start; vm_end = vm_end; kind = kind } ∷ []);
}

-- A new page, mapped for the user at `address`.
pub map_user_page : Task → ℕ → Task
map_user_page t address =
    let (padd, phys') = allocate_page t.machine.phys in
    record t {
      machine = map_vir_phy_userspace (record t.machine { phys = phys' }) address padd t.cr3;
    }

abbrev pub lower_addr : ℕ → ℕ
lower_addr a = if a % page_size == 0 then a else a / 4096 * 4096

abbrev pub higher_addr : ℕ → ℕ
higher_addr a = if a % page_size == 0 then a else a / 4096 * 4096 + 4096

-- The loop over the pages of a segment, with the rounds that are left.
pub map_pages : ℕ → Task → ℕ → Task
unfolding map_user_page
map_pages zero t i = t
map_pages (suc rounds) t i = map_pages rounds (map_user_page t i) (i + page_size)

pub record Load : Type 0 where
  pub task : Task
  pub copies : List Copy
  pub rsp : ℕ
  pub rip : ℕ

-- The source is `elf_ehdr + p_offset`, which counts in headers of 64 bytes.
pub load_segment : ℕ → Load → ProgramHeader → Load
unfolding createvma map_pages
load_segment elf_ehdr l ph =
    let vm_end = u64 (ph.p_vaddr + ph.p_memsz) in
    let lower = lower_addr ph.p_vaddr in
    let higher = higher_addr vm_end in
    let mapped =
      map_pages ((higher - lower) / page_size) (createvma l.task ph.p_vaddr vm_end 0) lower in
    let copy : Copy = record {
      destination = ph.p_vaddr;
      source = elf_ehdr + 64 * ph.p_offset;
      size = ph.p_filesz;
    } in
    let copied = (ph.p_flags == 5) || (ph.p_flags == 6) in
    if ph.p_type == 1
    then record l { task = mapped; copies = if copied then l.copies ++ (copy ∷ []) else l.copies }
    else l

pub load_segments : ℕ → Load → List ProgramHeader → Load
unfolding load_segment
load_segments elf_ehdr l [] = l
load_segments elf_ehdr l (ph ∷ phs) = load_segments elf_ehdr (load_segment elf_ehdr l ph) phs

-- `load_binaries`, for the header at `elf_ehdr` with the entry point `e_entry`. The region of the
-- stack starts behind its end.
pub load_binaries : ℕ → ℕ → List ProgramHeader → Load → Load
unfolding createvma map_user_page load_segments
load_binaries elf_ehdr e_entry phs l =
    let l1 = load_segments elf_ehdr l phs in
    let t1 = createvma l1.task heap_start (heap_start + 4096) 1 in
    let t2 : Task = record t1 { brk = heap_start } in
    let t3 = map_user_page t2 heap_start in
    let t4 = createvma t3 stack_start (stack_start - stack_max_size) 2 in
    let t5 = map_user_page t4 (stack_start - 0x1000) in
    record l1 { task = t5; rsp = stack_start - 32; rip = e_entry }
