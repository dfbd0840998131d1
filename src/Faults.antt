-- ===== src/Faults.antt =====
-- sys/irq.c: `my_pagefault_function` and `grow_heap`, and the user's `malloc` of libc/malloc.c.
-- The regions of a task come as the list that `mmap_base` heads; `halted` is the `hlt`.
pub mod Handler
pub mod Heap
use sbu_operating_system.Prelude.{
  ℕ, zero, suc, ◌+◌, ◌-◌, ◌*◌, ◌/◌, ◌%◌, bit_and, bit_or, Bool, Option, none, some, List, [], ◌∷◌,
  leb, ltb, ◌==◌, if◌then◌else◌, ◌&&◌, ℤ, pos, negsuc, u64,
}
use sbu_operating_system.PhysMemory.{allocate_page}
use sbu_operating_system.Paging.{Machine, map_vir_phy_userspace, virtual_base}

pub record Region : Type 0 where
  pub vm_start : ℕ
  pub vm_end : ℕ
  pub kind : ℕ

abbrev pub stack_start : ℕ
stack_start = 0xFFFF0000

abbrev pub stack_end : ℕ
stack_end = 0xFFFF0000 - 4096 * 9

abbrev pub heap_start : ℕ
heap_start = 0x08000000

abbrev pub heap_end : ℕ
heap_end = 0x40000000

-- What the handler reads and writes of the current task, and the machine.
pub record Task : Type 0 where
  pub machine : Machine
  pub cr3 : ℕ
  pub regions : List Region
  pub brk : ℕ

-- The window pointer to the task's tables.
abbrev pub root_pointer : Task → ℕ
root_pointer t = bit_or t.cr3 virtual_base

-- `allocatePage`, then `map_vir_phy_userspace` of the page that it returned.
unfoldable pub map_new_page : Task → ℕ → Task
map_new_page t address =
    let (padd, phys') = allocate_page t.machine.phys in
    record t {
      machine =
          map_vir_phy_userspace (record t.machine { phys = phys' }) address padd (root_pointer t);
    }

pub grow_heap : Task → Task
unfolding map_new_page
grow_heap t =
    if ltb (t.brk + 4096) heap_end then record (map_new_page t t.brk) { brk = t.brk + 4096 } else t

-- The test of the loop over the regions, for the ones of type 0.
unfoldable pub in_region : List Region → ℕ → Bool
in_region [] address = Bool.false
in_region (r ∷ rs) address =
    if (r.kind == 0) && (leb r.vm_start address && leb address r.vm_end)
    then Bool.true
    else in_region rs address

pub data Outcome : Type 0 where
  resumed : Task → Outcome
  halted : Task → Outcome

unfoldable pub page_fault : Task → ℕ → Outcome
unfolding map_new_page grow_heap in_region
page_fault t address =
    if in_region t.regions address
    then resumed (map_new_page t (bit_and address 0xFFFFFF000))
    else if leb stack_end address && ltb address stack_start
    then resumed (map_new_page t (bit_and address 0xFFFFFF000))
    else if leb heap_start address && leb address heap_end
    then resumed (grow_heap t)
    else halted t

-- `malloc`. `stale` is what the variable `a` holds before it is set, which is only done for a size
-- that is no multiple of 8. The result is the address, none for NULL, and the new `heap_ptr`.
pub malloc : ℕ → ℤ → ℕ → Option ℕ × ℕ
malloc stale (negsuc n) heap_ptr = (none, heap_ptr)
malloc stale (pos size) heap_ptr =
    let a = (if size % 8 == 0 then stale else 8) + size / 8 * 8 in
    if ltb heap_end (heap_ptr + a) then (none, heap_ptr) else (some heap_ptr, heap_ptr + a)
