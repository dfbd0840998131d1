-- ===== src/Paging.antt =====
-- sys/paging.c: building page tables in memory. A table is 512 words of 8 bytes; `ram` gives the
-- word at each physical address. The kernel reaches physical memory through the window at
-- `VIRTUAL`, and before the switch to its own tables also by the plain address.
pub mod Entry
pub mod Mmu
pub mod Memset
pub mod Kernel
pub mod Tree
pub mod Descend
pub mod Leaf
pub mod Map
pub mod Ready
pub mod Frame
use sbu_operating_system.Prelude.{
  ℕ, zero, suc, ◌+◌, ◌-◌, ◌*◌, ◌/◌, ◌%◌, ◌^◌, bit_and, bit_or, Bool, true, false, Option, none,
  some, ltb, leb, ◌==◌, if◌then◌else◌, update, u64,
}
use sbu_operating_system.PhysMemory.{PhysMemory, allocate_page, page_size}

abbrev pub virtual_base : ℕ
virtual_base = 0xffffffff80000000

abbrev pub mask_permission : ℕ
mask_permission = 0xFFFFFFFFFFFFF000

abbrev pub pt_p : ℕ
pt_p = 1

abbrev pub pt_r : ℕ
pt_r = 2

abbrev pub pt_u : ℕ
pt_u = 4

pub record Machine : Type 0 where
  pub ram : ℕ → ℕ
  pub phys : PhysMemory

-- The physical address behind a kernel pointer.
abbrev pub direct : ℕ → ℕ
direct p = if leb virtual_base p then p - virtual_base else p

-- `p[i]` for a `uint64_t *p`.
abbrev pub load : Machine → ℕ → ℕ → ℕ
load m p i = m.ram (direct p + 8 * i)

unfoldable pub store : Machine → ℕ → ℕ → ℕ → Machine
store m p i v = record m { ram = update m.ram (direct p + 8 * i) v }

-- `memset(p, 0, 8 * n)`, a word at a time.
pub zero_words : ℕ → ℕ → (ℕ → ℕ) → ℕ → ℕ
zero_words zero a ram = ram
zero_words (suc n) a ram = zero_words n (a + 8) (update ram a 0)

pub memset_zero : Machine → ℕ → ℕ → Machine
unfolding zero_words
memset_zero m p bytes = record m { ram = zero_words (bytes / 8) (direct p) m.ram }

pub get_pml4_offset : ℕ → ℕ
get_pml4_offset address = bit_and (address / 2 ^ 39) 0x1FF

pub get_pdpt_offset : ℕ → ℕ
get_pdpt_offset address = bit_and (address / 2 ^ 30) 0x1FF

pub get_pdt_offset : ℕ → ℕ
get_pdt_offset address = bit_and (address / 2 ^ 21) 0x1FF

pub get_pt_offset : ℕ → ℕ
get_pt_offset address = bit_and (address / 2 ^ 12) 0x1FF

-- `p|PT_P|PT_R|PT_U` for user space, `p|PT_P|PT_R` for the kernel.
pub with_flags : Bool → ℕ → ℕ
with_flags user p =
    let kernel = bit_or (bit_or p pt_p) pt_r in if user then bit_or kernel pt_u else kernel

-- The branch of an entry that is not present: a new table, cleared and linked.
pub fresh_table : Bool → Machine → ℕ → ℕ → ℕ × Machine
unfolding store memset_zero with_flags
fresh_table user m table offset =
    let (page, phys') = allocate_page m.phys in
    let cleared = memset_zero (record m { phys = phys' }) (bit_or virtual_base page) 4096 in
    (bit_or page virtual_base, store cleared table offset (with_flags user page))

-- One of the three identical steps of a mapping: the table behind the entry at `offset`, which is
-- allocated and cleared if the entry is not present. The result is a pointer into the window.
pub next_table : Bool → Machine → ℕ → ℕ → ℕ × Machine
unfolding fresh_table
next_table user m table offset =
    let entry = load m table offset in
    if bit_and entry pt_p == 0
    then fresh_table user m table offset
    else (bit_or (bit_and entry mask_permission) virtual_base, m)

pub map_page : Bool → Machine → ℕ → ℕ → ℕ → Machine
unfolding next_table
map_page user m vadd padd pml4 =
    let (pdptc, m) = next_table user m pml4 (get_pml4_offset vadd) in
    let (pdtc, m) = next_table user m pdptc (get_pdpt_offset vadd) in
    let (ptc, m) = next_table user m pdtc (get_pdt_offset vadd) in
    store m ptc (get_pt_offset vadd) (with_flags user padd)

-- The tables at the global `pml4`.
pub map_vir_phy : Machine → ℕ → ℕ → ℕ → Machine
unfolding map_page
map_vir_phy m pml4 vadd padd = map_page false m vadd padd pml4

pub map_vir_phy_userspace : Machine → ℕ → ℕ → ℕ → Machine
unfolding map_page
map_vir_phy_userspace m vadd padd pml4_user = map_page true m vadd padd pml4_user

-- A cleared page, by its address in the window.
pub kmalloc : Machine → ℕ × Machine
unfolding memset_zero
kmalloc m =
    let (page, phys') = allocate_page m.phys in
    let address = bit_or page virtual_base in
    (address, memset_zero (record m { phys = phys' }) address 4096)
