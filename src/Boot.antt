-- ===== src/Boot.antt =====
-- `start` of sys/main.c up to its own page tables, and `setUpPageTables` of sys/paging.c with what it
-- calls. What is printed is left out. The loops over addresses run on fuel; `none` is fuel that ran
-- out.
pub mod MemoryMap
pub mod Window
use sbu_operating_system.Prelude.{
  ℕ, zero, suc, ◌+◌, ◌-◌, ◌*◌, ◌/◌, ◌%◌, ◌^◌, ◌&&◌, not, bit_or, Bool, true, false, Option, none,
  some, List, [], ◌∷◌, ltb, leb, ◌==◌, if◌then◌else◌, u64, ◌>>=◌,
}
use sbu_operating_system.PhysMemory.{PhysMemory, make_free_list, allocate_page, page_size}
use sbu_operating_system.Paging.{
  Machine, virtual_base, store, memset_zero, with_flags, map_vir_phy, get_pml4_offset,
  get_pdpt_offset, get_pdt_offset, get_pt_offset,
}

-- `struct smap_t`
pub record SmapEntry : Type 0 where
  pub base : ℕ
  pub length : ℕ
  pub kind : ℕ

-- The loop over the modules that the boot loader hands over, as words of 32 bits; `i` is the index
-- of the word at `modulep`.
pub find_map : ℕ → (ℕ → ℕ) → ℕ → Option ℕ
find_map zero words i = none
find_map (suc fuel) words i =
    let rest = find_map fuel words (i + (words (i + 1) + 2) % 2 ^ 32) in
    if words i == 0x9001 then some i else rest

-- The entry at the word `i`; an entry has 20 bytes.
pub smap_at : (ℕ → ℕ) → ℕ → SmapEntry
smap_at words i = record {
  base = words i + words (i + 1) * 2 ^ 32;
  length = words (i + 2) + words (i + 3) * 2 ^ 32;
  kind = words (i + 4);
}

-- The entries that the loop over the map reads, in as many rounds as there are entries that start
-- before the end.
pub smap_entries : ℕ → (ℕ → ℕ) → ℕ → List SmapEntry
unfolding smap_at
smap_entries zero words i = []
smap_entries (suc rounds) words i = smap_at words i ∷ smap_entries rounds words (i + 5)

pub memory_map : (ℕ → ℕ) → ℕ → List SmapEntry
unfolding smap_entries
memory_map words i = smap_entries ((words (i + 1) + 19) / 20) words (i + 2)

abbrev pub is_usable : SmapEntry → Bool
is_usable e = (e.kind == 1) && not (e.length == 0)

-- The test on `maxEnd`, which is the variable of sys/physmemory.c.
pub note_longest : SmapEntry → PhysMemory → PhysMemory
note_longest e s =
    if ltb s.max_end e.length then record s { max_end = e.length; max_base = e.base } else s

-- The loop over the map.
pub enter_map : ℕ → ℕ → List SmapEntry → PhysMemory → Option PhysMemory
unfolding note_longest
enter_map physbase physfree [] s = some s
enter_map physbase physfree (e ∷ es) s =
    let entered : Option PhysMemory = (do
      s' ← make_free_list physbase physfree e.base (u64 (e.base + e.length)) s
      enter_map physbase physfree es (note_longest e s')) in
    let skipped = enter_map physbase physfree es s in if is_usable e then entered else skipped

-- The global pointers of sys/paging.c, and that to the free list.
pub record Globals : Type 0 where
  pub machine : Machine
  pub pml4 : ℕ
  pub pdpt : ℕ
  pub pdt : ℕ
  pub pt : ℕ
  pub cr3 : ℕ
  pub free_list : ℕ

-- One of the four new tables, of which the first 512 bytes are cleared.
pub short_table : Machine → ℕ × Machine
short_table m =
    let (page, phys') = allocate_page m.phys in
    (page, memset_zero (record m { phys = phys' }) page 512)

-- The loop over the pages of the kernel.
pub map_kernel_pages : ℕ → ℕ → ℕ → ℕ → ℕ → Machine → Option Machine
map_kernel_pages zero pt offset physbase physfree m = none
map_kernel_pages (suc fuel) pt offset physbase physfree m =
    let mapped = store m pt offset (with_flags false physbase) in
    let rest = map_kernel_pages fuel pt (offset + 1) (u64 (physbase + 0x1000)) physfree mapped in
    if leb physbase physfree then rest else some m

-- `map_kernel_space`; `kernmem` is the address of the kernel's symbol.
pub map_kernel_space : ℕ → ℕ → ℕ → ℕ → Globals → Option Globals
unfolding short_table map_kernel_pages
map_kernel_space fuel kernmem physbase physfree g =
    let (pml4, m1) = short_table g.machine in
    let (pdpt, m2) = short_table m1 in
    let (pdt, m3) = short_table m2 in
    let (pt, m4) = short_table m3 in
    let m5 = store m4 pml4 (get_pml4_offset kernmem) (with_flags false pdpt) in
    let m6 = store m5 pdpt (get_pdpt_offset kernmem) (with_flags false pdt) in
    let m7 = store m6 pdt (get_pdt_offset kernmem) (with_flags false pt) in
    do
      m ← map_kernel_pages fuel pt (get_pt_offset kernmem) physbase physfree m7
      some (record g { machine = m; pml4 = pml4; pdpt = pdpt; pdt = pdt; pt = pt; cr3 = pml4 })

-- The loop of `identity_mapping`.
pub map_window : ℕ → ℕ → ℕ → ℕ → Machine → Option Machine
map_window zero pml4 pstart max m = none
map_window (suc fuel) pml4 pstart max m =
    let mapped = map_vir_phy m pml4 (bit_or virtual_base pstart) pstart in
    let rest = map_window fuel pml4 (u64 (pstart + page_size)) max mapped in
    if leb pstart max then rest else some m

pub identity_mapping : ℕ → ℕ → Globals → Option Globals
unfolding map_window
identity_mapping fuel max g = do
  m ← map_window fuel g.pml4 0 max g.machine
  some (record g { machine = m })

pub map_freelist : Globals → Globals
map_freelist g =
    let address = bit_or g.free_list virtual_base in
    record g { machine = map_vir_phy g.machine g.pml4 address g.free_list; free_list = address }

-- `map_video_memory`, whose table is not cleared.
pub map_video_memory : Globals → Globals
map_video_memory g =
    let video_virtual : ℕ = 0xffffffff800b8000 in
    let (page, phys') = allocate_page g.machine.phys in
    let m : Machine = record g.machine { phys = phys' } in
    let linked = store m g.pdt (get_pdt_offset video_virtual) (with_flags false page) in
    record g {
      machine = store linked page (get_pt_offset video_virtual) (with_flags false 0xb8000);
    }

-- `map_tables`: each of the four tables is mapped through the tables, and is reached by its address
-- in the window from then on.
pub map_tables : Globals → Globals
map_tables g =
    let pml4v = bit_or g.pml4 virtual_base in
    let m1 = map_vir_phy g.machine g.pml4 pml4v g.pml4 in
    let pdptv = bit_or g.pdpt virtual_base in
    let m2 = map_vir_phy m1 pml4v pdptv g.pdpt in
    let pdtv = bit_or g.pdt virtual_base in
    let m3 = map_vir_phy m2 pml4v pdtv g.pdt in
    let ptv = bit_or g.pt virtual_base in
    let m4 = map_vir_phy m3 pml4v ptv g.pt in
    record g { machine = m4; pml4 = pml4v; pdpt = pdptv; pdt = pdtv; pt = ptv }

pub set_up_page_tables : ℕ → ℕ → ℕ → ℕ → ℕ → Globals → Option Globals
unfolding map_kernel_space map_freelist map_video_memory map_tables identity_mapping
set_up_page_tables fuel kernmem physbase physfree max g = do
  g1 ← map_kernel_space fuel kernmem physbase physfree g
  identity_mapping fuel max (map_tables (map_video_memory (map_freelist g1)))

-- `start` up to the load of `cr3`.
pub start : ℕ → (ℕ → ℕ) → ℕ → ℕ → ℕ → ℕ → Machine → Option Globals
unfolding find_map memory_map enter_map set_up_page_tables
start fuel words modulep kernmem physbase physfree m = do
  i ← find_map fuel words modulep
  phys ← enter_map physbase physfree (memory_map words i) m.phys
  let entered : Machine = record m { phys = phys }
  set_up_page_tables fuel kernmem physfree (u64 (physfree + 0x1000))
      (u64 (phys.max_base + phys.max_end))
      (record {
        machine = entered;
        pml4 = 0;
        pdpt = 0;
        pdt = 0;
        pt = 0;
        cr3 = 0;
        free_list = physfree;
      })
