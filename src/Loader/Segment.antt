-- ===== src/Loader/Segment.antt =====
-- What a program finds in memory when a segment is loaded.
use sbu_operating_system.Prelude.{
  ℕ, ◌+◌, ◌-◌, ◌*◌, ◌/◌, ◌%◌, ◌^◌, ◌≤◌, ◌<◌, ◌≡◌, ◌∙◌, ap, refl, arith, [], ◌∷◌, ◌++◌, ◌==◌, u64,
}
use sbu_operating_system.PhysMemory.Count.{free_pages, HasFree-free_pages}
use sbu_operating_system.Paging.{kmalloc}
use sbu_operating_system.Paging.Mmu.{walk}
use sbu_operating_system.Paging.Map.{Tables, SamePage}
use sbu_operating_system.Paging.Kernel.{kmalloc-Cleared, kmalloc-free_pages}
use sbu_operating_system.Paging.Frame.{Tables-Cleared}
use sbu_operating_system.Faults.{Task, root_pointer}
use sbu_operating_system.Loader.{
  ProgramHeader, Load, createvma, lower_addr, higher_addr, load_segment,
}
use sbu_operating_system.Loader.Range.{MapsUser, map_pages-HasPages}

-- The pages of a segment.
abbrev pub pages_of : ProgramHeader → ℕ
pages_of ph = (higher_addr (ph.p_vaddr + ph.p_memsz) - lower_addr ph.p_vaddr) / 4096

-- A loaded segment.
pub record IsLoaded (l : Load) (root : ℕ) (ph : ProgramHeader) (l' : Load) : Type 0 where
  pub tables : Tables l'.task.machine l.task.cr3 root
  pub region :
      l'.task.regions
      ≡ l.task.regions
        ++ (record { vm_start = ph.p_vaddr; vm_end = ph.p_vaddr + ph.p_memsz; kind = 0 } ∷ [])
  pub found :
      (a : ℕ) → ph.p_vaddr ≤ a → a < ph.p_vaddr + ph.p_memsz → MapsUser l'.task.machine.ram root a
  pub others :
      (w : ℕ)
      → ((a : ℕ)
          → lower_addr ph.p_vaddr ≤ a
          → a < higher_addr (ph.p_vaddr + ph.p_memsz)
          → ¬ SamePage w a)
      → walk l'.task.machine.ram 3 root w ≡ walk l.task.machine.ram 3 root w

pub createvma-Tables :
    (t : Task) (root vm_start vm_end kind : ℕ)
    → Tables t.machine t.cr3 root
    → 0 < free_pages t.machine.phys
    → let t' = createvma t vm_start vm_end kind in
      Tables t'.machine t.cr3 root
      × ((v : ℕ) → walk t'.machine.ram 3 root v ≡ walk t.machine.ram 3 root v)
      × (free_pages t.machine.phys ≡ free_pages t'.machine.phys + 1)
unfolding createvma
createvma-Tables t root vm_start vm_end kind tables supply =
    let c = kmalloc-Cleared t.machine (HasFree-free_pages t.machine.phys supply) in
    let (kept, walks) =
      Tables-Cleared t.machine (kmalloc t.machine).1 (kmalloc t.machine).0 t.cr3 root tables c in
    (kept, walks, kmalloc-free_pages t.machine supply)

lower_addr_lem :
    (a : ℕ) → (lower_addr a % 4096 ≡ 0) × (lower_addr a ≤ a) × (a < lower_addr a + 4096)
lower_addr_lem a = (ground arith, ground arith, ground arith)

higher_addr_lem :
    (a : ℕ) → (higher_addr a % 4096 ≡ 0) × (a ≤ higher_addr a) × (higher_addr a < a + 4096)
higher_addr_lem a = (ground arith, ground arith, ground arith)

-- The number of a page of a range that is page aligned.
page_index :
    (lower higher a : ℕ)
    → lower % 4096 ≡ 0
    → higher % 4096 ≡ 0
    → lower ≤ a
    → a < higher
    → let k = a / 4096 - lower / 4096 in
      (k < (higher - lower) / 4096) × SamePage a (lower + 4096 * k)
page_index lower higher a al ah lo hi = (omega arith, ap (λ x. x % 2 ^ 36) (omega arith))

-- On tables that form a tree, with a page free for the region and four for each page of the segment,
-- a loadable segment below 2^47 gets its region and is mapped: every byte of it is on a page of the
-- user's, and pages that it does not touch are translated as before.
pub load_segment-IsLoaded :
    (elf_ehdr root : ℕ) (l : Load) (ph : ProgramHeader)
    → ph.p_type ≡ 1
    → root_pointer l.task ≡ l.task.cr3
    → Tables l.task.machine l.task.cr3 root
    → ph.p_vaddr + ph.p_memsz < 2 ^ 47
    → 4 * pages_of ph + 1 ≤ free_pages l.task.machine.phys
    → IsLoaded l root ph (load_segment elf_ehdr l ph)
unfolding load_segment
load_segment-IsLoaded elf_ehdr root l ph loadable window tables small supply =
    let vm_end = ph.p_vaddr + ph.p_memsz in
    let lower = lower_addr ph.p_vaddr in
    let higher = higher_addr vm_end in
    let (kept, walks, fewer) =
      createvma-Tables l.task root ph.p_vaddr vm_end 0 tables (omega arith) in
    let t1 = createvma l.task ph.p_vaddr vm_end 0 in
    let wraps : u64 vm_end ≡ vm_end = omega arith in
    let (al, under, near) = lower_addr_lem ph.p_vaddr in
    let (ah, over, close) = higher_addr_lem vm_end in
    let p =
      map_pages-HasPages (pages_of ph) t1 root lower (unfold createvma in window)
        (unfold createvma in kept) (omega (arith, fewer)) (omega arith) in
    rw (ap (λ k. k == 1) loadable, wraps)
      (record {
        tables = unfold createvma in p.tables;
        region = p.same.1 ∙ unfold createvma in refl;
        found = λ a lo hi.
            let (k, same) = page_index lower higher a al ah (omega arith) (omega arith) in
            p.found a (a / 4096 - lower / 4096) k same;
        others = λ w apart.
            p.others w (λ k lt s. apart (lower + 4096 * k) (omega arith) (omega arith) s) ∙ walks w;
      })
