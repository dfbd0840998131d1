-- ===== src/Loader/Program/Loaded.antt =====
-- What a whole program finds in memory.
use sbu_operating_system.Prelude.{
  ℕ, ◌+◌, ◌-◌, ◌*◌, ◌/◌, ◌%◌, ◌^◌, ◌≤◌, ◌<◌, ◌≡◌, ◌∙◌, ap, subst, refl, arith, List, [], ◌∷◌, ◌==◌,
  Bool-cases, inl, inr, u64,
}
use sbu_operating_system.PhysMemory.Count.{free_pages}
use sbu_operating_system.Paging.Map.{SamePage}
use sbu_operating_system.Faults.{Task, heap_start, stack_start}
use sbu_operating_system.Loader.{
  stack_max_size, ProgramHeader, Load, createvma, map_user_page, map_pages, load_segment,
  load_segments, load_binaries, lower_addr,
}
use sbu_operating_system.Loader.Range.{MapsUser, map_user_page-HasPage}
use sbu_operating_system.Loader.Segment.{pages_of, load_segment-IsLoaded}
use sbu_operating_system.Loader.Program.{
  IsReady, Keeps, Keeps-refl, Keeps-trans, createvma-Keeps, HasPage-Keeps, map_pages-Keeps,
}

load_segment-Keeps :
    (elf_ehdr root : ℕ) (l : Load) (ph : ProgramHeader)
    → IsReady l.task root
    → ph.p_vaddr + ph.p_memsz < 2 ^ 47
    → 4 * pages_of ph + 1 ≤ free_pages l.task.machine.phys
    → Keeps l.task root (4 * pages_of ph + 1) (load_segment elf_ehdr l ph).task
unfolding load_segment
load_segment-Keeps elf_ehdr root l ph r low supply = elim (Bool-cases (ph.p_type == 1)) [
  | inl loadable ↦
      let t = createvma l.task ph.p_vaddr (ph.p_vaddr + ph.p_memsz) 0 in
      let a = createvma-Keeps l.task root ph.p_vaddr (ph.p_vaddr + ph.p_memsz) 0 r (omega arith) in
      let b =
        map_pages-Keeps (pages_of ph) t root (lower_addr ph.p_vaddr) a.ready
          (omega (arith, a.supply)) in
      let cost : 1 + 4 * pages_of ph ≡ 4 * pages_of ph + 1 = omega arith in
      let wraps : u64 (ph.p_vaddr + ph.p_memsz) ≡ ph.p_vaddr + ph.p_memsz = omega arith in
      rw (loadable, wraps)
        (subst (λ c. Keeps l.task root c (map_pages (pages_of ph) t (lower_addr ph.p_vaddr))) cost
          (Keeps-trans l.task t (map_pages (pages_of ph) t (lower_addr ph.p_vaddr)) root 1
            (4 * pages_of ph) a b))
  | inr other ↦
      let k = Keeps-refl l.task root r in
      rw other (record { ready = k.ready; mapped = k.mapped; supply = omega arith })
]

-- The pages that loading the segments takes at most.
abbrev pub cost_of : List ProgramHeader → ℕ
cost_of [] = 0
cost_of (ph ∷ phs) = 4 * pages_of ph + 1 + cost_of phs

-- Every byte of every loadable segment is on a page of the user's.
abbrev pub AllMapped : (ℕ → ℕ) → ℕ → List ProgramHeader → Type 0
AllMapped ram root [] = Unit
AllMapped ram root (ph ∷ phs) =
    (ph.p_type ≡ 1 → (a : ℕ) → ph.p_vaddr ≤ a → a < ph.p_vaddr + ph.p_memsz → MapsUser ram root a)
    × AllMapped ram root phs

-- The segments end below 2^47.
abbrev pub AllLow : List ProgramHeader → Type 0
AllLow [] = Unit
AllLow (ph ∷ phs) = (ph.p_vaddr + ph.p_memsz < 2 ^ 47) × AllLow phs

AllMapped-Keeps :
    (t t' : Task) (root cost : ℕ) (phs : List ProgramHeader)
    → Keeps t root cost t'
    → AllMapped t.machine.ram root phs
    → AllMapped t'.machine.ram root phs
AllMapped-Keeps t t' root cost [] k h = tt
AllMapped-Keeps t t' root cost (ph ∷ phs) k h =
    (λ e a lo hi. k.mapped a (h.0 e a lo hi), AllMapped-Keeps t t' root cost phs k h.1)

load_segments-Keeps :
    (elf_ehdr root : ℕ) (l : Load) (phs : List ProgramHeader)
    → IsReady l.task root
    → AllLow phs
    → cost_of phs ≤ free_pages l.task.machine.phys
    → let l' = load_segments elf_ehdr l phs in
      Keeps l.task root (cost_of phs) l'.task × AllMapped l'.task.machine.ram root phs
unfolding load_segments
load_segments-Keeps elf_ehdr root l [] r low supply = (Keeps-refl l.task root r, tt)
load_segments-Keeps elf_ehdr root l (ph ∷ phs) r low supply =
    let l1 = load_segment elf_ehdr l ph in
    let one = load_segment-Keeps elf_ehdr root l ph r low.0 (omega arith) in
    let (rest, mapped) =
      load_segments-Keeps elf_ehdr root l1 phs one.ready low.1 (omega (arith, one.supply)) in
    let l2 = load_segments elf_ehdr l1 phs in
    (
      Keeps-trans l.task l1.task l2.task root (4 * pages_of ph + 1) (cost_of phs) one rest,
      (
        λ e a lo hi.
            let loaded =
              load_segment-IsLoaded elf_ehdr root l ph e r.window r.tables low.0 (omega arith) in
            rest.mapped a (loaded.found a lo hi),
        mapped,
      ),
    )

heap_page : (a : ℕ) → heap_start ≤ a → a < heap_start + 4096 → SamePage a heap_start
heap_page a lo hi =
    let page : a / 4096 ≡ heap_start / 4096 = omega arith in ap (λ x. x % 2 ^ 36) page

stack_page : (a : ℕ) → stack_start ≤ a + 4096 → a < stack_start → SamePage a (stack_start - 0x1000)
stack_page a lo hi =
    let page : a / 4096 ≡ (stack_start - 0x1000) / 4096 = omega arith in ap (λ x. x % 2 ^ 36) page

-- A task with its program loaded.
pub record HasProgram (l : Load) (root : ℕ) (phs : List ProgramHeader) (e_entry : ℕ) (l' : Load)
    : Type 0 where
  pub ready : IsReady l'.task root
  pub segments : AllMapped l'.task.machine.ram root phs
  pub heap : (a : ℕ) → heap_start ≤ a → a < heap_start + 4096 → MapsUser l'.task.machine.ram root a
  pub stack :
      (a : ℕ) → stack_start ≤ a + 4096 → a < stack_start → MapsUser l'.task.machine.ram root a
  pub others : (w : ℕ) → MapsUser l.task.machine.ram root w → MapsUser l'.task.machine.ram root w
  pub starts : (l'.rip ≡ e_entry) × (l'.rsp ≡ stack_start - 32) × (l'.task.brk ≡ heap_start)

-- For a task that is ready, and with enough free pages, loading a program with segments below 2^47
-- leaves the task ready. Every byte of every loadable segment, of the first page of the heap and of
-- the last page of the stack is on a page of the user's, and so is every byte that was before. The
-- task starts at the entry point, with the stack pointer 32 bytes below the end of the stack and the
-- break at the start of the heap.
pub load_binaries-HasProgram :
    (elf_ehdr e_entry root : ℕ) (phs : List ProgramHeader) (l : Load)
    → IsReady l.task root
    → AllLow phs
    → cost_of phs + 10 ≤ free_pages l.task.machine.phys
    → HasProgram l root phs e_entry (load_binaries elf_ehdr e_entry phs l)
unfolding load_binaries
load_binaries-HasProgram elf_ehdr e_entry root phs l r low supply =
    let (k1, mapped) = load_segments-Keeps elf_ehdr root l phs r low (omega arith) in
    let l1 = load_segments elf_ehdr l phs in
    let t1 = createvma l1.task heap_start (heap_start + 4096) 1 in
    let c1 =
      createvma-Keeps l1.task root heap_start (heap_start + 4096) 1 k1.ready
        (omega (arith, k1.supply)) in
    let t2 : Task = record t1 { brk = heap_start } in
    let r2 : IsReady t2 root = record { window = c1.ready.window; tables = c1.ready.tables } in
    let heap =
      map_user_page-HasPage t2 root heap_start r2.window r2.tables
        (omega (arith, k1.supply, c1.supply)) in
    let t3 = map_user_page t2 heap_start in
    let k3 = HasPage-Keeps t2 t3 root heap_start r2 heap in
    let t4 = createvma t3 stack_start (stack_start - stack_max_size) 2 in
    let c4 =
      createvma-Keeps t3 root stack_start (stack_start - stack_max_size) 2 k3.ready
        (omega (arith, k1.supply, c1.supply, k3.supply)) in
    let t5 = map_user_page t4 (stack_start - 0x1000) in
    let stack =
      map_user_page-HasPage t4 root (stack_start - 0x1000) c4.ready.window c4.ready.tables
        (omega (arith, k1.supply, c1.supply, k3.supply, c4.supply)) in
    let k5 = HasPage-Keeps t4 t5 root (stack_start - 0x1000) c4.ready stack in
    let late : Keeps t3 root 5 t5 = Keeps-trans t3 t4 t5 root 1 4 c4 k5 in
    let early : Keeps l1.task root 5 t3 =
      Keeps-trans l1.task t2 t3 root 1 4
        (record { ready = r2; mapped = c1.mapped; supply = c1.supply }) k3 in
    let all : Keeps l1.task root 10 t5 = Keeps-trans l1.task t3 t5 root 5 5 early late in
    record {
      ready = all.ready;
      segments = AllMapped-Keeps l1.task t5 root 10 phs all mapped;
      heap = λ a lo hi. late.mapped a (heap.found a (heap_page a lo hi));
      stack = λ a lo hi. stack.found a (stack_page a lo hi);
      others = λ w h. all.mapped w (k1.mapped w h);
      starts = (refl, refl, stack.same.2 ∙ unfold createvma in heap.same.2);
    }
