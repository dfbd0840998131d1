-- ===== src/Process/Fork/Outcome.antt =====
-- `fork` as a whole: how it ends, and what it has made then.
use sbu_operating_system.Prelude.{
  ℕ, suc, ◌+◌, ◌-◌, ◌*◌, ◌^◌, ◌≤◌, ◌<◌, ◌≡◌, ◌≢◌, ◌∙◌, ◌⊎◌, ap, arith, refl, inl, inr, true, false,
  Option, none, some, List, [], ◌∷◌, length, ◌==◌, bit_or, update, minus_one, ℤ,
}
use sbu_operating_system.PhysMemory.{allocate_page, find_free_page}
use sbu_operating_system.PhysMemory.Bitmap.{busy}
use sbu_operating_system.PhysMemory.Search.{IsFirstFree, find_free_page_lem}
use sbu_operating_system.PhysMemory.Count.{free_pages, HasFree-free_pages}
use sbu_operating_system.Paging.{Machine, load, kmalloc, virtual_base}
use sbu_operating_system.Paging.Entry.{window_right}
use sbu_operating_system.Paging.Kernel.{kmalloc-free_pages}
use sbu_operating_system.Paging.Map.{Tables}
use sbu_operating_system.Paging.Mmu.{entry}
use sbu_operating_system.Faults.{Region}
use sbu_operating_system.Process.{get_pid}
use sbu_operating_system.Process.Task.{int_of}
use sbu_operating_system.Process.Fork.{
  Processes, copy_regions, child_tables, kernel_mapped, copy_task, start_child, has_page, has_pages,
  fork,
}
use sbu_operating_system.Process.Fork.Child.{
  Forked, early_return-cases, at_update, start_child-Forked,
}
use sbu_operating_system.Process.Fork.Memory.{HasCopy, copied_memory}
use sbu_operating_system.Process.Fork.Quiet.{copy_regions-Quiet}
use sbu_operating_system.Process.Fork.Tables.{tables_below}

has_page-free : (m : Machine) → 0 < free_pages m.phys → has_page m ≡ true
unfolding has_page
has_page-free m h =
    let (q, lt, free) = HasFree-free_pages m.phys h in
    go q lt free (find_free_page m.phys) (find_free_page_lem m.phys)
  where
    go :
        (q : ℕ)
        → q < 16384
        → busy m.phys q ≡ 0
        → (r : Option ℕ) → IsFirstFree (busy m.phys) 0 16384 r
        → (elim r [ some x ↦ true | none ↦ false ]) ≡ true
    go q lt free (some x) f = refl
    go q lt free none f = absurd (omega (arith, f q, free))

has_pages-free :
    (rs : List Region) (m : Machine) → suc (length rs) ≤ free_pages m.phys → has_pages rs m ≡ true
unfolding has_pages
has_pages-free [] m h = has_page-free m (omega arith)
has_pages-free (r ∷ rs) m h =
    let some_free : 0 < free_pages m.phys = omega arith in
    let one = kmalloc-free_pages m some_free in
    rw (has_page-free m some_free) (has_pages-free rs (kmalloc m).1 (omega (arith, one)))

-- Enough pages for what `fork` takes behind the copy of the tables.
pages_left :
    (rs : List Region) (m : Machine)
    → 2 + length rs ≤ free_pages m.phys
    → (has_pages rs m ≡ true) × (has_page (copy_regions rs (kmalloc m).1) ≡ true)
pages_left rs m h =
    let some_free : 0 < free_pages m.phys = omega arith in
    let one = kmalloc-free_pages m some_free in
    let (_, more) = copy_regions-Quiet rs (kmalloc m).1 (omega (arith, one)) in
    (
      has_pages-free rs m (omega arith),
      has_page-free (copy_regions rs (kmalloc m).1) (omega (arith, one, more)),
    )

below : (table : ℕ) → table < 16384 → table * 4096 < 2 ^ 31
below table small = omega arith

some_left : (a b n : ℕ) → 4 + a + b ≤ n → 0 < n
some_left a b n h = omega arith

equal_last : (x y a b : ℕ) → x ≡ a → y ≡ b → (x == y) ≡ true → a ≡ b
equal_last x y a b ex ey h = ground arith

other_last : (x y a b : ℕ) → x ≡ a → y ≡ b → (x == y) ≡ false → a ≢ b
other_last x y a b ex ey h = ground arith

-- The child runs on the page `table` as its first table, and the tables from there on hold a copy of
-- the parent's.
pub record OwnTables (p : Processes) (root table child : ℕ) (p' : Processes) : Type 0 where
  pub cr3 : (p'.tasks child).cr3 ≡ virtual_base + table * 4096
  pub copy : HasCopy p.machine root table p'.machine

-- How `fork` ends: with no number left; with a fault, since the last entry of the child's first table
-- is not the parent's; with no region; or with a child.
abbrev pub Outcome : Processes → ℕ → ℕ → Option (Processes × ℤ) → Type 0
Outcome p root table o =
    let pid = (get_pid p.used).0 in
    let regions = (p.tasks p.schedule.current).regions in
    let child = (kmalloc p.machine).0 in
    let ram = p.machine.ram in
    ((pid ≡ 2 ^ 64 - 1)
      × ((p' : Processes) × (o ≡ some (p', minus_one))
          × (p'.tasks ≡ p.tasks)
          × (p'.schedule ≡ p.schedule)
          × (p'.used ≡ (get_pid p.used).1)))
    ⊎ ((pid ≢ 2 ^ 64 - 1) × (entry ram table 511 ≢ entry ram root 511) × (o ≡ none))
    ⊎ ((pid ≢ 2 ^ 64 - 1)
        × (entry ram table 511 ≡ entry ram root 511)
        × (regions ≡ [])
        × ((p' : Processes) × (o ≡ some (p', minus_one))
            × (p'.schedule ≡ p.schedule)
            × (p'.used ≡ (get_pid p.used).1)))
    ⊎ ((pid ≢ 2 ^ 64 - 1)
        × (entry ram table 511 ≡ entry ram root 511)
        × (regions ≢ [])
        × ((p' : Processes) × (o ≡ some (p', int_of pid))
            × Forked p child pid p'
            × OwnTables p root table child p'))

-- For a task with 20 descriptors, on tables that form a tree of 64-bit words, with a free page for
-- each table, for each region and for four more, `fork` ends in one of four ways. The child's first
-- table stands in `table`, the page that is free once the child's structure has taken the lowest one.
-- With no process number left, the parent gets -1, and tasks and schedule are as before. With a number
-- left, `fork` goes on behind the load of the child's tables only if the last entry that happens to
-- stand in that page is the last entry of the parent's first table; otherwise it faults there. If
-- it goes on without a region, the parent gets -1, the schedule is as before, and the number stays
-- taken. If it goes on with a region, the parent gets the number. The child then has the parent's
-- descriptors, directory, regions and break, the new number and the parent's as its parent; it
-- sleeps and is to run next, and every other task is as before. It runs on tables of its own: where
-- the processor finds a page for the parent, below the last entry of the first table, it finds the
-- same page, with the flags P, R and U, for the child.
pub fork-Forked :
    (p : Processes) (offset rip root : ℕ)
    → let parent = p.tasks p.schedule.current in
      length parent.fds ≡ 20
      → Tables p.machine parent.cr3 root
      → ((f j : ℕ) → j < 512 → entry p.machine.ram f j < 2 ^ 64)
      → 4 + tables_below p.machine.ram 3 511 0 root + length parent.regions
        ≤ free_pages p.machine.phys
      → (table : ℕ) × ((allocate_page (kmalloc p.machine).1.phys).0 ≡ table * 4096)
        × Outcome p root table (fork p offset rip)
unfolding fork copy_task child_tables start_child kernel_mapped
fork-Forked p offset rip root size t words supply =
    let parent = p.tasks p.schedule.current in
    let regions = parent.regions in
    let child = (kmalloc p.machine).0 in
    let (table, at, small, after) =
      copied_memory p.machine parent.cr3 root (parent.kstack - 0x1000) regions t words supply in
    let (copied, _, task) = copy_task p rip in
    let m2 = (child_tables p).1 in
    let (all_left, stack_left) = pages_left regions m2 after.pages in
    let (value, forked) = start_child-Forked p offset rip size in
    let x = load m2 (bit_or (child_tables p).0 virtual_base) 511 in
    let y = load m2 parent.cr3 511 in
    let a = entry p.machine.ram table 511 in
    let b = entry p.machine.ram root 511 in
    (
      table,
      at,
      early_return-cases (Outcome p root table) (has_page p.machine) (get_pid p.used).0
          (kernel_mapped p) (has_pages regions m2) regions (has_page copied.machine)
          (record p { machine = (kmalloc p.machine).1; used = (get_pid p.used).1 }, minus_one)
          (record copied { tasks = update p.tasks child task }, minus_one)
          (start_child copied child task offset) (has_page-free p.machine (some_left _ _ _ supply))
          all_left stack_left (λ none_left. inl (none_left, (_, refl, refl, refl, refl)))
          (λ left stopped.
            inr (inl (left, other_last x y a b after.child_last after.parent_last stopped, refl)))
          (λ left mapped bare. inr (
            inr (
              inl (
                left,
                equal_last x y a b after.child_last after.parent_last mapped,
                bare,
                (_, refl, refl, refl),
              ))))
          (λ left mapped region. inr (
            inr (
              inr (
                left,
                equal_last x y a b after.child_last after.parent_last mapped,
                region,
                (
                  _,
                  refl,
                  forked,
                  record {
                    cr3 =
                        at_update (λ x. x.cr3 ≡ virtual_base + table * 4096) p.tasks child _
                          (ap (λ x. bit_or x virtual_base) at
                            ∙ window_right (table * 4096) (below table small));
                    copy = after.copy;
                  },
                ),
              )))),
    )
