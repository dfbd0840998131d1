-- ===== src/Process/Fork/Memory.antt =====
-- The memory of the child that `fork` makes.
use sbu_operating_system.Prelude.{
  ℕ, zero, suc, ◌+◌, ◌*◌, ◌^◌, ◌≤◌, ◌<◌, ◌≡◌, ◌≢◌, ◌∙◌, ap, sym, arith, refl, inl, inr, List,
  length, ◌==◌, Bool-cases, subst, some, bit_or,
}
use sbu_operating_system.PhysMemory.{PhysMemory, allocate_page}
use sbu_operating_system.PhysMemory.Bitmap.{busy}
use sbu_operating_system.PhysMemory.Allocate.{allocate_page-Allocated}
use sbu_operating_system.PhysMemory.Count.{free_pages, HasFree-free_pages, free_pages-allocate_page}
use sbu_operating_system.Paging.{Machine, direct, load, kmalloc, virtual_base}
use sbu_operating_system.Paging.Entry.{direct_window, window_right}
use sbu_operating_system.Faults.{Region}
use sbu_operating_system.Process.Fork.Leaves.{load_at}
use sbu_operating_system.Paging.Kernel.{Cleared, kmalloc-Cleared, kmalloc-free_pages}
use sbu_operating_system.Paging.Frame.{Cleared-SameEntries, Tables-Cleared, IsTree-frame}
use sbu_operating_system.Paging.Mmu.{entry, index, walk}
use sbu_operating_system.Paging.Map.{Tables}
use sbu_operating_system.Paging.Tree.{IsTree}
use sbu_operating_system.Process.Fork.{copy_parents_pagetables, copy_regions, copy_words}
use sbu_operating_system.Process.Fork.Copied.{flagged, Matches-later, walk-Matches}
use sbu_operating_system.Process.Fork.Tables.{tables_below, tables_below-same}
use sbu_operating_system.Process.Fork.Join.{taken_still, taken_now}
use sbu_operating_system.Process.Fork.Translated.{copy_parents_pagetables-CopiedWithin}
use sbu_operating_system.Process.Fork.Quiet.{
  Quiet, Quiet-trans, kmalloc-Quiet, copy_regions-Quiet, filled-Quiet,
}

-- The copies in `m'` of the tables that stood at `root` in `m`, with the pages that were taken.
pub record HasCopy (m : Machine) (root table : ℕ) (m' : Machine) : Type 0 where
  pub copies :
      (v e : ℕ)
      → index 3 v < 511
      → walk m.ram 3 root v ≡ some e
      → walk m'.ram 3 table v ≡ some (flagged e)

-- A copy stays while memory is quiet.
copies-Quiet :
    (m m2 m3 : Machine) (parent_cr3 root table : ℕ) (t : Tables m parent_cr3 root)
    → ((f j : ℕ) → j < 512 → entry m.ram f j < 2 ^ 64)
    → table < 2 ^ 19
    → t.level table ≡ 0
    → busy m.phys table ≡ 1
    → tables_below m.ram 3 511 0 root ≤ free_pages m.phys
    → m2 ≡ copy_parents_pagetables m parent_cr3 (table * 4096)
    → Quiet m2 m3
    → HasCopy m root table m3
copies-Quiet m m2 m3 parent_cr3 root table t words small free taken supply e quiet =
    let done =
      (copy_parents_pagetables-CopiedWithin m parent_cr3 root table t words small free taken
        supply).copied in
    let m' = copy_parents_pagetables m parent_cr3 (table * 4096) in
    let q = subst (λ x. Quiet x m3) e quiet in
    let root_taken = (t.tree.taken root 3 t.level_root).1 in
    let apart : table ≢ root =
      λ same. absurd (omega (arith, free, t.level_root, ap t.level same)) in
    record {
      copies = λ v x lt found.
          walk-Matches t.level m.ram m.phys m.phys m3 3 root table v x
            (Matches-later t.level m.ram m.phys m.phys m' m3 root 3 root table v root_taken q.grows
              (λ f j hj b l ne. q.frame f j hj b) (done.grows table taken) free apart
              (done.matches v (omega arith) lt))
            found;
    }

words-Cleared :
    (m m' : Machine) (address : ℕ)
    → Cleared m address m'
    → ((f j : ℕ) → j < 512 → entry m.ram f j < 2 ^ 64)
    → (f j : ℕ) → j < 512
    → entry m'.ram f j < 2 ^ 64
words-Cleared m m' address c words f j hj = elim (Bool-cases (f == c.page)) [
  | inl same ↦
      let at : direct address ≡ c.page * 4096 =
        ap direct c.at ∙ direct_window (c.page * 4096) (omega (arith, c.below)) in
      let empty = sym (load_at m' address c.page j at) ∙ c.zeroed j hj in
      let here : f ≡ c.page = ground arith in
      subst (λ g. entry m'.ram g j < 2 ^ 64) (sym here) (omega (arith, empty))
  | inr other ↦
      let kept = c.others (f * 4096 + 8 * j) (ground arith) in omega (arith, kept, words f j hj)
]

free_no_table :
    (level ram : ℕ → ℕ) (phys : PhysMemory) (q k : ℕ)
    → IsTree level ram phys
    → busy phys q ≡ 0
    → level q ≡ k
    → level q ≡ 0
free_no_table level ram phys q zero t free lq = lq
free_no_table level ram phys q (suc k) t free lq = absurd (omega (arith, t.taken q k lq))

-- The state in which the tables are copied: the page for the task and the first table are taken.
abbrev taken_both : Machine → Machine
taken_both m = let m1 = (kmalloc m).1 in record m1 { phys = (allocate_page m1.phys).1 }

-- What follows the copy in `fork`.
abbrev pub filled : List Region → ℕ → Machine → Machine
filled rs source m =
    let m4 = copy_regions rs (kmalloc m).1 in copy_words 512 0 (kmalloc m4).0 source (kmalloc m4).1

filled-Quiet_all :
    (rs : List Region) (source : ℕ) (m : Machine)
    → 2 + length rs ≤ free_pages m.phys
    → Quiet m (filled rs source m)
filled-Quiet_all rs source m supply =
    let some_free : 0 < free_pages m.phys = omega arith in
    let one = kmalloc-free_pages m some_free in
    let m3 = (kmalloc m).1 in
    let (regions, more) = copy_regions-Quiet rs m3 (omega (arith, one)) in
    let m4 = copy_regions rs m3 in
    let last : 0 < free_pages m4.phys = omega (arith, one, more) in
    Quiet-trans m m3 (filled rs source m) (kmalloc-Quiet m some_free)
      (Quiet-trans m3 m4 (filled rs source m) regions (filled-Quiet m4 source last))

-- What is known once the tables are copied to the page at `x`, which is `table`: the copy stays to
-- the end of `fork`, the last entries of both first tables are as they were, and pages are left.
pub record CopiedTo (m : Machine) (cr3 root source : ℕ) (rs : List Region) (table x : ℕ)
    : Type 0 where
  pub copy : HasCopy m root table (filled rs source (copy_parents_pagetables (taken_both m) cr3 x))
  pub child_last :
      load (copy_parents_pagetables (taken_both m) cr3 x) (bit_or x virtual_base) 511
      ≡ entry m.ram table 511
  pub parent_last :
      load (copy_parents_pagetables (taken_both m) cr3 x) cr3 511 ≡ entry m.ram root 511
  pub pages : 2 + length rs ≤ free_pages (copy_parents_pagetables (taken_both m) cr3 x).phys

pub copied_memory :
    (m : Machine) (cr3 root source : ℕ) (rs : List Region)
    → Tables m cr3 root
    → ((f j : ℕ) → j < 512 → entry m.ram f j < 2 ^ 64)
    → 4 + tables_below m.ram 3 511 0 root + length rs ≤ free_pages m.phys
    → let page = (allocate_page (kmalloc m).1.phys).0 in
      (table : ℕ) × (page ≡ table * 4096)
      × (table < 16384)
      × CopiedTo m cr3 root source rs table page
copied_memory m cr3 root source rs t words supply =
    let some_free : 0 < free_pages m.phys = omega arith in
    let c = kmalloc-Cleared m (HasFree-free_pages m.phys some_free) in
    let m1 = (kmalloc m).1 in
    let one = kmalloc-free_pages m some_free in
    let (t1, walks) = Tables-Cleared m m1 (kmalloc m).0 cr3 root t c in
    let more_free : 0 < free_pages m1.phys = omega (arith, one) in
    let a = allocate_page-Allocated m1.phys (HasFree-free_pages m1.phys more_free) in
    let two = free_pages-allocate_page m1.phys more_free in
    let mb = taken_both m in
    let grows = taken_still m1.phys mb.phys a.page a.marks in
    let tb : Tables mb cr3 root = record {
      level = t1.level;
      tree = IsTree-frame t1.tree m1.ram (λ f k i lf hi. refl) grows;
      level_root = t1.level_root;
      at = t1.at;
    } in
    let table = a.page in
    let small : table < 2 ^ 19 = omega (arith, a.below) in
    let level0 =
      free_no_table t1.level m1.ram m1.phys table (t1.level table) t1.tree a.was_free refl in
    let busy1 = taken_now m1.phys mb.phys table a.marks in
    let words1 = words-Cleared m m1 (kmalloc m).0 c words in
    let same = Cleared-SameEntries m m1 (kmalloc m).0 cr3 root t c in
    let count =
      tables_below-same t.level m.ram m1.ram m.phys t.tree same 3 511 0 root t.level_root
        (omega arith) in
    let enough : tables_below mb.ram 3 511 0 root ≤ free_pages mb.phys =
      omega (arith, one, two, count) in
    let m2 = copy_parents_pagetables mb cr3 (table * 4096) in
    let within =
      copy_parents_pagetables-CopiedWithin mb cr3 root table tb words1 small level0 busy1 enough in
    let left : 2 + length rs ≤ free_pages m2.phys = omega (arith, one, two, count, within.supply) in
    let has =
      copies-Quiet mb m2 (filled rs source m2) cr3 root table tb words1 small level0 busy1 enough
        refl (filled-Quiet_all rs source m2 left) in
    let pointer : direct (bit_or (table * 4096) virtual_base) ≡ table * 4096 =
      ap direct (window_right (table * 4096) (omega arith))
      ∙ direct_window (table * 4096) (omega arith) in
    let apart : table ≢ c.page = λ e.
      absurd
        (omega (arith, a.was_free, taken_now m.phys m1.phys c.page c.marks, ap (busy m1.phys) e)) in
    let kept : entry m1.ram table 511 ≡ entry m.ram table 511 =
      c.others (table * 4096 + 8 * 511) (ground arith) in
    (
      table,
      a.at,
      a.below,
      subst (CopiedTo m cr3 root source rs table) (sym a.at) (record {
        copy = record { copies = λ v e lt found. has.copies v e lt (walks v ∙ found) };
        child_last =
            load_at m2 (bit_or (table * 4096) virtual_base) table 511 pointer
            ∙ within.copied.behind 511 (omega arith) (omega arith)
            ∙ kept;
        parent_last =
            load_at m2 cr3 root 511 t.at
            ∙ within.copied.kept.upper root 2 511 t1.level_root (omega arith)
            ∙ same root 3 511 t.level_root (omega arith);
        pages = left;
      }),
    )
