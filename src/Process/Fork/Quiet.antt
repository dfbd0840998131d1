-- ===== src/Process/Fork/Quiet.antt =====
-- What `fork` does to memory behind the copy of the tables: only pages that were free are written.
use sbu_operating_system.Prelude.{
  ℕ, zero, suc, ◌+◌, ◌*◌, ◌≤◌, ◌<◌, ◌≡◌, ◌≢◌, ◌∙◌, ap, arith, refl, List, [], ◌∷◌, length,
}
use sbu_operating_system.PhysMemory.Bitmap.{busy}
use sbu_operating_system.PhysMemory.Count.{free_pages, HasFree-free_pages}
use sbu_operating_system.Paging.{Machine, direct, load, store, kmalloc}
use sbu_operating_system.Paging.Kernel.{Cleared, kmalloc-Cleared, kmalloc-free_pages}
use sbu_operating_system.Paging.Entry.{direct_window}
use sbu_operating_system.Paging.Mmu.{entry}
use sbu_operating_system.Faults.{Region}
use sbu_operating_system.Process.Fork.{copy_regions, copy_words}
use sbu_operating_system.Paging.Leaf.{entry-written}
use sbu_operating_system.Process.Fork.Leaves.{store_at}
use sbu_operating_system.Process.Fork.Join.{taken_still}

-- Every page that was taken is still taken, and holds the words that it held.
pub record Quiet (m m' : Machine) : Type 0 where
  pub grows : (f : ℕ) → busy m.phys f ≡ 1 → busy m'.phys f ≡ 1
  pub frame : (f j : ℕ) → j < 512 → busy m.phys f ≡ 1 → entry m'.ram f j ≡ entry m.ram f j

pub Quiet-trans : (a b c : Machine) → Quiet a b → Quiet b c → Quiet a c
Quiet-trans a b c q r = record {
  grows = λ f h. r.grows f (q.grows f h);
  frame = λ f j hj h. r.frame f j hj (q.grows f h) ∙ q.frame f j hj h;
}

pub Cleared-Quiet : (m m' : Machine) (address : ℕ) → Cleared m address m' → Quiet m m'
Cleared-Quiet m m' address c = record {
  grows = taken_still m.phys m'.phys c.page c.marks;
  frame = λ f j hj h.
      let ne : f ≢ c.page = λ e. absurd (omega (arith, c.was_free, ap (busy m.phys) e)) in
      c.others (f * 4096 + 8 * j) (ground arith);
}

pub kmalloc-Quiet : (m : Machine) → 0 < free_pages m.phys → Quiet m (kmalloc m).1
kmalloc-Quiet m h =
    Cleared-Quiet m (kmalloc m).1 (kmalloc m).0 (kmalloc-Cleared m (HasFree-free_pages m.phys h))

pub copy_regions-Quiet :
    (rs : List Region) (m : Machine)
    → length rs ≤ free_pages m.phys
    → Quiet m (copy_regions rs m)
      × (free_pages m.phys ≤ free_pages (copy_regions rs m).phys + length rs)
unfolding copy_regions
copy_regions-Quiet [] m h = (record { grows = λ f b. b; frame = λ f j hj b. refl }, omega arith)
copy_regions-Quiet (r ∷ rs) m h =
    let some_free : 0 < free_pages m.phys = omega arith in
    let one = kmalloc-free_pages m some_free in
    let m1 = (kmalloc m).1 in
    let (rest, supply) = copy_regions-Quiet rs m1 (omega (arith, one)) in
    (
      Quiet-trans m m1 (copy_regions rs m1) (kmalloc-Quiet m some_free) rest,
      omega (arith, one, supply),
    )

copy_words-outside :
    (rounds i dest source f j : ℕ) (m : Machine) (st : ℕ)
    → direct dest ≡ st * 4096
    → i + rounds ≤ 512
    → f ≢ st
    → j < 512
    → entry (copy_words rounds i dest source m).ram f j ≡ entry m.ram f j
unfolding copy_words store
copy_words-outside zero i dest source f j m st at fits ne hj = refl
copy_words-outside (suc rounds) i dest source f j m st at fits ne hj =
    let v = load m source i in
    let m1 = store m dest i v in
    let same : entry m1.ram f j ≡ entry m.ram f j =
      ap (λ x. entry x.ram f j) (store_at m dest st i v at)
      ∙ ground (arith, entry-written m.ram st i v f j (omega arith) hj, ne) in
    copy_words-outside rounds (i + 1) dest source f j m1 st at (omega arith) ne hj ∙ same

copy_words-phys :
    (rounds i dest source : ℕ) (m : Machine) → (copy_words rounds i dest source m).phys ≡ m.phys
unfolding copy_words store
copy_words-phys zero i dest source m = refl
copy_words-phys (suc rounds) i dest source m =
    copy_words-phys rounds (i + 1) dest source (store m dest i (load m source i))

-- A new page, filled by `memcpy`.
pub filled-Quiet :
    (m : Machine) (source : ℕ)
    → 0 < free_pages m.phys
    → Quiet m (copy_words 512 0 (kmalloc m).0 source (kmalloc m).1)
filled-Quiet m source h =
    let (stack, m1) = kmalloc m in
    let c = kmalloc-Cleared m (HasFree-free_pages m.phys h) in
    let at : direct stack ≡ c.page * 4096 =
      ap direct c.at ∙ direct_window (c.page * 4096) (omega (arith, c.below)) in
    let q = kmalloc-Quiet m h in
    record {
      grows = λ f b. ap (λ s. busy s f) (copy_words-phys 512 0 stack source m1) ∙ q.grows f b;
      frame = λ f j hj b.
          let ne : f ≢ c.page = λ e. absurd (omega (arith, c.was_free, ap (busy m.phys) e)) in
          copy_words-outside 512 0 stack source f j m1 c.page at (omega arith) ne hj
          ∙ q.frame f j hj b;
    }
