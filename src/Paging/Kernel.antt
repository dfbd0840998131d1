-- ===== src/Paging/Kernel.antt =====
-- `kmalloc`: a page for the kernel.
use sbu_operating_system.Prelude.{
  ℕ, ◌+◌, ◌*◌, ◌^◌, ◌≤◌, ◌<◌, ◌≡◌, ◌⊎◌, ◌∙◌, ap, arith, bit_or, ◌==◌, if◌then◌else◌,
}
use sbu_operating_system.PhysMemory.{allocate_page}
use sbu_operating_system.PhysMemory.Bitmap.{busy}
use sbu_operating_system.PhysMemory.Allocate.{HasFree, allocate_page-Allocated}
use sbu_operating_system.PhysMemory.Count.{free_pages, free_pages-allocate_page}
use sbu_operating_system.Paging.{Machine, virtual_base, direct, load, kmalloc, memset_zero}
use sbu_operating_system.Paging.Entry.{window_right, direct_window}
use sbu_operating_system.Paging.Memset.{zero_words_inside, zero_words_outside}

-- What `kmalloc` gives: the window address of a page that was free, and is now taken and empty. The
-- rest of memory, and the marks of the other pages, are as before.
pub record Cleared (m : Machine) (address : ℕ) (m' : Machine) : Type 0 where
  pub page : ℕ
  pub at : address ≡ virtual_base + page * 4096
  pub below : page < 16384
  pub was_free : busy m.phys page ≡ 0
  pub marks : (q : ℕ) → busy m'.phys q ≡ (if q == page then 1 else busy m.phys q)
  pub zeroed : (i : ℕ) → i < 512 → load m' address i ≡ 0
  pub others : (x : ℕ) → (x < page * 4096) ⊎ (page * 4096 + 4096 ≤ x) → m'.ram x ≡ m.ram x

-- While a page in reach is free, `kmalloc` returns the window address of a page that was free,
-- marks that page alone, clears its 512 words, and changes no other word of memory.
pub kmalloc-Cleared :
    (m : Machine) → HasFree m.phys → let (address, m') = kmalloc m in Cleared m address m'
unfolding kmalloc memset_zero
kmalloc-Cleared m free =
    let (padd, phys') = allocate_page m.phys in
    let a = allocate_page-Allocated m.phys free in
    let address = bit_or padd virtual_base in
    let small : a.page * 4096 < 2 ^ 31 = omega (arith, a.below) in
    let window : address ≡ virtual_base + a.page * 4096 =
      ap (λ p. bit_or p virtual_base) a.at ∙ window_right (a.page * 4096) small in
    let back : direct address ≡ a.page * 4096 =
      ap direct window ∙ direct_window (a.page * 4096) small in
    record {
      page = a.page;
      at = window;
      below = a.below;
      was_free = a.was_free;
      marks = a.marks;
      zeroed = λ i h. zero_words_inside 512 (direct address) m.ram i h;
      others = λ x h. zero_words_outside 512 (direct address) m.ram x (ground (arith, back));
    }

-- It takes one page.
pub kmalloc-free_pages :
    (m : Machine) → 0 < free_pages m.phys → free_pages m.phys ≡ free_pages (kmalloc m).1.phys + 1
unfolding kmalloc memset_zero
kmalloc-free_pages m h = free_pages-allocate_page m.phys h
