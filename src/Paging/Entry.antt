-- ===== src/Paging/Entry.antt =====
-- Table entries and window pointers as arithmetic.
use sbu_operating_system.Prelude.{
  ℕ, ◌+◌, ◌-◌, ◌*◌, ◌/◌, ◌%◌, ◌^◌, ◌<◌, ◌≡◌, ◌∙◌, arith, Bool, true, false, bit_and, bit_or,
  if◌then◌else◌, ap,
}
use sbu_operating_system.Bits.{
  bit_or-shift, bit_and-shift, bit_and-low_ones, bit_or-one, bit_or-two, bit_or-four, bit_or_comm,
}
use sbu_operating_system.Paging.{
  virtual_base, mask_permission, direct, with_flags, get_pml4_offset, get_pdpt_offset,
  get_pdt_offset, get_pt_offset,
}

-- The flags that a new entry carries.
abbrev pub flags : Bool → ℕ
flags user = if user then 7 else 3

or_one : (c : ℕ) → bit_or (c * 4096) 1 ≡ c * 4096 + 1
or_one c = omega (arith, bit_or-one (c * 4096))

or_two : (c : ℕ) → bit_or (c * 4096 + 1) 2 ≡ c * 4096 + 3
or_two c = omega (arith, bit_or-two (c * 4096 + 1))

or_four : (c : ℕ) → bit_or (c * 4096 + 3) 4 ≡ c * 4096 + 7
or_four c = omega (arith, bit_or-four (c * 4096 + 3))

-- An entry for the page of number `c` is its address plus the flags.
pub with_flags_lem : (user : Bool) (c : ℕ) → with_flags user (c * 4096) ≡ c * 4096 + flags user
unfolding with_flags
with_flags_lem true c = rw (or_one c, or_two c, or_four c)
with_flags_lem false c = rw (or_one c, or_two c)

-- The mask of an entry is the address of its page.
pub mask_lem : (e : ℕ) → e < 2 ^ 64 → bit_and e mask_permission ≡ e / 4096 * 4096
mask_lem e h =
    ap (λ t. bit_and t mask_permission) split
    ∙ bit_and-shift 12 (e / 4096) (2 ^ 52 - 1) (e % 4096) (omega arith)
    ∙ ap (λ t. t * 4096) (bit_and-low_ones 52 (e / 4096) ∙ whole)
  where
    split : e ≡ e / 4096 * 4096 + e % 4096
    split = omega arith

    whole : e / 4096 % 2 ^ 52 ≡ e / 4096
    whole = omega arith

pub present_lem : (e : ℕ) → bit_and e 1 ≡ e % 2
present_lem e = bit_and-low_ones 1 e

pub window_left : (p : ℕ) → p < 2 ^ 31 → bit_or virtual_base p ≡ virtual_base + p
window_left p h = bit_or-shift 31 (2 ^ 33 - 1) p h

-- Going back from the window finds the page.
pub direct_window : (p : ℕ) → p < 2 ^ 31 → direct (virtual_base + p) ≡ p
direct_window p h = ground arith

-- The four indices are fields of the virtual address.
pub offsets :
    (v : ℕ)
    → (get_pml4_offset v ≡ v / 2 ^ 39 % 512)
      × (get_pdpt_offset v ≡ v / 2 ^ 30 % 512)
      × (get_pdt_offset v ≡ v / 2 ^ 21 % 512)
      × (get_pt_offset v ≡ v / 2 ^ 12 % 512)
unfolding get_pml4_offset get_pdpt_offset get_pdt_offset get_pt_offset
offsets v = (
  bit_and-low_ones 9 (v / 2 ^ 39),
  bit_and-low_ones 9 (v / 2 ^ 30),
  bit_and-low_ones 9 (v / 2 ^ 21),
  bit_and-low_ones 9 (v / 2 ^ 12),
)

pub window_right : (p : ℕ) → p < 2 ^ 31 → bit_or p virtual_base ≡ virtual_base + p
window_right p h = bit_or_comm p virtual_base ∙ window_left p h
