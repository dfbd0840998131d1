-- ===== src/Paging/Descend/Link.antt =====
-- Linking a new, cleared page `c` into the entry `i` of the table `f`.
use sbu_operating_system.Prelude.{
  ℕ, zero, suc, ◌+◌, ◌*◌, ◌/◌, ◌%◌, ◌<◌, ◌≡◌, ◌≢◌, ◌&&◌, ap, arith, update, ◌==◌, if◌then◌else◌,
  Bool-cases, inl, inr, none,
}
use sbu_operating_system.PhysMemory.{PhysMemory}
use sbu_operating_system.PhysMemory.Bitmap.{busy}
use sbu_operating_system.Paging.{zero_words}
use sbu_operating_system.Paging.Memset.{zero_words_outside, zero_words_inside}
use sbu_operating_system.Paging.Mmu.{entry, index, walk}
use sbu_operating_system.Paging.Tree.{IsTree, index-lt}

abbrev pub linked : (ℕ → ℕ) → ℕ → ℕ → ℕ → ℕ → ℕ → ℕ
linked ram f i c e = update (zero_words 512 (c * 4096) ram) (f * 4096 + 8 * i) e

cleared_entry :
    (ram : ℕ → ℕ) (c g j : ℕ)
    → j < 512
    → entry (zero_words 512 (c * 4096) ram) g j ≡ (if g == c then 0 else entry ram g j)
cleared_entry ram c g j h = elim (Bool-cases (g == c)) [
  | inl same ↦ ground (arith, zero_words_inside 512 (c * 4096) ram j h)
  | inr other ↦ rw other (zero_words_outside 512 (c * 4096) ram (g * 4096 + 8 * j) (ground arith))
]

pub entry-linked :
    (ram : ℕ → ℕ) (f i c e g j : ℕ)
    → i < 512
    → j < 512
    → entry (linked ram f i c e) g j
      ≡ (if (g == f) && (j == i) then e else if g == c then 0 else entry ram g j)
entry-linked ram f i c e g j hi hj = ground (arith, cleared_entry ram c g j hj)

-- The circumstances: the entry is absent, `c` is a free page of the old state and `e` points to it.
pub record Linked (level ram ram' : ℕ → ℕ) (phys phys' : PhysMemory) (f i k c e : ℕ) : Type 0 where
  pub tree : IsTree level ram phys
  pub level_f : level f ≡ suc (suc k)
  pub in_table : i < 512
  pub absent : entry ram f i % 2 ≡ 0
  pub below : c < 16384
  pub was_free : busy phys c ≡ 0
  pub marks : (q : ℕ) → busy phys' q ≡ (if q == c then 1 else busy phys q)
  pub present : e % 2 ≡ 1
  pub points : e / 4096 ≡ c
  pub entries :
      (g j : ℕ)
      → j < 512
      → entry ram' g j ≡ (if (g == f) && (j == i) then e else if g == c then 0 else entry ram g j)

module _ {level ram ram' : ℕ → ℕ} {phys phys' : PhysMemory} {f i k c e : ℕ}
    (h : Linked level ram ram' phys phys' f i k c e) where
  abbrev level' : ℕ → ℕ
  level' = update level c (suc k)

  -- A free page holds no table.
  pub not_a_table : (g l : ℕ) → level g ≡ suc l → g ≢ c
  not_a_table g l e' same =
      ground (arith, h.tree.taken g l e', h.was_free, ap (λ q. busy phys q) same)

  new_child :
      (g j l : ℕ)
      → level' g ≡ suc (suc l)
      → j < 512
      → entry ram' g j % 2 ≡ 1
      → level' (entry ram' g j / 4096) ≡ suc l
  new_child g j l lg hj p = ground (
    arith,
    h.entries g j hj,
    h.tree.child g j l,
    not_a_table f (suc k) h.level_f,
    not_a_table (entry ram g j / 4096) l,
    h.present,
    h.points,
    h.level_f,
  )

  new_unique :
      (g j l g' j' l' : ℕ)
      → level' g ≡ suc (suc l)
      → level' g' ≡ suc (suc l')
      → j < 512
      → j' < 512
      → entry ram' g j % 2 ≡ 1
      → entry ram' g' j' % 2 ≡ 1
      → entry ram' g j / 4096 ≡ entry ram' g' j' / 4096
      → (g ≡ g') × (j ≡ j')
  new_unique g j l g' j' l' lg lg' hj hj' p p' same = ground (
    arith,
    h.entries g j hj,
    h.entries g' j' hj',
    h.tree.child g j l,
    h.tree.child g' j' l',
    h.tree.unique g j l g' j' l',
    not_a_table f (suc k) h.level_f,
    not_a_table (entry ram g j / 4096) l,
    not_a_table (entry ram g' j' / 4096) l',
    h.points,
  )

  new_taken : (g l : ℕ) → level' g ≡ suc l → (g < 16384) × (busy phys' g ≡ 1)
  new_taken g l lg = ground (arith, h.tree.taken g l, h.marks g, h.below)

  pub Linked-IsTree : IsTree level' ram' phys'
  Linked-IsTree = record { child = new_child; unique = new_unique; taken = new_taken }

  -- The entry was absent and the new table is empty, so every walk ends as before.
  walk-cleared : (n v : ℕ) → f ≢ c → walk ram' n c v ≡ none
  unfolding walk
  walk-cleared zero v ne = ground (arith, h.entries c (index 0 v) (index-lt 0 v))
  walk-cleared (suc n) v ne = ground (arith, h.entries c (index (suc n) v) (index-lt (suc n) v))

  pub walk-Linked : (n g v : ℕ) → level g ≡ suc n → walk ram' n g v ≡ walk ram n g v
  unfolding walk
  walk-Linked zero g v lg =
      ground (arith, h.entries g (index 0 v) (index-lt 0 v), not_a_table g 0 lg, h.level_f)
  walk-Linked (suc n) g v lg =
      let j = index (suc n) v in
      ground (
        arith,
        h.entries g j (index-lt (suc n) v),
        h.tree.child g j n lg (index-lt (suc n) v),
        walk-Linked n (entry ram g j / 4096) v,
        walk-cleared n v (not_a_table f (suc k) h.level_f),
        ap (λ t. walk ram' n t v) h.points,
        not_a_table g (suc n) lg,
        h.absent,
      )
