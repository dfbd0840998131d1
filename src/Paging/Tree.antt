-- ===== src/Paging/Tree.antt =====
-- The tables in memory form a tree. `level` assigns to each page the level of the table that it
-- holds plus one, and 0 to a page that holds none.
use sbu_operating_system.Prelude.{ℕ, zero, suc, ◌/◌, ◌%◌, ◌<◌, ◌≡◌, ◌∙◌, ap, sym, arith}
use sbu_operating_system.PhysMemory.{PhysMemory}
use sbu_operating_system.PhysMemory.Bitmap.{busy}
use sbu_operating_system.Paging.Mmu.{entry, index, Reaches, SameIndices}

pub record IsTree (level : ℕ → ℕ) (ram : ℕ → ℕ) (phys : PhysMemory) : Type 0 where
  -- A present entry above the last level points to a table one level below.
  pub child :
      (f i k : ℕ)
      → level f ≡ suc (suc k)
      → i < 512
      → entry ram f i % 2 ≡ 1
      → level (entry ram f i / 4096) ≡ suc k
  -- No table is pointed to twice.
  pub unique :
      (f i k g j l : ℕ)
      → level f ≡ suc (suc k)
      → level g ≡ suc (suc l)
      → i < 512
      → j < 512
      → entry ram f i % 2 ≡ 1
      → entry ram g j % 2 ≡ 1
      → entry ram f i / 4096 ≡ entry ram g j / 4096
      → (f ≡ g) × (i ≡ j)
  -- The allocator has handed out every table.
  pub taken : (f k : ℕ) → level f ≡ suc k → (f < 16384) × (busy phys f ≡ 1)

pub index-lt : (n v : ℕ) → index n v < 512
index-lt zero v = omega arith
index-lt (suc n) v = index-lt n (v / 512)

module _ {level : ℕ → ℕ} {ram : ℕ → ℕ} {phys : PhysMemory} (t : IsTree level ram phys) where
  pub Reaches-level : (n g v c : ℕ) → level g ≡ suc n → Reaches ram n g v c → level c ≡ 1
  Reaches-level zero g v c h r = ap level (sym r) ∙ h
  Reaches-level (suc n) g v c h (p, r) =
      Reaches-level n _ v c (t.child g (index (suc n) v) n h (index-lt (suc n) v) p) r

  -- Two walks that end in the same table started at the same one and took the same way.
  pub Reaches-unique :
      (n g g' v v' c : ℕ)
      → level g ≡ suc n
      → level g' ≡ suc n
      → Reaches ram n g v c
      → Reaches ram n g' v' c
      → (g ≡ g') × SameIndices n v v'
  Reaches-unique zero g g' v v' c h h' r r' = (r ∙ sym r', tt)
  Reaches-unique (suc n) g g' v v' c h h' (p, r) (p', r') =
      let i = index (suc n) v in
      let i' = index (suc n) v' in
      let (same, rest) =
        Reaches-unique n (entry ram g i / 4096) (entry ram g' i' / 4096) v v' c
          (t.child g i n h (index-lt (suc n) v) p) (t.child g' i' n h' (index-lt (suc n) v') p') r
          r' in
      let (eg, ei) =
        t.unique g i n g' i' n h h' (index-lt (suc n) v) (index-lt (suc n) v') p p' same in
      (eg, (ei, rest))
