-- ===== src/Paging/Map.antt =====
-- `map_vir_phy` and `map_vir_phy_userspace` against the processor's reading of the tables.
use sbu_operating_system.Prelude.{
  ℕ, suc, ◌+◌, ◌*◌, ◌/◌, ◌%◌, ◌^◌, ◌≤◌, ◌<◌, ◌≡◌, ◌∙◌, ap, sym, arith, refl, Bool, true, false,
  some,
}
use mathlib.Core.Path.{subst}
use sbu_operating_system.PhysMemory.Count.{free_pages}
use sbu_operating_system.Paging.{
  Machine, direct, store, next_table, map_page, map_vir_phy, map_vir_phy_userspace, get_pml4_offset,
  get_pdpt_offset, get_pdt_offset, get_pt_offset,
}
use sbu_operating_system.Paging.Entry.{offsets, flags, with_flags_lem}
use sbu_operating_system.Paging.Mmu.{entry, walk, Reaches, index, SameIndices}
use sbu_operating_system.Paging.Tree.{IsTree, Reaches-unique, index-lt}
use sbu_operating_system.Paging.Descend.{Kept, Kept-trans, next_table-Descended}
use sbu_operating_system.Paging.Leaf.{written-IsTree, walk-written_self, walk-written_ne}

-- A machine whose tables form a tree with its root, a four-level table, at the pointer `pml4`.
pub record Tables (m : Machine) (pml4 root : ℕ) : Type 0 where
  pub level : ℕ → ℕ
  pub tree : IsTree level m.ram m.phys
  pub level_root : level root ≡ 4
  pub at : direct pml4 ≡ root * 4096

-- The offsets that the code computes are the indices that the processor uses.
pub offsets-index :
    (v : ℕ)
    → (get_pml4_offset v ≡ index 3 v)
      × (get_pdpt_offset v ≡ index 2 v)
      × (get_pdt_offset v ≡ index 1 v)
      × (get_pt_offset v ≡ index 0 v)
offsets-index v = omega (arith, offsets v)

-- The same virtual page, of the 48 bits of an address that are translated.
abbrev pub SamePage : ℕ → ℕ → Type 0
SamePage w v = w / 4096 % 2 ^ 36 ≡ v / 4096 % 2 ^ 36

SamePage-of_indices : (w v : ℕ) → SameIndices 3 w v → index 0 w ≡ index 0 v → SamePage w v
SamePage-of_indices w v s h = omega arith

Reaches-cons :
    (ram : ℕ → ℕ) (n g v c x : ℕ)
    → entry ram g (index (suc n) v) % 2 ≡ 1
    → entry ram g (index (suc n) v) / 4096 ≡ x
    → Reaches ram n x v c
    → Reaches ram (suc n) g v c
Reaches-cons ram n g v c x p e r = (p, subst (λ y. Reaches ram n y v c) (sym e) r)

-- An entry that leads down is kept, and leads to the same table.
Kept-entry :
    {level ram level' ram' : ℕ → ℕ} (g j l x : ℕ)
    → Kept level ram level' ram'
    → level g ≡ suc l
    → j < 512
    → entry ram g j % 2 ≡ 1
    → entry ram g j / 4096 ≡ x
    → (entry ram' g j % 2 ≡ 1) × (entry ram' g j / 4096 ≡ x)
Kept-entry g j l x k lg hj p e = ground (arith, k.entries g j l lg hj p)

-- Three linked entries make a way down.
way_down :
    (ram : ℕ → ℕ) (root t3 t2 leaf v : ℕ) {i4 i3 i2 : ℕ}
    → index 3 v ≡ i4
    → index 2 v ≡ i3
    → index 1 v ≡ i2
    → (entry ram root i4 % 2 ≡ 1) × (entry ram root i4 / 4096 ≡ t3)
    → (entry ram t3 i3 % 2 ≡ 1) × (entry ram t3 i3 / 4096 ≡ t2)
    → (entry ram t2 i2 % 2 ≡ 1) × (entry ram t2 i2 / 4096 ≡ leaf)
    → Reaches ram 3 root v leaf
way_down ram root t3 t2 leaf v a b c x y z =
    Reaches-cons ram 2 root v leaf t3 (ap (λ i. entry ram root i % 2) a ∙ x.0)
      (ap (λ i. entry ram root i / 4096) a ∙ x.1)
      (Reaches-cons ram 1 t3 v leaf t2 (ap (λ i. entry ram t3 i % 2) b ∙ y.0)
        (ap (λ i. entry ram t3 i / 4096) b ∙ y.1)
        (Reaches-cons ram 0 t2 v leaf leaf (ap (λ i. entry ram t2 i % 2) c ∙ z.0)
          (ap (λ i. entry ram t2 i / 4096) c ∙ z.1) refl))

-- The state after the three steps down, before the last write.
record Prepared (m : Machine) (root v : ℕ) (pointer : ℕ) (m' : Machine) : Type 0 where
  level' : ℕ → ℕ
  leaf : ℕ
  tree : IsTree level' m'.ram m'.phys
  level_root : level' root ≡ 4
  level_leaf : level' leaf ≡ 1
  at : direct pointer ≡ leaf * 4096
  way : (w : ℕ) → SamePage w v → Reaches m'.ram 3 root w leaf
  walks : (v' : ℕ) → walk m'.ram 3 root v' ≡ walk m.ram 3 root v'
  supply : free_pages m.phys ≤ free_pages m'.phys + 3

-- The three steps down, as `map_page` takes them.
abbrev descent : Bool → Machine → ℕ → ℕ → ℕ × Machine
descent user m v pml4 =
    let (pdptc, m1) = next_table user m pml4 (get_pml4_offset v) in
    let (pdtc, m2) = next_table user m1 pdptc (get_pdpt_offset v) in
    next_table user m2 pdtc (get_pdt_offset v)

descent-Prepared :
    (user : Bool) (m : Machine) (v pml4 root : ℕ)
    → Tables m pml4 root
    → 3 ≤ free_pages m.phys
    → let (ptc, m') = descent user m v pml4 in Prepared m root v ptc m'
descent-Prepared user m v pml4 root t supply =
    let o = offsets-index v in
    let i4 = get_pml4_offset v in
    let i3 = get_pdpt_offset v in
    let i2 = get_pdt_offset v in
    let lt4 : i4 < 512 = omega (arith, o, index-lt 3 v) in
    let lt3 : i3 < 512 = omega (arith, o, index-lt 2 v) in
    let lt2 : i2 < 512 = omega (arith, o, index-lt 1 v) in
    let r1 = next_table user m pml4 i4 in
    let d1 = next_table-Descended {k = 2} pml4 t.tree t.level_root t.at lt4 user (omega arith) in
    let r2 = next_table user r1.1 r1.0 i3 in
    let d2 =
      next_table-Descended {k = 1} r1.0 d1.tree d1.level_page d1.at lt3 user
        (omega (arith, d1.supply)) in
    let r3 = next_table user r2.1 r2.0 i2 in
    let d3 =
      next_table-Descended {k = 0} r2.0 d2.tree d2.level_page d2.at lt2 user
        (omega (arith, d1.supply, d2.supply)) in
    let k12 = Kept-trans d1.kept d2.kept in
    let k23 = Kept-trans d2.kept d3.kept in
    let k13 = Kept-trans k12 d3.kept in
    let e4 =
      Kept-entry root i4 3 d1.page k23 (d1.kept.levels root 3 t.level_root) lt4 d1.present
        d1.points in
    let e3 =
      Kept-entry d1.page i3 2 d2.page d3.kept (d2.kept.levels d1.page 2 d1.level_page) lt3
        d2.present d2.points in
    record {
      level' = d3.level';
      leaf = d3.page;
      tree = d3.tree;
      level_root = k13.levels root 3 t.level_root;
      level_leaf = d3.level_page;
      at = d3.at;
      way = λ w same.
          way_down r3.1.ram root d1.page d2.page d3.page w (omega (arith, o)) (omega (arith, o))
            (omega (arith, o)) e4 e3 (d3.present, d3.points);
      walks = λ v'. k13.walks 3 root v' t.level_root;
      supply = omega (arith, d1.supply, d2.supply, d3.supply);
    }

-- The outcome of mapping the virtual page of `v` to the physical page `page`.
pub record Mapped (user : Bool) (m : Machine) (v page pml4 root : ℕ) (m' : Machine) : Type 0 where
  -- The tables are a tree again.
  pub tables : Tables m' pml4 root
  -- The processor finds the page, with the flags, at every address of the virtual page.
  pub found : (w : ℕ) → SamePage w v → walk m'.ram 3 root w ≡ some (page * 4096 + flags user)
  -- Every other virtual page is translated as before.
  pub others : (w : ℕ) → ¬ SamePage w v → walk m'.ram 3 root w ≡ walk m.ram 3 root w
  -- At most three pages were taken.
  pub supply : free_pages m.phys ≤ free_pages m'.phys + 3

map_page-Mapped :
    (user : Bool) (m : Machine) (v page pml4 root : ℕ)
    → Tables m pml4 root
    → 3 ≤ free_pages m.phys
    → Mapped user m v page pml4 root (map_page user m v (page * 4096) pml4)
unfolding map_page store
map_page-Mapped user m v page pml4 root t supply =
    let p = descent-Prepared user m v pml4 root t supply in
    let ram = (descent user m v pml4).1.ram in
    let i = get_pt_offset v in
    let e = page * 4096 + flags user in
    let o = (offsets-index v).3 in
    let lt : i < 512 = omega (arith, o, index-lt 0 v) in
    rw (p.at, with_flags_lem user page)
      (record {
        tables = record {
          level = p.level';
          tree = written-IsTree p.leaf i e p.tree p.level_leaf lt;
          level_root = p.level_root;
          at = t.at;
        };
        found = λ w same.
            walk-written_self p.leaf i e p.tree p.level_leaf lt 3 root w p.level_root (p.way w same)
              (omega (arith, o)) (ground arith);
        others = λ w other.
            walk-written_ne p.leaf i e p.tree p.level_leaf lt 3 root w p.level_root (λ r. other (
              SamePage-of_indices w v
                (Reaches-unique p.tree 3 root root w v p.leaf p.level_root p.level_root r.0
                  (p.way v refl)).1
                (r.1 ∙ o)))
            ∙ p.walks w;
        supply = p.supply;
      })

-- On tables that form a tree, and with three pages left for new tables, `map_vir_phy` and
-- `map_vir_phy_userspace` make the processor translate every address of the given virtual page to
-- the given physical page, the one with the flags P and R, the other with P, R and U. Every other
-- virtual page is translated as before, and the tables are a tree again.
pub map_vir_phy-Mapped :
    (m : Machine) (v page pml4 root : ℕ)
    → Tables m pml4 root
    → 3 ≤ free_pages m.phys
    → Mapped false m v page pml4 root (map_vir_phy m pml4 v (page * 4096))
      × Mapped true m v page pml4 root (map_vir_phy_userspace m v (page * 4096) pml4)
unfolding map_vir_phy map_vir_phy_userspace
map_vir_phy-Mapped m v page pml4 root t supply = (
  map_page-Mapped false m v page pml4 root t supply,
  map_page-Mapped true m v page pml4 root t supply,
)
