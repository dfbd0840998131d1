-- ===== src/Paging/Ready.antt =====
-- Mapping a page whose last-level table is there already: no page is taken.
use sbu_operating_system.Prelude.{
  ℕ, zero, suc, ◌+◌, ◌*◌, ◌/◌, ◌%◌, ◌^◌, ◌<◌, ◌≡◌, sym, arith, refl, Bool, false, some, Bool-cases,
  inl, inr, ◌==◌, subst,
}
use sbu_operating_system.Paging.{Machine, direct, virtual_base, next_table, map_page, map_vir_phy}
use sbu_operating_system.Paging.Entry.{direct_window}
use sbu_operating_system.Paging.Mmu.{entry, walk, Reaches, index, SameIndices}
use sbu_operating_system.Paging.Tree.{IsTree, index-lt}
use sbu_operating_system.Paging.Descend.{next_table-present}
use sbu_operating_system.Paging.Map.{Tables, offsets-index}

-- The last-level table for the address `v` is linked.
pub record Ready (ram : ℕ → ℕ) (root v : ℕ) : Type 0 where
  pub leaf : ℕ
  pub way : Reaches ram 3 root v leaf

-- The virtual addresses of one last-level table.
abbrev pub SameBlock : ℕ → ℕ → Type 0
SameBlock w v = w / 2 ^ 21 % 2 ^ 27 ≡ v / 2 ^ 21 % 2 ^ 27

Reaches-SameIndices :
    (ram : ℕ → ℕ) (n g v w c : ℕ) → SameIndices n w v → Reaches ram n g v c → Reaches ram n g w c
Reaches-SameIndices ram zero g v w c s r = r
Reaches-SameIndices ram (suc n) g v w c (s, ss) (p, r) =
    subst (λ i. (entry ram g i % 2 ≡ 1) × Reaches ram n (entry ram g i / 4096) w c) (sym s)
      (p, Reaches-SameIndices ram n _ v w c ss r)

pub Ready-SameBlock :
    (ram : ℕ → ℕ) (root v w : ℕ) → SameBlock w v → Ready ram root v → Ready ram root w
Ready-SameBlock ram root v w s r = record {
  leaf = r.leaf;
  way =
      Reaches-SameIndices ram 3 root v w r.leaf (omega arith, (omega arith, (omega arith, tt)))
        r.way;
}

walk-Reaches : (ram : ℕ → ℕ) (n g v e : ℕ) → walk ram n g v ≡ some e → (c : ℕ) × Reaches ram n g v c
unfolding walk
walk-Reaches ram zero g v e h = (g, refl)
walk-Reaches ram (suc n) g v e h =
    let x = entry ram g (index (suc n) v) in
    elim (Bool-cases (x % 2 == 1)) [
      | inl here ↦
          let below : walk ram n (x / 4096) v ≡ some e = rw here at h in
          let (c, way) = walk-Reaches ram n (x / 4096) v e below in (c, (ground arith, way))
      | inr absent ↦ absurd (cc (rw absent at h))
    ]

pub Ready-walk : (ram : ℕ → ℕ) (root v e : ℕ) → walk ram 3 root v ≡ some e → Ready ram root v
Ready-walk ram root v e h =
    let (leaf, way) = walk-Reaches ram 3 root v e h in record { leaf = leaf; way = way }

-- A step down into a table that is there.
step_down :
    {level : ℕ → ℕ} (user : Bool) (m : Machine) (p f i k : ℕ)
    → IsTree level m.ram m.phys
    → level f ≡ suc (suc k)
    → direct p ≡ f * 4096
    → i < 512
    → entry m.ram f i % 2 ≡ 1
    → let c = entry m.ram f i / 4096 in
      let q = virtual_base + c * 4096 in
      (next_table user m p i ≡ (q, m)) × (level c ≡ suc k) × (direct q ≡ c * 4096)
step_down user m p f i k t lf at lt here =
    let child = t.child f i k lf lt here in
    let small = (t.taken _ k child).0 in
    (next_table-present user m p f i at here small, child, direct_window _ (omega arith))

map_page-Ready :
    (user : Bool) (m : Machine) (v padd pml4 root : ℕ)
    → Tables m pml4 root
    → Ready m.ram root v
    → (map_page user m v padd pml4).phys ≡ m.phys
unfolding map_page
map_page-Ready user m v padd pml4 root t r =
    let (here3, (here2, (here1, end))) = r.way in
    let o = offsets-index v in
    let (s3, l3, a3) =
      step_down user m pml4 root (index 3 v) 2 t.tree t.level_root t.at (index-lt 3 v) here3 in
    let c3 = entry m.ram root (index 3 v) / 4096 in
    let c2 = entry m.ram c3 (index 2 v) / 4096 in
    let (s2, l2, a2) =
      step_down user m (virtual_base + c3 * 4096) c3 (index 2 v) 1 t.tree l3 a3 (index-lt 2 v)
        here2 in
    let (s1, l1, a1) =
      step_down user m (virtual_base + c2 * 4096) c2 (index 1 v) 0 t.tree l2 a2 (index-lt 1 v)
        here1 in
    rw (o.0, o.1, o.2, s3, s2, s1) refl

-- With the last-level table there, mapping takes no page.
pub map_vir_phy-Ready :
    (m : Machine) (v padd pml4 root : ℕ)
    → Tables m pml4 root
    → Ready m.ram root v
    → (map_vir_phy m pml4 v padd).phys ≡ m.phys
unfolding map_vir_phy
map_vir_phy-Ready m v padd pml4 root t r = map_page-Ready false m v padd pml4 root t r
