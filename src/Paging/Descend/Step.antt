-- ===== src/Paging/Descend/Step.antt =====
-- `next_table`: the entry of a table is followed, or a new table is linked into it.
use sbu_operating_system.Prelude.{
  ℕ, zero, suc, ◌+◌, ◌*◌, ◌/◌, ◌%◌, ◌≤◌, ◌<◌, ◌≡◌, ◌∙◌, ap, sym, arith, refl, update, ◌==◌,
  Bool-cases, inl, inr, Bool, true, false, bit_and,
}
use mathlib.Core.Path.{subst}
use sbu_operating_system.PhysMemory.{PhysMemory, allocate_page}
use sbu_operating_system.PhysMemory.Allocate.{allocate_page-Allocated}
use sbu_operating_system.PhysMemory.Count.{free_pages, HasFree-free_pages, free_pages-allocate_page}
use sbu_operating_system.Paging.{Machine, direct, virtual_base, next_table, fresh_table}
use sbu_operating_system.Paging.Entry.{
  with_flags_lem, flags, mask_lem, present_lem, window_left, window_right, direct_window,
}
use sbu_operating_system.Paging.Mmu.{entry, walk, Reaches, index}
use sbu_operating_system.Paging.Tree.{IsTree, index-lt}
use sbu_operating_system.Paging.Descend.Link.{
  Linked, linked, entry-linked, Linked-IsTree, walk-Linked, not_a_table,
}

-- What a later state keeps of an earlier one: every table, every present entry, every walk.
pub record Kept (level ram level' ram' : ℕ → ℕ) : Type 0 where
  pub levels : (g l : ℕ) → level g ≡ suc l → level' g ≡ suc l
  pub entries :
      (g j l : ℕ)
      → level g ≡ suc l
      → j < 512
      → entry ram g j % 2 ≡ 1
      → entry ram' g j ≡ entry ram g j
  pub walks : (n g v : ℕ) → level g ≡ suc n → walk ram' n g v ≡ walk ram n g v

-- The table behind the entry `i` of `f`, and the state in which it has been made.
pub record Descended (level : ℕ → ℕ) (m : Machine) (f i k : ℕ) (pointer : ℕ) (m' : Machine)
    : Type 0 where
  pub level' : ℕ → ℕ
  pub page : ℕ
  pub at : direct pointer ≡ page * 4096
  pub tree : IsTree level' m'.ram m'.phys
  pub kept : Kept level m.ram level' m'.ram
  pub level_page : level' page ≡ suc k
  pub present : entry m'.ram f i % 2 ≡ 1
  pub points : entry m'.ram f i / 4096 ≡ page
  pub supply : free_pages m.phys ≤ free_pages m'.phys + 1

pub next_table-present :
    (user : Bool) (m : Machine) (p f i : ℕ)
    → direct p ≡ f * 4096
    → entry m.ram f i % 2 ≡ 1
    → entry m.ram f i / 4096 < 16384
    → next_table user m p i ≡ (virtual_base + entry m.ram f i / 4096 * 4096, m)
unfolding next_table
next_table-present user m p f i at here small =
    let e = entry m.ram f i in
    let loaded : m.ram (direct p + 8 * i) ≡ e = rw at refl in
    let kept_on : (bit_and e 1 == 0) ≡ false = ground (arith, present_lem e) in
    rw (loaded, kept_on, mask_lem e (omega arith), window_right (e / 4096 * 4096) (omega arith))
      refl

next_table-absent :
    (user : Bool) (m : Machine) (p f i : ℕ)
    → direct p ≡ f * 4096
    → entry m.ram f i % 2 ≡ 0
    → next_table user m p i ≡ fresh_table user m p i
unfolding next_table
next_table-absent user m p f i at absent =
    let e = entry m.ram f i in
    let loaded : m.ram (direct p + 8 * i) ≡ e = rw at refl in
    let new : (bit_and e 1 == 0) ≡ true = ground (arith, present_lem e) in rw (loaded, new) refl

module _ {level : ℕ → ℕ} {m : Machine} {f i k : ℕ} (p : ℕ) (t : IsTree level m.ram m.phys)
    (level_f : level f ≡ suc (suc k)) (at : direct p ≡ f * 4096) (in_table : i < 512) where
  followed :
      (user : Bool)
      → entry m.ram f i % 2 ≡ 1
      → let (q, m') = next_table user m p i in Descended level m f i k q m'
  followed user here =
      let c = entry m.ram f i / 4096 in
      let child = t.child f i k level_f in_table here in
      let small = (t.taken c k child).0 in
      rw (next_table-present user m p f i at here small) (record {
        level' = level;
        page = c;
        at = direct_window (c * 4096) (omega arith);
        tree = t;
        kept = record {
          levels = λ g l h. h;
          entries = λ g j l h hj pr. refl;
          walks = λ n g v h. refl;
        };
        level_page = child;
        present = here;
        points = refl;
        supply = omega arith;
      })

  -- What the branch of a missing table leaves in memory.
  fresh_table-linked :
      (user : Bool) (c : ℕ)
      → (allocate_page m.phys).0 ≡ c * 4096
      → c < 16384
      → fresh_table user m p i ≡ (
        virtual_base + c * 4096,
        record {
          ram = linked m.ram f i c (c * 4096 + flags user);
          phys = (allocate_page m.phys).1;
        },
      )
  unfolding fresh_table
  fresh_table-linked user c e below =
      let place = direct_window (c * 4096) (omega arith) in
      rw
        (
          e,
          window_right (c * 4096) (omega arith),
          window_left (c * 4096) (omega arith),
          place,
          at,
          with_flags_lem user c,
        )
        refl

  made :
      (user : Bool)
      → entry m.ram f i % 2 ≡ 0
      → 0 < free_pages m.phys
      → let (q, m') = next_table user m p i in Descended level m f i k q m'
  made user absent supply =
      let a = allocate_page-Allocated m.phys (HasFree-free_pages m.phys supply) in
      let c = a.page in
      let link : Linked level m.ram (linked m.ram f i c (c * 4096 + flags user)) m.phys
          (allocate_page m.phys).1 f i k c (c * 4096 + flags user) =
        record {
          tree = t;
          level_f = level_f;
          in_table = in_table;
          absent = absent;
          below = a.below;
          was_free = a.was_free;
          marks = a.marks;
          present = ground arith;
          points = ground arith;
          entries = λ g j hj. entry-linked m.ram f i c (c * 4096 + flags user) g j in_table hj;
        } in
      rw (next_table-absent user m p f i at absent, fresh_table-linked user c a.at a.below)
        (record {
          level' = update level c (suc k);
          page = c;
          at = direct_window (c * 4096) (ground (arith, a.below));
          tree = Linked-IsTree link;
          kept = record {
            levels = λ g l h. ground (arith, not_a_table link g l h);
            entries = λ g j l h hj pr. ground (
              arith,
              entry-linked m.ram f i c (c * 4096 + flags user) g j in_table hj,
              not_a_table link g l h,
            );
            walks = walk-Linked link;
          };
          level_page = ground arith;
          present =
              ground
                (arith, entry-linked m.ram f i c (c * 4096 + flags user) f i in_table in_table);
          points =
              ground
                (arith, entry-linked m.ram f i c (c * 4096 + flags user) f i in_table in_table);
          supply = omega (arith, free_pages-allocate_page m.phys supply);
        })

  -- In every case the step leads to a table one level below, and keeps what was there.
  pub next_table-Descended :
      (user : Bool)
      → 0 < free_pages m.phys
      → let (q, m') = next_table user m p i in Descended level m f i k q m'
  next_table-Descended user supply = elim (Bool-cases (entry m.ram f i % 2 == 1)) [
    | inl here ↦ followed user (ground arith)
    | inr absent ↦ made user (ground arith) supply
  ]

pub Kept-trans :
    {level ram level' ram' level'' ram'' : ℕ → ℕ}
    → Kept level ram level' ram'
    → Kept level' ram' level'' ram''
    → Kept level ram level'' ram''
Kept-trans {ram} {ram'} a b = record {
  levels = λ g l h. b.levels g l (a.levels g l h);
  entries = λ g j l h hj p.
      let same = a.entries g j l h hj p in
      b.entries g j l (a.levels g l h) hj (ap (λ e. e % 2) same ∙ p) ∙ same;
  walks = λ n g v h. b.walks n g v (a.levels g n h) ∙ a.walks n g v h;
}

-- A way down through tables of the old state is one of the new state.
pub Reaches-Kept :
    {level ram level' ram' : ℕ → ℕ} {phys : PhysMemory} (n g v c : ℕ)
    → IsTree level ram phys
    → Kept level ram level' ram'
    → level g ≡ suc n
    → Reaches ram n g v c
    → Reaches ram' n g v c
Reaches-Kept zero g v c t a h r = r
Reaches-Kept {level} {ram} {level'} {ram'} (suc n) g v c t a h (p, r) =
    let i = index (suc n) v in
    let same = a.entries g i (suc n) h (index-lt (suc n) v) p in
    let below =
      Reaches-Kept n (entry ram g i / 4096) v c t a (t.child g i n h (index-lt (suc n) v) p) r in
    (ap (λ e. e % 2) same ∙ p, subst (λ e. Reaches ram' n (e / 4096) v c) (sym same) below)
