-- ===== src/Process/Fork/Join.antt =====
-- One entry of an upper table, put together with the entries behind it.
use sbu_operating_system.Prelude.{
  ℕ, suc, ◌+◌, ◌*◌, ◌/◌, ◌%◌, ◌<◌, ◌≡◌, ◌≢◌, ◌∙◌, ap, sym, arith, inl, inr, ◌==◌, if◌then◌else◌,
  Bool-cases, subst,
}
use sbu_operating_system.Bits.{bit-le-one}
use sbu_operating_system.PhysMemory.{PhysMemory, allocate_page}
use sbu_operating_system.PhysMemory.Bitmap.{busy}
use sbu_operating_system.Paging.{Machine}
use sbu_operating_system.Paging.Mmu.{entry, index}
use sbu_operating_system.Paging.Tree.{index-lt}
use sbu_operating_system.Paging.Leaf.{entry-written}
use sbu_operating_system.Process.Fork.Copied.{
  differ, Shared, Matches, Matches-later, Matches-earlier, Copied,
}
use sbu_operating_system.Process.Fork.Tables.{linked_at}

-- What is free after pages were taken was free before.
pub free_before :
    (s s' : PhysMemory)
    → ((f : ℕ) → busy s f ≡ 1 → busy s' f ≡ 1)
    → (f : ℕ) → busy s' f ≡ 0
    → busy s f ≡ 0
free_before s s' grows f free = elim (Bool-cases (busy s f == 1)) [
  | inl taken ↦ absurd (omega (arith, grows f (ground arith)))
  | inr other ↦ ground (arith, bit-le-one (f % 64) (s.free_list (f / 64)))
]

-- Taking a page leaves every other mark.
pub taken_still :
    (s s' : PhysMemory) (q : ℕ)
    → ((f : ℕ) → busy s' f ≡ (if f == q then 1 else busy s f))
    → (f : ℕ) → busy s f ≡ 1
    → busy s' f ≡ 1
taken_still s s' q marks f h = ground (arith, marks f)

pub taken_now :
    (s s' : PhysMemory) (q : ℕ)
    → ((f : ℕ) → busy s' f ≡ (if f == q then 1 else busy s f))
    → busy s' q ≡ 1
taken_now s s' q marks = ground (arith, marks q)

module _ (level ram : ℕ → ℕ) (phys : PhysMemory) where
  Matches-link :
      (s : PhysMemory) (m : Machine) (n p c v i q : ℕ)
      → index (suc n) v ≡ i
      → entry m.ram c i ≡ q * 4096 + 7
      → busy m.phys q ≡ 1
      → busy s q ≡ 0
      → level q ≡ 0
      → Matches level ram phys s m n (entry ram p i / 4096) q v
      → Matches level ram phys s m (suc n) p c v
  Matches-link s m n p c v i q at linked taken free level_q below = λ present.
      let j = index (suc n) v in
      let e : entry m.ram c j ≡ q * 4096 + 7 = ap (λ x. entry m.ram c x) at ∙ linked in
      let page : entry m.ram c j / 4096 ≡ q = omega (arith, e) in
      let same : Matches level ram phys s m n (entry ram p j / 4096) q v =
        subst (λ x. Matches level ram phys s m n (entry ram p x / 4096) q v) (sym at) below in
      subst
        (λ y.
          (entry m.ram c j % 2 ≡ 1)
          × (busy m.phys y ≡ 1)
          × (busy s y ≡ 0)
          × (level y ≡ 0)
          × Matches level ram phys s m n (entry ram p j / 4096) y v)
        (sym page) (omega (arith, e), taken, free, level_q, same)

  -- A linked page keeps the tables of the parent as they are.
  pub linked_at-Shared :
      (m : Machine) (c i q : ℕ)
      → level c ≡ 0
      → i < 512
      → ((f : ℕ) → busy m.phys f ≡ 1 → busy (allocate_page m.phys).1 f ≡ 1)
      → Shared level ram phys m
      → Shared level ram phys (linked_at m c i q)
  linked_at-Shared m c i q level_c hi grows s =
      let same : (f k j : ℕ)
          → level f ≡ suc k
          → j < 512
          → entry (linked_at m c i q).ram f j ≡ entry m.ram f j =
        λ f k j lf hj.
          let ne = differ level f c (suc k) 0 lf level_c (omega arith) in
          ground (arith, entry-written m.ram c i (q * 4096 + 7) f j hi hj, ne) in
      record {
        upper = λ f k j lf hj. same f (suc k) j lf hj ∙ s.upper f k j lf hj;
        leaves = λ f j lf hj. elim (s.leaves f j lf hj) [
          | inl e ↦ inl (same f 0 j lf hj ∙ e)
          | inr e ↦ inr (same f 0 j lf hj ∙ e)
        ];
        taken = λ f h. grows f (s.taken f h);
      }

  -- The entry `i`, which leads to the copy at `q`, and then the entries behind it.
  pub Copied-join :
      (m m2 m3 : Machine) (n i end p c q : ℕ)
      → i < 512
      → i < end
      → level c ≡ 0
      → level q ≡ 0
      → busy m.phys c ≡ 1
      → busy m.phys q ≡ 0
      → ((f : ℕ) → busy (allocate_page m.phys).1 f ≡ (if f == q then 1 else busy m.phys f))
      → Copied level ram phys (linked_at m c i q) n 0 512 (entry ram p i / 4096) q m2
      → Copied level ram phys m2 (suc n) (i + 1) end p c m3
      → Copied level ram phys m (suc n) i end p c m3
  Copied-join m m2 m3 n i end p c q hi inside level_c level_q busy_c free_q marks sub rest =
      let m1 = linked_at m c i q in
      let x = q * 4096 + 7 in
      let c_not_q : c ≢ q = λ e. absurd (omega (arith, ap (busy m.phys) e)) in
      let q_not_c : q ≢ c = λ e. c_not_q (sym e) in
      let grows1 : (f : ℕ) → busy m.phys f ≡ 1 → busy m1.phys f ≡ 1 =
        taken_still m.phys m1.phys q marks in
      let busy_q : busy m1.phys q ≡ 1 = taken_now m.phys m1.phys q marks in
      let grows : (f : ℕ) → busy m.phys f ≡ 1 → busy m3.phys f ≡ 1 =
        λ f h. rest.grows f (sub.grows f (grows1 f h)) in
      let in_c : (j : ℕ) → j < i + 1 → j < 512 → entry m3.ram c j ≡ entry m1.ram c j =
        λ j lt hj. rest.before j lt hj ∙ sub.frame c j hj (grows1 c busy_c) level_c c_not_q in
      let linked : entry m3.ram c i ≡ x =
        in_c i (omega arith) hi ∙ ground (arith, entry-written m.ram c i x c i hi hi) in
      record {
        kept = rest.kept;
        grows = grows;
        frame = λ f j hj taken lf ne.
            let not_q : f ≢ q = λ e. absurd (omega (arith, ap (busy m.phys) e)) in
            let taken1 = grows1 f taken in
            rest.frame f j hj (sub.grows f taken1) lf ne
            ∙ sub.frame f j hj taken1 lf not_q
            ∙ ground (arith, entry-written m.ram c i x f j hi hj, ne);
        before = λ j lt hj.
            in_c j (omega arith) hj ∙ ground (arith, entry-written m.ram c i x c j hi hj);
        behind = λ j le hj.
            rest.behind j le hj
            ∙ sub.frame c j hj (grows1 c busy_c) level_c c_not_q
            ∙ ground (arith, entry-written m.ram c i x c j hi hj);
        matches = λ v lo hi'. elim (Bool-cases (index (suc n) v == i)) [
          | inl at ↦
              let copied = sub.matches v (omega arith) (index-lt n v) in
              let later =
                Matches-later level ram phys m1.phys m2 m3 c n (entry ram p i / 4096) q v
                  (grows1 c busy_c) rest.grows rest.frame (sub.grows q busy_q) level_q q_not_c
                  copied in
              Matches-link m.phys m3 n p c v i q (ground arith) linked
                (rest.grows q (sub.grows q busy_q)) free_q level_q
                (Matches-earlier level ram phys m.phys m1.phys m3 n (entry ram p i / 4096) q v
                  (free_before m.phys m1.phys grows1) later)
          | inr behind ↦
              Matches-earlier level ram phys m.phys m2.phys m3 (suc n) p c v
                (free_before m.phys m2.phys (λ f h. sub.grows f (grows1 f h)))
                (rest.matches v (ground arith) hi')
        ];
      }

  -- An entry that is not present is passed over.
  pub Copied-skip :
      (m m' : Machine) (n i end p c : ℕ)
      → entry ram p i % 2 ≡ 0
      → Copied level ram phys m (suc n) (i + 1) end p c m'
      → Copied level ram phys m (suc n) i end p c m'
  Copied-skip m m' n i end p c absent rest = record {
    kept = rest.kept;
    grows = rest.grows;
    frame = rest.frame;
    before = λ j lt hj. rest.before j (omega arith) hj;
    behind = rest.behind;
    matches = λ v lo hi. elim (Bool-cases (index (suc n) v == i)) [
      | inl at ↦
          let e : index (suc n) v ≡ i = ground arith in
          λ present. absurd (omega (arith, ap (λ j. entry ram p j) e))
      | inr behind ↦ rest.matches v (ground arith) hi
    ];
  }
