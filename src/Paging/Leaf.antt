-- ===== src/Paging/Leaf.antt =====
-- Writing an entry of a last-level table.
use sbu_operating_system.Prelude.{
  ℕ, zero, suc, ◌+◌, ◌*◌, ◌/◌, ◌%◌, ◌<◌, ◌≡◌, ◌∙◌, ◌&&◌, ap, sym, arith, update, ◌==◌,
  if◌then◌else◌, Bool-cases, inl, inr, some,
}
use sbu_operating_system.PhysMemory.{PhysMemory}
use sbu_operating_system.Paging.Mmu.{entry, walk, Reaches, index}
use sbu_operating_system.Paging.Tree.{IsTree, index-lt}

abbrev pub written : (ℕ → ℕ) → ℕ → ℕ → ℕ → ℕ → ℕ
written ram c i e = update ram (c * 4096 + 8 * i) e

pub entry-written :
    (ram : ℕ → ℕ) (c i e g j : ℕ)
    → i < 512
    → j < 512
    → entry (written ram c i e) g j ≡ (if (g == c) && (j == i) then e else entry ram g j)
entry-written ram c i e g j hi hj = ground arith

module _ {level ram : ℕ → ℕ} {phys : PhysMemory} (c i e : ℕ) (t : IsTree level ram phys)
    (level_c : level c ≡ 1) (in_table : i < 512) where
  abbrev ram' : ℕ → ℕ
  ram' = written ram c i e

  -- No entry above the last level is touched.
  above : (g j l : ℕ) → level g ≡ suc (suc l) → j < 512 → entry ram' g j ≡ entry ram g j
  above g j l lg hj = elim (Bool-cases (g == c)) [
    | inl same ↦ let eq : g ≡ c = ground arith in absurd (omega (arith, ap level eq))
    | inr other ↦ ground (arith, entry-written ram c i e g j in_table hj)
  ]

  pub written-IsTree : IsTree level ram' phys
  written-IsTree = record {
    child = λ f j k lf hj p.
        let same = above f j k lf hj in
        ap (λ x. level (x / 4096)) same ∙ t.child f j k lf hj (ap (λ x. x % 2) (sym same) ∙ p);
    unique = λ f j k g j' l lf lg hj hj' p p' eq.
        let same = above f j k lf hj in
        let same' = above g j' l lg hj' in
        t.unique f j k g j' l lf lg hj hj' (ap (λ x. x % 2) (sym same) ∙ p)
          (ap (λ x. x % 2) (sym same') ∙ p')
          (ap (λ x. x / 4096) (sym same) ∙ eq ∙ ap (λ x. x / 4096) same');
    taken = t.taken;
  }

  -- The address that leads to the entry finds what was written.
  pub walk-written_self :
      (n g v : ℕ)
      → level g ≡ suc n
      → Reaches ram n g v c
      → index 0 v ≡ i
      → e % 2 ≡ 1
      → walk ram' n g v ≡ some e
  unfolding walk
  walk-written_self zero g v lg r at p =
      ground (arith, entry-written ram c i e g (index 0 v) in_table (index-lt 0 v))
  walk-written_self (suc n) g v lg (q, r) at p =
      let j = index (suc n) v in
      let lower = t.child g j n lg (index-lt (suc n) v) q in
      ground (
        arith,
        above g j n lg (index-lt (suc n) v),
        walk-written_self n (entry ram g j / 4096) v lower r at p,
      )

  -- Any other address finds what it found before.
  pub walk-written_ne :
      (n g v : ℕ)
      → level g ≡ suc n
      → ¬ (Reaches ram n g v c × (index 0 v ≡ i))
      → walk ram' n g v ≡ walk ram n g v
  unfolding walk
  walk-written_ne zero g v lg other = elim (Bool-cases ((g == c) && (index 0 v == i))) [
    | inl hit ↦ absurd (other (ground arith, ground arith))
    | inr miss ↦ ground (arith, entry-written ram c i e g (index 0 v) in_table (index-lt 0 v))
  ]
  walk-written_ne (suc n) g v lg other =
      let j = index (suc n) v in
      let same = above g j n lg (index-lt (suc n) v) in
      elim (Bool-cases (entry ram g j % 2 == 1)) [
        | inr absent ↦ ground (arith, same)
        | inl here ↦
            let p : entry ram g j % 2 ≡ 1 = ground arith in
            let lower = t.child g j n lg (index-lt (suc n) v) p in
            ground (
              arith,
              same,
              walk-written_ne n (entry ram g j / 4096) v lower (λ r. other ((p, r.0), r.1)),
            )
      ]
