-- ===== src/Process/Fork/Leaves.antt =====
-- The innermost loop of `copy_parents_pagetables`: the entries of a last table.
use sbu_operating_system.Prelude.{
  ℕ, zero, suc, ◌+◌, ◌*◌, ◌/◌, ◌%◌, ◌^◌, ◌≤◌, ◌<◌, ◌≡◌, ◌≢◌, ◌∙◌, ap, sym, arith, refl, inl, inr,
  ◌==◌, ◌&&◌, if◌then◌else◌, Bool-cases, bit_and, bit_or, update, Bool, subst, true, false,
}
use sbu_operating_system.Bits.{bit_or-shift}
use sbu_operating_system.PhysMemory.{PhysMemory}
use sbu_operating_system.Paging.{Machine, direct, load, store, mask_permission, pt_p}
use sbu_operating_system.Paging.Entry.{mask_lem, present_lem}
use sbu_operating_system.Paging.Mmu.{entry, index}
use sbu_operating_system.Paging.Leaf.{written, entry-written}
use sbu_operating_system.Process.Fork.{copy_pt}
use sbu_operating_system.Process.Fork.Copied.{
  differ, flagged, shared, shared-shared, Shared, Copied,
}

-- A new entry for a page: its address and the flags P, R and U.
pub or_seven : (c : ℕ) → bit_or (c * 4096) 7 ≡ c * 4096 + 7
or_seven c = bit_or-shift 12 c 7 (omega arith)

-- The parent's entry with its new flags.
abbrev marked : (ℕ → ℕ) → ℕ → ℕ → ℕ → ℕ
marked ram p l = let e = entry ram p l in if e % 2 == 1 then written ram p l (flagged e) else ram

-- One round.
abbrev one_copied : Machine → ℕ → ℕ → ℕ → Machine
one_copied m p c l = record m { ram = written (marked m.ram p l) c l (shared (entry m.ram p l)) }

entry-marked :
    (ram : ℕ → ℕ) (p l f j : ℕ)
    → l < 512
    → j < 512
    → entry (marked ram p l) f j
      ≡ (if (f == p) && (j == l) then shared (entry ram p l) else entry ram f j)
entry-marked ram p l f j hl hj = elim (Bool-cases (entry ram p l % 2 == 1)) [
  | inl here ↦ rw here (entry-written ram p l (flagged (entry ram p l)) f j hl hj)
  | inr absent ↦ rw absent (elim (Bool-cases ((f == p) && (j == l))) [
    | inl same ↦
        let ef : f ≡ p = ground arith in let ej : j ≡ l = ground arith in rw (same, ef, ej) refl
    | inr other ↦ rw other refl
  ])
]

entry-one_copied :
    (m : Machine) (p c l f j : ℕ)
    → l < 512
    → j < 512
    → entry (one_copied m p c l).ram f j ≡ (
        if (f == c) && (j == l)
        then shared (entry m.ram p l)
        else if (f == p) && (j == l)
        then shared (entry m.ram p l)
        else entry m.ram f j)
entry-one_copied m p c l f j hl hj =
    let x = shared (entry m.ram p l) in
    entry-written (marked m.ram p l) c l x f j hl hj
    ∙ ap (λ y. if (f == c) && (j == l) then x else y) (entry-marked m.ram p l f j hl hj)

pub load_at :
    (m : Machine) (pointer f i : ℕ) → direct pointer ≡ f * 4096 → load m pointer i ≡ entry m.ram f i
load_at m pointer f i at = ap (λ a. m.ram (a + 8 * i)) at

pub store_at :
    (m : Machine) (pointer f i v : ℕ)
    → direct pointer ≡ f * 4096
    → store m pointer i v ≡ record m { ram = written m.ram f i v }
unfolding store
store_at m pointer f i v at = ap at_place at
  where
    at_place : ℕ → Machine
    at_place a = record m { ram = update m.ram (a + 8 * i) v }

-- The round as the code writes it, for the tables at two addresses.
abbrev round : Machine → ℕ → ℕ → ℕ → Machine
round m parent child l =
    let e = m.ram (parent + 8 * l) in
    let shown : ℕ → ℕ = update m.ram (parent + 8 * l) (bit_or (bit_and e mask_permission) 7) in
    let ram1 = if bit_and e pt_p == 0 then m.ram else shown in
    record m { ram = update ram1 (child + 8 * l) (ram1 (parent + 8 * l)) }

round-one_copied :
    (m : Machine) (l p c : ℕ)
    → entry m.ram p l < 2 ^ 64
    → round m (p * 4096) (c * 4096) l ≡ one_copied m p c l
round-one_copied m l p c word =
    let e = entry m.ram p l in
    elim (Bool-cases (e % 2 == 1)) [
      | inl here ↦
          let on : (bit_and e pt_p == 0) ≡ false = ground (arith, present_lem e) in
          let ram1 : ℕ → ℕ = written m.ram p l (flagged e) in
          let itself : ram1 (p * 4096 + 8 * l) ≡ flagged e = ground arith in
          rw (on, here, mask_lem e word, or_seven (e / 4096))
            (ap (λ x. record m { ram = written ram1 c l x }) itself)
      | inr absent ↦
          let off : (bit_and e pt_p == 0) ≡ true = ground (arith, present_lem e) in
          rw (off, absent) refl
    ]

choose_store :
    (m : Machine) (parent l v : ℕ) (b : Bool)
    → (if b then m else store m parent l v)
      ≡ record m { ram = if b then m.ram else update m.ram (direct parent + 8 * l) v }
unfolding store
choose_store m parent l v true = refl
choose_store m parent l v false = refl

one_copied-other :
    (m : Machine) (p c l f j : ℕ)
    → l < 512
    → j < 512
    → f ≢ c
    → f ≢ p
    → entry (one_copied m p c l).ram f j ≡ entry m.ram f j
one_copied-other m p c l f j hl hj not_c not_p =
    ground (arith, entry-one_copied m p c l f j hl hj, not_c, not_p)

copy_pt-step :
    (rounds l parent child : ℕ) (m : Machine) (p c : ℕ)
    → direct parent ≡ p * 4096
    → direct child ≡ c * 4096
    → entry m.ram p l < 2 ^ 64
    → copy_pt (suc rounds) l parent child m
      ≡ copy_pt rounds (l + 1) parent child (one_copied m p c l)
unfolding copy_pt store
copy_pt-step rounds l parent child m p c at_p at_c word =
    let e = load m parent l in
    let v = bit_or (bit_and e mask_permission) 7 in
    ap (λ m1. copy_pt rounds (l + 1) parent child (store m1 child l (load m1 parent l)))
      (choose_store m parent l v (bit_and e pt_p == 0))
    ∙ ap (λ a. copy_pt rounds (l + 1) parent child (round m a (direct child) l)) at_p
    ∙ ap (λ a. copy_pt rounds (l + 1) parent child (round m (p * 4096) a l)) at_c
    ∙ ap (copy_pt rounds (l + 1) parent child) (round-one_copied m l p c word)

pub copy_pt-phys :
    (rounds l parent child : ℕ) (m : Machine) → (copy_pt rounds l parent child m).phys ≡ m.phys
unfolding copy_pt store
copy_pt-phys zero l parent child m = refl
copy_pt-phys (suc rounds) l parent child m =
    let e = load m parent l in
    let v = bit_or (bit_and e mask_permission) 7 in
    let m1 = if bit_and e pt_p == 0 then m else store m parent l v in
    copy_pt-phys rounds (l + 1) parent child (store m1 child l (load m1 parent l))
    ∙ ap (λ x. x.phys) (choose_store m parent l v (bit_and e pt_p == 0))

module _ (level ram : ℕ → ℕ) (phys : PhysMemory)
    (words : (f j : ℕ) → j < 512 → entry ram f j < 2 ^ 64) (p c : ℕ) (level_p : level p ≡ 1)
    (level_c : level c ≡ 0) where
  leaf_entry :
      (m : Machine) (l : ℕ)
      → Shared level ram phys m
      → l < 512
      → (entry m.ram p l < 2 ^ 64) × (shared (entry m.ram p l) ≡ shared (entry ram p l))
  leaf_entry m l s hl = elim (s.leaves p l level_p hl) [
    | inl e ↦ (omega (arith, words p l hl, e), ap shared e)
    | inr e ↦ (ground (arith, words p l hl, e), ap shared e ∙ shared-shared (entry ram p l))
  ]

  one_copied-Shared :
      (m : Machine) (l : ℕ)
      → l < 512
      → Shared level ram phys m
      → Shared level ram phys (one_copied m p c l)
  one_copied-Shared m l hl s = record {
    upper = λ f k j lf hj.
        one_copied-other m p c l f j hl hj (differ level f c _ 0 lf level_c (omega arith))
          (differ level f p _ 1 lf level_p (omega arith))
        ∙ s.upper f k j lf hj;
    leaves = λ f j lf hj.
        let not_c = differ level f c 1 0 lf level_c (omega arith) in
        elim (Bool-cases ((f == p) && (j == l))) [
          | inl same ↦
              let ef : f ≡ p = ground arith in
              let ej : j ≡ l = ground arith in
              let copied : entry (one_copied m p c l).ram f j ≡ shared (entry m.ram p l) =
                ground (arith, entry-one_copied m p c l f j hl hj, not_c) in
              let first = (leaf_entry m l s hl).1 in
              inr (
                copied
                ∙ first
                ∙ ap (λ x. shared (entry ram x l)) (sym ef)
                ∙ ap (λ x. shared (entry ram f x)) (sym ej))
          | inr other ↦
              let unchanged : entry (one_copied m p c l).ram f j ≡ entry m.ram f j =
                ground (arith, entry-one_copied m p c l f j hl hj, not_c) in
              elim (s.leaves f j lf hj) [
                | inl e ↦ inl (unchanged ∙ e)
                | inr e ↦ inr (unchanged ∙ e)
              ]
        ];
    taken = s.taken;
  }

  pub copy_pt-Copied :
      (rounds l end parent child : ℕ) (m : Machine)
      → direct parent ≡ p * 4096
      → direct child ≡ c * 4096
      → l + rounds ≡ end
      → end ≤ 512
      → Shared level ram phys m
      → Copied level ram phys m 0 l end p c (copy_pt rounds l parent child m)
  unfolding copy_pt
  copy_pt-Copied zero l end parent child m at_p at_c total fits s = record {
    kept = s;
    grows = λ f h. h;
    frame = λ f j hj h lf ne. refl;
    before = λ j lt hj. refl;
    behind = λ j le hj. refl;
    matches = λ v lo hi. absurd (omega arith);
  }
  copy_pt-Copied (suc rounds) l end parent child m at_p at_c total fits s =
      let hl : l < 512 = omega arith in
      let (word, same) = leaf_entry m l s hl in
      let m1 = one_copied m p c l in
      let now : entry m1.ram c l ≡ shared (entry m.ram p l) =
        ground (arith, entry-one_copied m p c l c l hl hl) in
      let c_not_p = differ level c p 0 1 level_c level_p (omega arith) in
      let earlier : (j : ℕ) → j < 512 → j ≢ l → entry m1.ram c j ≡ entry m.ram c j =
        λ j hj ne. ground (arith, entry-one_copied m p c l c j hl hj, c_not_p, ne) in
      let rest =
        copy_pt-Copied rounds (l + 1) end parent child m1 at_p at_c (omega arith) fits
          (one_copied-Shared m l hl s) in
      subst (Copied level ram phys m 0 l end p c)
        (sym (copy_pt-step rounds l parent child m p c at_p at_c word))
        (record {
          kept = rest.kept;
          grows = rest.grows;
          frame = λ f j hj taken lf ne.
              rest.frame f j hj taken lf ne
              ∙ one_copied-other m p c l f j hl hj ne
                  (differ level f p 0 1 lf level_p (omega arith));
          before = λ j lt hj. rest.before j (omega arith) hj ∙ earlier j hj (omega arith);
          behind = λ j le hj. rest.behind j le hj ∙ earlier j hj (omega arith);
          matches = λ v lo hi. elim (Bool-cases (index 0 v == l)) [
            | inl at ↦
                let e : index 0 v ≡ l = ground arith in
                subst
                  (λ j.
                    entry (copy_pt rounds (l + 1) parent child m1).ram c j ≡ shared (entry ram p j))
                  (sym e) (rest.before l (omega arith) hl ∙ now ∙ same)
            | inr later ↦ rest.matches v (ground arith) hi
          ];
        })
