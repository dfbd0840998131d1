-- ===== src/Process/Fork/Copied.antt =====
-- What the copies of page tables keep and what they make, against the tables as they were.
use sbu_operating_system.Prelude.{
  ℕ, zero, suc, ◌+◌, ◌*◌, ◌/◌, ◌%◌, ◌≤◌, ◌<◌, ◌≡◌, ◌≢◌, ◌⊎◌, ◌∙◌, ap, sym, arith, refl, inl, inr,
  ◌==◌, if◌then◌else◌, Bool-cases, some, subst, true,
}
use sbu_operating_system.PhysMemory.{PhysMemory}
use sbu_operating_system.PhysMemory.Bitmap.{busy}
use sbu_operating_system.Paging.{Machine}
use sbu_operating_system.Paging.Mmu.{entry, walk, index}
use sbu_operating_system.Paging.Tree.{IsTree, index-lt}

-- A last entry with the page it had and the flags P, R and U.
abbrev pub flagged : ℕ → ℕ
flagged e = e / 4096 * 4096 + 7

-- What becomes of a last entry: only one that is present changes.
abbrev pub shared : ℕ → ℕ
shared e = if e % 2 == 1 then flagged e else e

pub shared-shared : (e : ℕ) → shared (shared e) ≡ shared e
shared-shared e = ground arith

-- Pages of different levels are different.
pub differ : (level : ℕ → ℕ) (f g k l : ℕ) → level f ≡ k → level g ≡ l → k ≢ l → f ≢ g
differ level f g k l lf lg ne e = ne (sym lf ∙ ap level e ∙ lg)

some-injective : (a b : ℕ) → some a ≡ some b → a ≡ b
some-injective a b h = cc h

module _ (level ram : ℕ → ℕ) (phys : PhysMemory) where
  -- The tables are as they were in `ram`, but for the flags of last entries; no page has become free.
  pub record Shared (m : Machine) : Type 0 where
    pub upper : (f k j : ℕ) → level f ≡ suc (suc k) → j < 512 → entry m.ram f j ≡ entry ram f j
    pub leaves :
        (f j : ℕ)
        → level f ≡ 1
        → j < 512
        → (entry m.ram f j ≡ entry ram f j) ⊎ (entry m.ram f j ≡ shared (entry ram f j))
    pub taken : (f : ℕ) → busy phys f ≡ 1 → busy m.phys f ≡ 1

  -- On the way to `v`, the tables from page `c` on follow those that were at page `p`; the tables
  -- below `c` stand in pages that were free in `s`.
  abbrev pub Matches : PhysMemory → Machine → ℕ → ℕ → ℕ → ℕ → Type 0
  Matches s m zero p c v = entry m.ram c (index 0 v) ≡ shared (entry ram p (index 0 v))
  Matches s m (suc n) p c v =
      let i = index (suc n) v in
      let q = entry m.ram c i / 4096 in
      entry ram p i % 2 ≡ 1
      → (entry m.ram c i % 2 ≡ 1)
        × (busy m.phys q ≡ 1)
        × (busy s q ≡ 0)
        × (level q ≡ 0)
        × Matches s m n (entry ram p i / 4096) q v

  -- From `m` to `m'`, the entries of the table `p` from `i` up to `end` were copied to `c`.
  pub record Copied (m : Machine) (n i end p c : ℕ) (m' : Machine) : Type 0 where
    pub kept : Shared m'
    pub grows : (f : ℕ) → busy m.phys f ≡ 1 → busy m'.phys f ≡ 1
    pub frame :
        (f j : ℕ)
        → j < 512
        → busy m.phys f ≡ 1
        → level f ≡ 0
        → f ≢ c
        → entry m'.ram f j ≡ entry m.ram f j
    pub before : (j : ℕ) → j < i → j < 512 → entry m'.ram c j ≡ entry m.ram c j
    pub behind : (j : ℕ) → end ≤ j → j < 512 → entry m'.ram c j ≡ entry m.ram c j
    pub matches : (v : ℕ) → i ≤ index n v → index n v < end → Matches m.phys m' n p c v

  -- A later state keeps what was copied, if it writes only to free pages and to another table.
  pub Matches-later :
      (s : PhysMemory) (m m' : Machine) (other n p c v : ℕ)
      → busy s other ≡ 1
      → ((f : ℕ) → busy m.phys f ≡ 1 → busy m'.phys f ≡ 1)
      → ((f j : ℕ)
          → j < 512
          → busy m.phys f ≡ 1
          → level f ≡ 0
          → f ≢ other
          → entry m'.ram f j ≡ entry m.ram f j)
      → busy m.phys c ≡ 1
      → level c ≡ 0
      → c ≢ other
      → Matches s m n p c v
      → Matches s m' n p c v
  Matches-later s m m' other zero p c v o grows frame taken lc ne h =
      frame c (index 0 v) (index-lt 0 v) taken lc ne ∙ h
  Matches-later s m m' other (suc n) p c v o grows frame taken lc ne h = λ present.
      let i = index (suc n) v in
      let same = frame c i (index-lt (suc n) v) taken lc ne in
      let q = entry m.ram c i / 4096 in
      let (here, busy_q, free_q, level_q, below) = h present in
      let apart : q ≢ other = λ e. absurd (omega (arith, ap (busy s) e)) in
      let rest =
        Matches-later s m m' other n (entry ram p i / 4096) q v o grows frame busy_q level_q apart
          below in
      subst
        (λ x.
          (x % 2 ≡ 1)
          × (busy m'.phys (x / 4096) ≡ 1)
          × (busy s (x / 4096) ≡ 0)
          × (level (x / 4096) ≡ 0)
          × Matches s m' n (entry ram p i / 4096) (x / 4096) v)
        (sym same) (here, grows q busy_q, free_q, level_q, rest)

  -- Pages that were free later were free before.
  pub Matches-earlier :
      (s s' : PhysMemory) (m : Machine) (n p c v : ℕ)
      → ((f : ℕ) → busy s' f ≡ 0 → busy s f ≡ 0)
      → Matches s' m n p c v
      → Matches s m n p c v
  Matches-earlier s s' m zero p c v free h = h
  Matches-earlier s s' m (suc n) p c v free h = λ present.
      let (here, busy_q, free_q, level_q, below) = h present in
      let i = index (suc n) v in
      let q = entry m.ram c i / 4096 in
      let rest = Matches-earlier s s' m n (entry ram p i / 4096) q v free below in
      (here, busy_q, free q free_q, level_q, rest)

  -- The processor finds the copy of what it found.
  pub walk-Matches :
      (s : PhysMemory) (m : Machine) (n p c v e : ℕ)
      → Matches s m n p c v
      → walk ram n p v ≡ some e
      → walk m.ram n c v ≡ some (flagged e)
  unfolding walk
  walk-Matches s m zero p c v e h found =
      let x = entry ram p (index 0 v) in
      elim (Bool-cases (x % 2 == 1)) [
        | inl here ↦
            let same : x ≡ e = some-injective x e (rw here at found) in
            let copy : entry m.ram c (index 0 v) ≡ flagged e = rw here at h ∙ ap flagged same in
            let on : (flagged e % 2 == 1) ≡ true = ground arith in rw (copy, on) refl
        | inr absent ↦ absurd (cc (rw absent at found))
      ]
  walk-Matches s m (suc n) p c v e h found =
      let x = entry ram p (index (suc n) v) in
      elim (Bool-cases (x % 2 == 1)) [
        | inl here ↦
            let (present, _, _, _, below) = h (ground arith) in
            let found' : walk ram n (x / 4096) v ≡ some e = rw here at found in
            let rest = walk-Matches s m n (x / 4096) _ v e below found' in
            let on : (entry m.ram c (index (suc n) v) % 2 == 1) ≡ true = ground arith in rw on rest
        | inr absent ↦ absurd (cc (rw absent at found))
      ]

  -- The processor finds in the parent's tables what it found, with the old or the new flags.
  pub walk-Shared :
      (m : Machine) (n p v e : ℕ)
      → IsTree level ram phys
      → level p ≡ suc n
      → Shared m
      → walk ram n p v ≡ some e
      → (walk m.ram n p v ≡ some e) ⊎ (walk m.ram n p v ≡ some (flagged e))
  unfolding walk
  walk-Shared m zero p v e t lp s found =
      let x = entry ram p (index 0 v) in
      elim (Bool-cases (x % 2 == 1)) [
        | inl here ↦
            let same : x ≡ e = some-injective x e (rw here at found) in
            let on : (flagged e % 2 == 1) ≡ true = ground arith in
            elim (s.leaves p (index 0 v) lp (index-lt 0 v)) [
              | inl kept ↦ inl (rw (kept, here) (ap some same))
              | inr new ↦
                  let flags : entry m.ram p (index 0 v) ≡ flagged e =
                    (rw here at new) ∙ ap flagged same in
                  inr (rw (flags, on) refl)
            ]
        | inr absent ↦ absurd (cc (rw absent at found))
      ]
  walk-Shared m (suc n) p v e t lp s found =
      let i = index (suc n) v in
      let x = entry ram p i in
      let same = s.upper p n i lp (index-lt (suc n) v) in
      elim (Bool-cases (x % 2 == 1)) [
        | inl here ↦
            let child = t.child p i n lp (index-lt (suc n) v) (ground arith) in
            let found' : walk ram n (x / 4096) v ≡ some e = rw here at found in
            rw (same, here) (walk-Shared m n (x / 4096) v e t child s found')
        | inr absent ↦ absurd (cc (rw absent at found))
      ]
