-- ===== src/Process/Pids.antt =====
-- `getPid`: the lowest number that is not in use.
use sbu_operating_system.Prelude.{
  ℕ, zero, suc, ◌+◌, ◌-◌, ◌^◌, ◌≤◌, ◌<◌, ◌≡◌, ◌≢◌, ◌∙◌, ◌⊎◌, ap, sym, refl, arith, Option, none,
  some, ◌==◌, if◌then◌else◌, update, Bool-cases, inl, inr,
}
use sbu_operating_system.Process.{find_pid, get_pid}

abbrev pub InUse : (ℕ → ℕ) → ℕ → ℕ → Type 0
InUse used start end = (i : ℕ) → start ≤ i → i < end → used i ≢ 0

abbrev IsFirst : (ℕ → ℕ) → ℕ → ℕ → Option ℕ → Type 0
IsFirst used start end none = InUse used start end
IsFirst used start end (some p) = (start ≤ p) × (p < end) × (used p ≡ 0) × InUse used start p

InUse-append : (used : ℕ → ℕ) (i end : ℕ) → used i ≢ 0 → InUse used (i + 1) end → InUse used i end
InUse-append used i end h rest j lo hi = elim (Bool-cases (j == i)) [
  | inl same ↦ let e : j ≡ i = ground arith in λ z. h (ap used (sym e) ∙ z)
  | inr other ↦ rest j (ground arith) hi
]

find_pid-IsFirst :
    (rounds i end : ℕ) (used : ℕ → ℕ)
    → i + rounds ≡ end
    → IsFirst used i end (find_pid rounds i used)
unfolding find_pid
find_pid-IsFirst zero i end used e = λ j lo hi. absurd (omega arith)
find_pid-IsFirst (suc rounds) i end used e = elim (Bool-cases (used i == 0)) [
  | inl free ↦ rw free (omega arith, omega arith, ground arith, λ j lo hi. absurd (omega arith))
  | inr taken ↦ rw taken (
      behind (find_pid rounds (i + 1) used) (ground arith)
        (find_pid-IsFirst rounds (i + 1) end used (omega arith)))
]
  where
    behind : (r : Option ℕ) → used i ≢ 0 → IsFirst used (i + 1) end r → IsFirst used i end r
    behind none h rest = InUse-append used i end h rest
    behind (some p) h (lo, hi, free, rest) = (omega arith, hi, free, InUse-append used i p h rest)

-- `getPid` returns the lowest of the 2048 numbers that is free and marks it alone, or, when all of
-- them are in use, returns 2^64 - 1 and changes nothing.
pub get_pid_lem :
    (used : ℕ → ℕ)
    → let (pid, used') = get_pid used in
      ((pid < 2048)
        × (used pid ≡ 0)
        × InUse used 0 pid
        × ((i : ℕ) → used' i ≡ (if i == pid then 1 else used i)))
      ⊎ (InUse used 0 2048 × (pid ≡ 2 ^ 64 - 1) × (used' ≡ used))
unfolding get_pid
get_pid_lem used = go (find_pid 2048 0 used) (find_pid-IsFirst 2048 0 2048 used (omega arith))
  where
    go :
        (r : Option ℕ)
        → IsFirst used 0 2048 r
        → let out : ℕ × (ℕ → ℕ) = elim r [
          | none ↦ (2 ^ 64 - 1, used)
          | some i ↦ (i, update used i 1)
        ] in
          ((out.0 < 2048)
            × (used out.0 ≡ 0)
            × InUse used 0 out.0
            × ((i : ℕ) → out.1 i ≡ (if i == out.0 then 1 else used i)))
          ⊎ (InUse used 0 2048 × (out.0 ≡ 2 ^ 64 - 1) × (out.1 ≡ used))
    go none all = inr (all, refl, refl)
    go (some p) (lo, hi, free, below) = inl (hi, free, below, λ i. refl)
