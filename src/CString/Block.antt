-- ===== src/CString/Block.antt =====
-- `memcpy` and `memset`: which bytes they change, and to what.
use sbu_operating_system.Prelude.{
  ℕ, zero, suc, ◌+◌, ◌-◌, ◌≤◌, ◌≡◌, ◌⊎◌, inl, inr, ap, Bool-cases, arith, leb, ltb, ◌==◌, ◌&&◌,
  if◌then◌else◌, update, u8,
}
use sbu_operating_system.CString.{Memory, memcpy, memset}

-- After `memcpy` between blocks that do not overlap, or with the destination at or below the
-- source, the destination holds what the source held, and every other byte is as before.
pub memcpy_lem :
    (n : ℕ) (m : Memory) (d s a : ℕ)
    → (d ≤ s) ⊎ (s + n ≤ d)
    → memcpy m d s n a ≡ (if leb d a && ltb a (d + n) then m (s + (a - d)) else m a)
unfolding memcpy
memcpy_lem zero m d s a h = ground arith
memcpy_lem (suc n) m d s a h =
    let m1 : Memory = update m d (m s) in
    let rest = memcpy_lem n m1 (d + 1) (s + 1) a (omega arith) in
    let place : d + 1 ≤ a → s + 1 + (a - (d + 1)) ≡ s + (a - d) = λ lo. omega arith in
    elim (Bool-cases (leb (d + 1) a)) [
      | inl behind ↦ let lo : d + 1 ≤ a = ground arith in ground (arith, rest, ap m1 (place lo))
      | inr before ↦ elim (Bool-cases (a == d)) [
        | inl same ↦ let e : s + (a - d) ≡ s = ground arith in ground (arith, rest, ap m e)
        | inr differ ↦ ground (arith, rest)
      ]
    ]

-- `memset` fills the block with the low byte of the value and changes nothing else.
pub memset_lem :
    (n : ℕ) (m : Memory) (p val a : ℕ)
    → memset m p val n a ≡ (if leb p a && ltb a (p + n) then u8 val else m a)
unfolding memset
memset_lem zero m p val a = ground arith
memset_lem (suc n) m p val a = ground (arith, memset_lem n (update m p (u8 val)) (p + 1) val a)
