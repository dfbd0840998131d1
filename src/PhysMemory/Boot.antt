-- ===== src/PhysMemory/Boot.antt =====
-- `makeFreeList`: the marks after one region of the memory map has been entered.
use sbu_operating_system.Prelude.{
  ℕ, zero, suc, ◌+◌, ◌-◌, ◌*◌, ◌/◌, ◌^◌, ◌≤◌, ◌<◌, ◌≡◌, arith, ltb, leb, if◌then◌else◌, some, inl,
  inr, refl, Bool-cases, true, max, ◌&&◌, u64,
}
use sbu_operating_system.PhysMemory.{
  PhysMemory, set_page_busy, set_page_free, free_range, busy_low, make_free_list,
}
use sbu_operating_system.PhysMemory.Bitmap.{busy, busy-set_page_busy, busy-set_page_free}

busy-free_range :
    (rounds i end : ℕ) (s : PhysMemory) (q : ℕ)
    → i + rounds ≡ end
    → busy (free_range rounds i s) q ≡ (if leb i q && ltb q end then 0 else busy s q)
unfolding free_range
busy-free_range zero i end s q e = ground arith
busy-free_range (suc rounds) i end s q e = ground (
  arith,
  busy-free_range rounds (i + 1) end (set_page_free s i) q (omega arith),
  busy-set_page_free s i q,
)

bounds-free_range :
    (rounds i : ℕ) (s : PhysMemory)
    → ((free_range rounds i s).max_base ≡ s.max_base)
      × ((free_range rounds i s).max_end ≡ s.max_end)
unfolding free_range set_page_free
bounds-free_range zero i s = (refl, refl)
bounds-free_range (suc rounds) i s = bounds-free_range rounds (i + 1) (set_page_free s i)

-- The second loop, entered at page `count` with `i = count * 4096`.
record MarkedLow (physfree count : ℕ) (s s' : PhysMemory) : Type 0 where
  marks : (q : ℕ) → busy s' q ≡ (if leb count q && leb q (physfree / 4096) then 1 else busy s q)
  same_base : s'.max_base ≡ s.max_base
  same_end : s'.max_end ≡ s.max_end

busy_low-MarkedLow :
    (fuel physfree i count : ℕ) (s : PhysMemory)
    → physfree + 4096 < 2 ^ 43
    → i ≡ count * 4096
    → count ≤ physfree / 4096 + 1
    → physfree / 4096 + 1 < fuel + count
    → (s' : PhysMemory) × (busy_low fuel physfree i count s ≡ some s')
      × MarkedLow physfree count s s'
unfolding busy_low set_page_busy
busy_low-MarkedLow zero physfree i count s small e le fuel = absurd (omega arith)
busy_low-MarkedLow (suc n) physfree i count s small e le fuel = elim (Bool-cases (leb i physfree)) [
  | inr stop ↦ (s, rw stop, record { marks = λ q. ground arith; same_base = refl; same_end = refl })
  | inl more ↦
      let inside : ltb (count + 1) (2 ^ 31) ≡ true = ground arith in
      let (s', run, marked) =
        busy_low-MarkedLow n physfree (u64 (i + 4096)) (count + 1) (set_page_busy s count) small
          (ground arith) (ground arith) (omega arith) in
      (
        s',
        rw (more, inside) run,
        record {
          marks = λ q. ground (arith, marked.marks q, busy-set_page_busy s count q);
          same_base = marked.same_base;
          same_end = marked.same_end;
        },
      )
]

-- The marks and bounds that one call of `makeFreeList` leaves.
pub record Entered (physfree base end : ℕ) (s s' : PhysMemory) : Type 0 where
  pub marks :
      (q : ℕ)
      → busy s' q ≡ (
          if leb q (physfree / 4096)
          then 1
          else if leb (base / 4096) q && ltb q (end / 4096)
          then 0
          else busy s q)
  pub bounds : (s'.max_base ≡ max s.max_base base) × (s'.max_end ≡ max s.max_end end)

-- `makeFreeList` ends, for a kernel that ends below 2^43 - 4096. Afterwards every page up to and
-- including the one at `physfree` is busy, any other page of the region is free, every other mark
-- is as before, and the two bounds are raised to cover the region.
pub make_free_list-Entered :
    (physbase physfree base end : ℕ) (s : PhysMemory)
    → physfree + 4096 < 2 ^ 43
    → (s' : PhysMemory) × (make_free_list physbase physfree base end s ≡ some s')
      × Entered physfree base end s s'
unfolding make_free_list
make_free_list-Entered physbase physfree base end s small =
    let lo = base / 4096 in
    let rounds = end / 4096 - lo in
    let raised : PhysMemory = record s {
      max_base = if ltb s.max_base base then base else s.max_base;
      max_end = if ltb s.max_end end then end else s.max_end;
    } in
    let freed = free_range rounds lo raised in
    let (s', run, low) =
      busy_low-MarkedLow (physfree / 4096 + 2) physfree 0 0 freed small (omega arith) (omega arith)
        (omega arith) in
    (
      s',
      run,
      record {
        marks =
            λ q. ground (arith, low.marks q, busy-free_range rounds lo (lo + rounds) raised q refl);
        bounds = ground (arith, low.same_base, low.same_end, bounds-free_range rounds lo raised);
      },
    )
