-- ===== src/Boot/MemoryMap.antt =====
-- The marks and the bounds after the memory map has been entered.
use sbu_operating_system.Prelude.{
  ℕ, ◌+◌, ◌/◌, ◌^◌, ◌<◌, ◌≡◌, arith, Bool, true, false, ◌&&◌, ◌||◌, some, List, [], ◌∷◌, ltb, leb,
  if◌then◌else◌, inl, inr, refl, Bool-cases, max, u64,
}
use sbu_operating_system.PhysMemory.{PhysMemory}
use sbu_operating_system.PhysMemory.Bitmap.{busy}
use sbu_operating_system.PhysMemory.Boot.{Entered, make_free_list-Entered}
use sbu_operating_system.Boot.{SmapEntry, is_usable, note_longest, enter_map}

abbrev pub any_usable : List SmapEntry → Bool
any_usable [] = false
any_usable (e ∷ es) = is_usable e || any_usable es

-- A usable entry of the map covers the whole page `q`.
abbrev pub covered : List SmapEntry → ℕ → Bool
covered [] q = false
covered (e ∷ es) q =
    (is_usable e && leb (e.base / 4096) q && ltb q ((e.base + e.length) / 4096)) || covered es q

-- The highest start and the highest end of a usable entry.
abbrev pub top_base : List SmapEntry → ℕ
top_base [] = 0
top_base (e ∷ es) = if is_usable e then max e.base (top_base es) else top_base es

abbrev pub top_end : List SmapEntry → ℕ
top_end [] = 0
top_end (e ∷ es) = if is_usable e then max (e.base + e.length) (top_end es) else top_end es

-- No entry ends behind the last address.
abbrev pub AllFit : List SmapEntry → Type 0
AllFit [] = Unit
AllFit (e ∷ es) = (e.base + e.length < 2 ^ 64) × AllFit es

pub record MapEntered (physfree : ℕ) (es : List SmapEntry) (s s' : PhysMemory) : Type 0 where
  pub marks :
      (q : ℕ)
      → busy s' q ≡ (
          if any_usable es && leb q (physfree / 4096)
          then 1
          else if covered es q
          then 0
          else busy s q)
  pub highest_base : s'.max_base ≡ max s.max_base (top_base es)
  pub highest_end : s'.max_end ≡ max s.max_end (top_end es)

or-false : (a b : Bool) → (a || b) ≡ false → (a ≡ false) × (b ≡ false)
or-false true b h = absurd (cc h)
or-false false b h = (refl, h)

-- `makeFreeList` has raised `maxEnd` already, so the test on it fails.
note_longest_same :
    (physfree : ℕ) (e : SmapEntry) (s s' : PhysMemory)
    → Entered physfree e.base (e.base + e.length) s s'
    → note_longest e s' ≡ s'
unfolding note_longest
note_longest_same physfree e s s' h =
    let unusable : ltb s'.max_end e.length ≡ false = ground (arith, h.bounds) in rw unusable refl

covered-any_usable : (es : List SmapEntry) (q : ℕ) → any_usable es ≡ false → covered es q ≡ false
covered-any_usable [] q h = refl
covered-any_usable (e ∷ es) q h =
    let (first, rest) = or-false (is_usable e) (any_usable es) h in
    rw (first, covered-any_usable es q rest) refl

enter_map-skip :
    (physfree : ℕ) (e : SmapEntry) (es : List SmapEntry) (s s' : PhysMemory)
    → is_usable e ≡ false
    → MapEntered physfree es s s'
    → MapEntered physfree (e ∷ es) s s'
enter_map-skip physfree e es s s' unusable h = record {
  marks = λ q. ground (arith, h.marks q, unusable);
  highest_base = ground (arith, h.highest_base, unusable);
  highest_end = ground (arith, h.highest_end, unusable);
}

enter_map-next :
    (physfree : ℕ) (e : SmapEntry) (es : List SmapEntry) (s s1 s' : PhysMemory)
    → is_usable e ≡ true
    → Entered physfree e.base (e.base + e.length) s s1
    → MapEntered physfree es s1 s'
    → MapEntered physfree (e ∷ es) s s'
enter_map-next physfree e es s s1 s' usable first rest = record {
  marks = λ q. rw usable (elim (Bool-cases (any_usable es)) [
    | inl more ↦ ground (arith, first.marks q, rest.marks q, more)
    | inr last ↦ ground (arith, first.marks q, rest.marks q, last, covered-any_usable es q last)
  ]);
  highest_base = ground (arith, first.bounds, rest.highest_base, usable);
  highest_end = ground (arith, first.bounds, rest.highest_end, usable);
}

-- For a kernel that ends below 2^43 - 4096 and a map whose entries end below 2^64, entering the map
-- ends. If any entry is usable, every page up to and including the one at `physfree` is busy then;
-- any other page that a usable entry covers is free, and every other mark is as before. The two
-- bounds are raised to the highest start and to the highest end of the usable entries.
pub enter_map-MapEntered :
    (physbase physfree : ℕ) (es : List SmapEntry) (s : PhysMemory)
    → physfree + 4096 < 2 ^ 43
    → AllFit es
    → (s' : PhysMemory) × (enter_map physbase physfree es s ≡ some s') × MapEntered physfree es s s'
unfolding enter_map
enter_map-MapEntered physbase physfree [] s small fit =
    (s, refl, record { marks = λ q. refl; highest_base = ground arith; highest_end = ground arith })
enter_map-MapEntered physbase physfree (e ∷ es) s small (fit, fits) =
    elim (Bool-cases (is_usable e)) [
      | inl usable ↦
          let whole : u64 (e.base + e.length) ≡ e.base + e.length = ground arith in
          let (s1, run, first) =
            make_free_list-Entered physbase physfree e.base (e.base + e.length) s small in
          let same = note_longest_same physfree e s s1 first in
          let (s', runs, rest) = enter_map-MapEntered physbase physfree es s1 small fits in
          (
            s',
            rw (usable, whole, run, same) runs,
            enter_map-next physfree e es s s1 s' usable first rest,
          )
      | inr unusable ↦
          let (s', runs, rest) = enter_map-MapEntered physbase physfree es s small fits in
          (s', rw unusable runs, enter_map-skip physfree e es s s' unusable rest)
    ]
