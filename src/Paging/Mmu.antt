-- ===== src/Paging/Mmu.antt =====
-- How the processor reads the tables, independently of the code that builds them: four levels of
-- 512 entries, nine bits of the address for each, bit 0 of an entry for "present".
use sbu_operating_system.Prelude.{
  ℕ, zero, suc, ◌+◌, ◌*◌, ◌/◌, ◌%◌, ◌≡◌, Option, none, some, ◌==◌, if◌then◌else◌,
}

-- The entry `i` of the table in page `table`.
abbrev pub entry : (ℕ → ℕ) → ℕ → ℕ → ℕ
entry ram table i = ram (table * 4096 + 8 * i)

-- The index into a table of level `n`, level 0 being the last.
abbrev pub index : ℕ → ℕ → ℕ
index zero v = v / 4096 % 512
index (suc n) v = index n (v / 512)

-- The last entry for the address `v`, walking from a table of level `n`; `none` is a page fault.
unfoldable pub walk : (ℕ → ℕ) → ℕ → ℕ → ℕ → Option ℕ
walk ram zero table v = let e = entry ram table (index 0 v) in if e % 2 == 1 then some e else none
walk ram (suc n) table v =
    let e = entry ram table (index (suc n) v) in
    let rest = walk ram n (e / 4096) v in if e % 2 == 1 then rest else none

-- Walking from a table of level `n` for `v` ends in the last-level table `leaf`.
abbrev pub Reaches : (ℕ → ℕ) → ℕ → ℕ → ℕ → ℕ → Type 0
Reaches ram zero table v leaf = table ≡ leaf
Reaches ram (suc n) table v leaf =
    let e = entry ram table (index (suc n) v) in (e % 2 ≡ 1) × Reaches ram n (e / 4096) v leaf

-- Two addresses have the same index at every level above the last, up to level `n`.
abbrev pub SameIndices : ℕ → ℕ → ℕ → Type 0
SameIndices zero v v' = Unit {0}
SameIndices (suc n) v v' = (index (suc n) v ≡ index (suc n) v') × SameIndices n v v'
