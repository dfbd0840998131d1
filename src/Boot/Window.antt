-- ===== src/Boot/Window.antt =====
-- `identity_mapping`: the window through which the kernel reaches physical memory.
use sbu_operating_system.Prelude.{
  ℕ, zero, suc, ◌+◌, ◌*◌, ◌/◌, ◌%◌, ◌^◌, ◌≤◌, ◌<◌, ◌≡◌, ◌≢◌, ◌⊎◌, ◌∙◌, ap, sym, arith, some, inl,
  inr, refl, Bool-cases, leb, u64, false, true, bit_or, subst, ◌==◌,
}
use sbu_operating_system.PhysMemory.Count.{free_pages}
use sbu_operating_system.Paging.{Machine, virtual_base, map_vir_phy}
use sbu_operating_system.Paging.Entry.{flags, window_left}
use sbu_operating_system.Paging.Mmu.{walk}
use sbu_operating_system.Paging.Map.{Tables, SamePage, Mapped, map_vir_phy-Mapped}
use sbu_operating_system.Paging.Ready.{Ready, Ready-SameBlock, Ready-walk, map_vir_phy-Ready}
use sbu_operating_system.Boot.{Globals, map_window, identity_mapping}

-- The address of the physical page `page` in the window.
abbrev pub in_window : ℕ → ℕ
in_window page = virtual_base + page * 4096

-- The pages from `first` up to the one of `max` have been mapped into the window.
pub record Windowed (m : Machine) (first max pml4 root : ℕ) (m' : Machine) : Type 0 where
  pub tables : Tables m' pml4 root
  pub found :
      (page w : ℕ)
      → first ≤ page
      → page ≤ max / 4096
      → SamePage w (in_window page)
      → walk m'.ram 3 root w ≡ some (page * 4096 + flags false)
  pub others :
      (w : ℕ)
      → ((page : ℕ) → first ≤ page → page ≤ max / 4096 → ¬ SamePage w (in_window page))
      → walk m'.ram 3 root w ≡ walk m.ram 3 root w

-- Three pages for each last-level table that is still to come, and three to spare.
abbrev Supplied : Machine → ℕ → ℕ → Type 0
Supplied m page max = 3 * (max / 2 ^ 21 + 2) ≤ free_pages m.phys + 3 * ((page + 511) / 512)

-- At the start of a last-level table, or with that table linked.
abbrev AtPage : Machine → ℕ → ℕ → Type 0
AtPage m root page = (page % 512 ≡ 0) ⊎ Ready m.ram root (in_window page)

window_distinct :
    (page page' w : ℕ)
    → page < 2 ^ 19
    → page' < 2 ^ 19
    → SamePage w (in_window page)
    → SamePage w (in_window page')
    → page ≡ page'
window_distinct page page' w lt lt' s s' = omega arith

AtPage-next :
    (m : Machine) (page root : ℕ) → Ready m.ram root (in_window page) → AtPage m root (page + 1)
AtPage-next m page root r = elim (Bool-cases ((page + 1) % 512 == 0)) [
  | inl start ↦ inl (ground arith)
  | inr inner ↦
      let ne : (page + 1) % 512 ≢ 0 = ground arith in
      inr (Ready-SameBlock m.ram root (in_window page) (in_window (page + 1)) (omega arith) r)
]

supply_next :
    (m : Machine) (page max root pml4 : ℕ)
    → Tables m pml4 root
    → AtPage m root page
    → page ≤ max / 4096
    → Supplied m page max
    → let m' = map_vir_phy m pml4 (in_window page) (page * 4096) in
      Mapped false m (in_window page) page pml4 root m' → Supplied m' (page + 1) max
supply_next m page max root pml4 t (inl start) le supplied mapped = omega (arith, mapped.supply)
supply_next m page max root pml4 t (inr ready) le supplied mapped =
    let same = map_vir_phy-Ready m (in_window page) (page * 4096) pml4 root t ready in
    omega (arith, ap free_pages same)

window_next :
    (m : Machine) (page max pml4 root : ℕ)
    → max < 2 ^ 31
    → page ≤ max / 4096
    → let m1 = map_vir_phy m pml4 (in_window page) (page * 4096) in
      Mapped false m (in_window page) page pml4 root m1
      → (m' : Machine) → Windowed m1 (page + 1) max pml4 root m'
      → Windowed m page max pml4 root m'
window_next m page max pml4 root small le mapped m' rest = record {
  tables = rest.tables;
  found = λ p w lo hi same. elim (Bool-cases (p == page)) [
    | inl here ↦
        let e : p ≡ page = ground arith in
        let same' : SamePage w (in_window page) = subst (λ q. SamePage w (in_window q)) e same in
        rest.others w (λ q lo' hi' s.
          absurd (omega (arith, window_distinct page q w (omega arith) (omega arith) same' s)))
        ∙ mapped.found w same'
        ∙ ap (λ q. some (q * 4096 + flags false)) (sym e)
    | inr later ↦ rest.found p w (ground arith) hi same
  ];
  others = λ w apart.
      rest.others w (λ p lo hi. apart p (omega arith) hi)
      ∙ mapped.others w (apart page (omega arith) le);
}

map_window-step :
    (n page max : ℕ) (m : Machine) (pml4 : ℕ)
    → max < 2 ^ 31
    → leb (page * 4096) max ≡ true
    → map_window (suc n) pml4 (page * 4096) max m
      ≡ map_window n pml4
          ((page + 1) * 4096)
          max
          (map_vir_phy m pml4 (in_window page) (page * 4096))
unfolding map_window
map_window-step n page max m pml4 small more =
    let at : bit_or virtual_base (page * 4096) ≡ in_window page =
      window_left (page * 4096) (ground arith) in
    let next : u64 (page * 4096 + 4096) ≡ (page + 1) * 4096 = ground arith in
    rw (more, at, next) refl

map_window-Windowed :
    (fuel page max : ℕ) (m : Machine) (pml4 root : ℕ)
    → Tables m pml4 root
    → max < 2 ^ 31
    → page ≤ max / 4096 + 1
    → max / 4096 + 1 < fuel + page
    → AtPage m root page
    → Supplied m page max
    → (m' : Machine) × (map_window fuel pml4 (page * 4096) max m ≡ some m')
      × Windowed m page max pml4 root m'
unfolding map_window
map_window-Windowed zero page max m pml4 root t small le enough ready supplied =
    absurd (omega arith)
map_window-Windowed (suc n) page max m pml4 root t small le enough ready supplied =
    elim (Bool-cases (leb (page * 4096) max)) [
      | inr stop ↦
          let past : max / 4096 < page = ground arith in
          (
            m,
            rw stop refl,
            record {
              tables = t;
              found = λ p w lo hi. absurd (omega arith);
              others = λ w apart. refl;
            },
          )
      | inl more ↦
          let inside : page ≤ max / 4096 = ground arith in
          let m1 = map_vir_phy m pml4 (in_window page) (page * 4096) in
          let three : 3 ≤ free_pages m.phys = omega arith in
          let mapped = (map_vir_phy-Mapped m (in_window page) page pml4 root t three).0 in
          let found = mapped.found (in_window page) refl in
          let ready' = AtPage-next m1 page root (Ready-walk m1.ram root (in_window page) _ found) in
          let (m', run, rest) =
            map_window-Windowed n (page + 1) max m1 pml4 root mapped.tables small (omega arith)
              (omega arith) ready'
              (supply_next m page max root pml4 t ready inside supplied mapped) in
          (
            m',
            map_window-step n page max m pml4 small more ∙ run,
            window_next m page max pml4 root small inside mapped m' rest,
          )
    ]

-- For tables that form a tree, a bound below 2^31, and three free pages for each 2 MB up to the bound
-- and six to spare, the loop of `identity_mapping` ends with fuel above the number of pages. The
-- processor then finds each physical page up to the bound, for the kernel only, behind its address
-- at `VIRTUAL`; every other address is translated as before, and the tables are a tree again.
pub identity_mapping-Windowed :
    (fuel max : ℕ) (g : Globals) (root : ℕ)
    → Tables g.machine g.pml4 root
    → max < 2 ^ 31
    → max / 4096 + 1 < fuel
    → 3 * (max / 2 ^ 21 + 2) ≤ free_pages g.machine.phys
    → (m' : Machine) × (identity_mapping fuel max g ≡ some (record g { machine = m' }))
      × Windowed g.machine 0 max g.pml4 root m'
unfolding identity_mapping
identity_mapping-Windowed fuel max g root t small enough supply =
    let (m', run, windowed) =
      map_window-Windowed fuel 0 max g.machine g.pml4 root t small (omega arith) (omega arith)
        (inl refl) (omega arith) in
    (m', rw run refl, windowed)
