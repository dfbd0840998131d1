-- ===== src/Paging/Frame.antt =====
-- Writes outside the tables leave the tables as they are.
use sbu_operating_system.Prelude.{ℕ, zero, suc, ◌+◌, ◌*◌, ◌/◌, ◌<◌, ◌≡◌, ◌≢◌, ap, arith}
use sbu_operating_system.PhysMemory.{PhysMemory}
use sbu_operating_system.PhysMemory.Bitmap.{busy}
use sbu_operating_system.Paging.{Machine}
use sbu_operating_system.Paging.Mmu.{entry, index, walk}
use sbu_operating_system.Paging.Tree.{IsTree, index-lt}
use sbu_operating_system.Paging.Map.{Tables}
use sbu_operating_system.Paging.Kernel.{Cleared}

-- The entries of all tables are as before.
abbrev pub SameEntries : (ℕ → ℕ) → (ℕ → ℕ) → (ℕ → ℕ) → Type 0
SameEntries level ram ram' =
    (f k i : ℕ) → level f ≡ suc k → i < 512 → entry ram' f i ≡ entry ram f i

module _ {level ram : ℕ → ℕ} {phys : PhysMemory} (t : IsTree level ram phys) (ram' : ℕ → ℕ)
    (same : SameEntries level ram ram') where
  pub IsTree-frame :
      {phys' : PhysMemory}
      → ((f : ℕ) → busy phys f ≡ 1 → busy phys' f ≡ 1)
      → IsTree level ram' phys'
  IsTree-frame kept = record {
    child = λ f i k lf hi p. ground (arith, same f (suc k) i lf hi, t.child f i k);
    unique = λ f i k g j l lf lg hi hj p q e.
        ground (arith, same f (suc k) i lf hi, same g (suc l) j lg hj, t.unique f i k g j l);
    taken = λ f k lf. ground (arith, t.taken f k lf, kept f);
  }

  pub walk-frame : (n g v : ℕ) → level g ≡ suc n → walk ram' n g v ≡ walk ram n g v
  unfolding walk
  walk-frame zero g v lg = ground (arith, same g 0 (index 0 v) lg (index-lt 0 v))
  walk-frame (suc n) g v lg =
      let j = index (suc n) v in
      ground (
        arith,
        same g (suc n) j lg (index-lt (suc n) v),
        t.child g j n lg (index-lt (suc n) v),
        walk-frame n (entry ram g j / 4096) v,
      )

pub Cleared-SameEntries :
    (m m' : Machine) (address pointer root : ℕ) (t : Tables m pointer root)
    → Cleared m address m'
    → SameEntries t.level m.ram m'.ram
Cleared-SameEntries m m' address pointer root t c f k i lf hi =
    let ne : f ≢ c.page =
      λ e. ground (arith, t.tree.taken f k lf, c.was_free, ap (busy m.phys) e) in
    c.others (f * 4096 + 8 * i) (ground arith)

-- A page of the kernel's own leaves the tables and all translations as they are.
pub Tables-Cleared :
    (m m' : Machine) (address pointer root : ℕ)
    → Tables m pointer root
    → Cleared m address m'
    → Tables m' pointer root × ((v : ℕ) → walk m'.ram 3 root v ≡ walk m.ram 3 root v)
Tables-Cleared m m' address pointer root t c =
    let same = Cleared-SameEntries m m' address pointer root t c in
    (
      record {
        level = t.level;
        tree = IsTree-frame t.tree m'.ram same (λ f b. ground (arith, c.marks f));
        level_root = t.level_root;
        at = t.at;
      },
      λ v. walk-frame t.tree m'.ram same 3 root v t.level_root,
    )
