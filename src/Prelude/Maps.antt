-- ===== src/Prelude/Maps.antt =====
-- Arrays and memory that the code indexes without a bound, as functions.
use Prim.Native.Nat.{ℕ}
use sbu_operating_system.Prelude.Tests.{◌==◌, if◌then◌else◌}

abbrev pub update {ℓ} : {A : Type ℓ} → (ℕ → A) → ℕ → A → ℕ → A
update f i v = λ j. if j == i then v else f j
