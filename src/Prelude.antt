-- ===== src/Prelude.antt =====
-- Names that every other module shares: the libraries', passed on, and the Boolean tests, list
-- operations and machine words of the children.
mod Tests
mod Lists
mod Words
mod Maps
mod Text
mod Results
mod Int
pub use Tests.*
pub use Lists.*
pub use Int.*
pub use Results.*
pub use Maps.*
pub use Text.*
pub use Words.*
pub use Prim.Native.Nat.{
  ℕ, zero, suc, ◌+◌, ◌-◌, ◌*◌, ◌/◌, ◌%◌, ◌^◌, ◌≤◌, ◌<◌, min, max, bit_and, bit_or,
}
pub use mathlib.Core.Path.{◌≡◌, refl, sym, ap, ap₂, subst, ◌∙◌}
pub use mathlib.Core.Logic.{◌≢◌, ◌↔◌, ◌⊎◌, inl, inr}
pub use mathlib.Core.Bool.{Bool, true, false, ◌&&◌, ◌||◌, not}
pub use mathlib.Core.Option.{Option, none, some}
pub use mathlib.Core.List.{List, [], ◌∷◌, ◌++◌, map}
pub use native.Mathlib.Omega.{arith}
