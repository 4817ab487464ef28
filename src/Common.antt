-- ===== src/Common.antt =====
-- What the modules share: library names passed on, Boolean tests, lists over the native numbers,
-- and the interface to the numbers of the language.
mod Tests
mod Lists
mod Numbers
mod NumberLaws
pub mod Sample
pub use Tests.*
pub use Lists.*
unfoldable pub use Numbers.*
pub use NumberLaws.*
pub use Prim.Native.Nat.{ℕ, zero, suc, ◌+◌, ◌-◌, ◌*◌, ◌/◌, ◌%◌, ◌^◌, ◌≤◌, ◌<◌}
pub use mathlib.Core.Path.{◌≡◌, refl, sym, ap, ap₂, ◌∙◌, subst}
pub use mathlib.Core.Logic.{◌≢◌, ◌↔◌, ◌⊎◌, inl, inr}
pub use mathlib.Core.Bool.{Bool, true, false, not, ◌&&◌, ◌||◌}
pub use mathlib.Core.Option.{Option, none, some}
pub use mathlib.Core.List.{List, [], ◌∷◌, ◌++◌, map}
pub use native.Mathlib.Omega.{arith}
