-- ===== src/Base.antt =====
-- Names that every module shares: the libraries', passed on, the Boolean tests on the native
-- numbers, lists measured by native numbers, and the predicates on lists.
mod Tests
mod Lists
pub mod Int
pub mod Double
pub mod Table
pub mod Sort
pub mod Rank
pub mod Maybe
pub mod Each
pub mod Counts
pub mod Strict
pub use Tests.*
pub use Lists.*
pub use Prim.Native.Nat.{ℕ, zero, suc, ◌+◌, ◌-◌, ◌*◌, ◌/◌, ◌%◌, ◌^◌, ◌≤◌, ◌<◌, min, max}
pub use mathlib.Core.Path.{◌≡◌, refl, sym, ap, subst, ◌∙◌}
pub use mathlib.Core.Logic.{◌≢◌, ◌↔◌, ◌⊎◌, inl, inr}
pub use mathlib.Core.Bool.{Bool, true, false, not, ◌&&◌, ◌||◌}
pub use mathlib.Core.Option.{Option, none, some}
pub use mathlib.Core.List.{List, [], ◌∷◌, ◌++◌, map}
pub use native.Mathlib.Omega.{arith}
