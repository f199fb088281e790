-- ===== src/Base.antt =====
-- The names that every module shares: the libraries', passed on, with Boolean tests and lists over
-- the native numbers, integers, and the results of fallible calls.
pub mod Tests
pub mod Lists
pub mod Int
pub mod Sorting
pub mod SortingLaws
pub mod Canonical
pub mod Loops
pub mod Progress
pub mod Claims
pub mod Rows
pub mod Distinct
pub mod Membership
pub use Tests.*
pub use Lists.*
pub use Prim.Native.Nat.{ℕ, zero, suc, ◌+◌, ◌-◌, ◌*◌, ◌/◌, ◌%◌, ◌≤◌, ◌<◌}
pub use mathlib.Core.Path.{◌≡◌, refl, subst, sym, ap, ◌∙◌}
pub use mathlib.Core.Logic.{◌≢◌, ◌↔◌, ◌⊎◌, inl, inr}
pub use mathlib.Core.Bool.{Bool, true, false, not, ◌&&◌, ◌||◌}
pub use mathlib.Core.Option.{Option, none, some}
pub use mathlib.Core.List.{List, [], ◌∷◌, ◌++◌, map}
pub use native.Mathlib.Omega.{arith}
