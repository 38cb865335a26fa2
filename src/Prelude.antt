-- ===== src/Prelude.antt =====
-- The names that every module shares: the libraries', passed on, Boolean tests, equality of keys,
-- results of fallible calls, machine words and maps.
mod Tests
mod Equality
mod Outcome
pub mod Exec
pub mod BTreeMap
pub mod Decimal
pub mod Chars
pub mod HashMap
pub mod Hex
pub mod TextOrder
pub mod Integer
unfoldable pub use Tests.*
pub use Equality.*
pub use Outcome.*
pub use Prim.Native.Nat.{ℕ, zero, suc, ◌+◌, ◌-◌, ◌*◌, ◌/◌, ◌%◌, ◌^◌, ◌≤◌, ◌<◌}
pub use Prim.Native.String.{String}
pub use mathlib.Core.Path.{◌≡◌, refl, sym, ap, ◌∙◌, subst}
pub use mathlib.Core.Logic.{◌≢◌, ◌↔◌, ◌⊎◌, inl, inr}
pub use mathlib.Core.Bool.{Bool, true, false, not, ◌&&◌, ◌||◌}
pub use mathlib.Core.Option.{Option, none, some}
pub use mathlib.Core.List.{List, [], ◌∷◌, ◌++◌, map}
pub use native.Mathlib.Omega.{arith}
