-- ===== src/Base.antt =====
-- The names and helpers that the modules of all components share: tests on native numbers, splits
-- on computed values, list measures, Go's `int`, text in UTF-8, and Go maps (`Base.Dict`).
mod Tests
mod Lists
mod Strings
mod Decimal
pub mod Dict
pub mod Int
pub mod Utf8
unfoldable pub use Tests.*
pub use Int.{ℤ, pos, negsuc, ℤ-discrete}
unfoldable pub use Strings.*
unfoldable pub use Decimal.*
pub use Lists.*
pub use Prim.Native.Nat.{ℕ, zero, suc, ◌+◌, ◌-◌, ◌*◌, ◌/◌, ◌%◌, ◌^◌, ◌≤◌, ◌<◌}
pub use Prim.Native.String.{String}
pub use mathlib.Core.Path.{◌≡◌, refl, sym, ap, ◌∙◌, subst}
pub use mathlib.Core.Logic.{◌≢◌, ◌↔◌, ◌⊎◌, inl, inr, ite}
pub use mathlib.Core.Bool.{Bool, true, false, ◌&&◌, ◌||◌, not}
pub use mathlib.Core.Option.{Option, none, some}
pub use mathlib.Core.List.{List, [], ◌∷◌, ◌++◌, map}
pub use native.Mathlib.Omega.{arith}
