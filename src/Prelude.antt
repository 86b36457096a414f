-- ===== src/Prelude.antt =====
-- The names that the other modules share: the libraries', passed on, and those of the children.
-- `Text` and `JsMap` model the JavaScript string and Map that the sources use.
mod Tests
mod Lists
mod Strings
mod Throws
pub mod JsMap
pub mod Substrings
pub use Throws.{Outcome, returned, thrown}
pub use Tests.*
pub use Lists.*
unfoldable pub use Strings.{Text, codes, str_eq, starts_with, decimal, is_space, trim_start, trim}
pub use Strings.{str_eq_iff, str_eq_refl, decimal_inj, length-decimal}
pub use Prim.Native.Nat.{ℕ, zero, suc, ◌+◌, ◌-◌, ◌*◌, ◌/◌, ◌%◌, ◌^◌, ◌≤◌, ◌<◌, min, max}
pub use mathlib.Core.Path.{◌≡◌, refl, sym, ap, ◌∙◌}
pub use mathlib.Core.Logic.{◌≢◌, ◌↔◌, ◌⊎◌, inl, inr}
pub use mathlib.Core.Bool.{Bool, true, false, not, ◌&&◌, ◌||◌}
pub use mathlib.Core.Option.{Option, none, some}
pub use mathlib.Core.List.{List, [], ◌∷◌, ◌++◌, map}
pub use native.Mathlib.Omega.{arith}
