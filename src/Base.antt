-- ===== src/Base.antt =====
-- The names that every component shares: the libraries', passed on, and those of its children.
mod Tests
mod Lists
mod Find
mod Strings
mod Outcome
mod Words
pub use Tests.*
pub use Lists.*
pub use Find.*
pub use Strings.*
pub use Outcome.*
pub use Words.*
unfoldable pub use Find.{find_index, count_if}
unfoldable pub use Strings.{streq, str_eq, str_copy, lower_char}
pub use Prim.Native.Nat.{ℕ, zero, suc, ◌+◌, ◌-◌, ◌*◌, ◌/◌, ◌%◌, ◌^◌, ◌≤◌, ◌<◌, min}
pub use mathlib.Core.Path.{◌≡◌, refl, sym, ap, ◌∙◌, subst}
pub use mathlib.Core.Logic.{◌≢◌, ◌↔◌, ◌⊎◌, inl, inr}
pub use mathlib.Core.Bool.{Bool, true, false, not, ◌&&◌, ◌||◌}
pub use mathlib.Core.Option.{Option, none, some}
pub use mathlib.Core.List.{List, [], ◌∷◌, ◌++◌, map}
pub use native.Mathlib.Omega.{arith}
