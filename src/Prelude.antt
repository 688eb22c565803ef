-- ===== src/Prelude.antt =====
-- The names that the other modules share: the libraries', passed on, and those of the children,
-- which stand for the C++ language and its standard library (int, std::string, std::map, streams).
mod Tests
mod Lists
mod Int
mod Strings
pub mod TextOrder
pub mod StdMap
pub mod Stream
pub mod Substring
pub use Tests.*
pub use Lists.*
pub use Int.*
pub use Strings.{Text, str_eq, str_eq_iff, str_eq_refl, is_empty}
unfoldable pub use Strings.{bytes, c_str}
pub use Prim.Native.Nat.{ℕ, zero, suc, ◌+◌, ◌-◌, ◌*◌, ◌/◌, ◌%◌, ◌^◌, ◌≤◌, ◌<◌}
pub use mathlib.Core.Path.{◌≡◌, refl, sym, ap, ◌∙◌}
pub use mathlib.Core.Logic.{◌≢◌, ◌↔◌, ◌⊎◌, inl, inr}
pub use mathlib.Core.Bool.{Bool, true, false, not, ◌&&◌, ◌||◌}
pub use mathlib.Core.Option.{Option, none, some}
pub use mathlib.Core.List.{List, [], ◌∷◌, ◌++◌, map}
pub use native.Mathlib.Omega.{arith}
