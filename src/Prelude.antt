-- ===== src/Prelude.antt =====
-- Names that all modules share: the libraries' and those of the children (tests on numbers, lists
-- by native numbers, byte texts, results of Go calls).
mod Bools
mod Lists
mod Calls
mod Text
mod Split
mod Trim
mod Words
mod Integers
pub use Bools.*
pub use Lists.*
pub use Integers.*
unfoldable pub use Calls.*
unfoldable pub use Words.*
unfoldable pub use Trim.*
unfoldable pub use Split.*
unfoldable pub use Text.*
pub use Prim.Native.Nat.{ℕ, zero, suc, ◌+◌, ◌-◌, ◌*◌, ◌/◌, ◌%◌, ◌^◌, ◌≤◌, ◌<◌}
pub use mathlib.Core.Path.{◌≡◌, refl, sym, ap, ◌∙◌, subst}
pub use mathlib.Core.Logic.{◌≢◌, ◌↔◌, ◌⊎◌, inl, inr}
pub use mathlib.Core.Bool.{Bool, true, false, not, ◌&&◌, ◌||◌}
pub use mathlib.Core.Option.{Option, none, some}
pub use mathlib.Core.List.{List, [], ◌∷◌, ◌++◌, map, reverse}
pub use native.Mathlib.Omega.{arith}
