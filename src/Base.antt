-- ===== src/Base.antt =====
-- The names that the other modules share: the libraries', passed on, and those of the children:
-- Boolean tests, lists over the native numbers, results with errors, text, and signed integers.
mod Tests
mod Results
mod Lists
mod Strings
mod TextOrder
mod TextSearch
mod Splits
mod Decimals
mod Occurrences
mod Int
mod Chains
pub use Tests.*
unfoldable pub use Results.*
pub use Lists.*
unfoldable pub use Strings.*
unfoldable pub use TextOrder.*
unfoldable pub use TextSearch.*
unfoldable pub use Splits.*
pub use Decimals.*
unfoldable pub use Occurrences.*
unfoldable pub use Int.*
pub use Chains.*
pub use Prim.Native.Nat.{ℕ, zero, suc, ◌+◌, ◌-◌, ◌*◌, ◌/◌, ◌%◌, ◌^◌, ◌≤◌, ◌<◌, compare, Ordering}
pub use mathlib.Core.Path.{◌≡◌, refl, sym, ap, ◌∙◌, subst}
pub use mathlib.Core.Logic.{◌≢◌, ◌↔◌, ◌⊎◌, inl, inr}
pub use mathlib.Core.Bool.{Bool, true, false, not, ◌&&◌, ◌||◌}
pub use mathlib.Core.Option.{Option, none, some}
pub use mathlib.Core.List.{List, [], ◌∷◌, ◌++◌, map}
pub use native.Mathlib.Omega.{arith}
