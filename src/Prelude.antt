-- ===== src/Prelude.antt =====
-- The names that the other modules share: the libraries', passed on, and those of the children.
mod Tests
mod Order
mod Lists
mod Sort
mod Text
mod Map
mod Codes
mod Canonical
mod Decimal
pub use Prim.Native.Nat.{ℕ, zero, suc, ◌+◌, ◌-◌, ◌*◌, ◌≤◌, ◌<◌, min, max, compare, Ordering}
pub use Prim.Native.String.{String}
pub use mathlib.Core.Path.{◌≡◌, refl, sym, ap, ◌∙◌, subst}
pub use mathlib.Core.Logic.{◌≢◌, ◌↔◌, ◌⊎◌, inl, inr}
pub use mathlib.Core.Bool.{Bool, true, false, not, ◌&&◌, ◌||◌}
pub use mathlib.Core.Option.{Option, none, some}
pub use mathlib.Core.List.{List, [], ◌∷◌, ◌++◌, map, reverse, filter_map, flat_map}
pub use native.Mathlib.Omega.{arith}
pub use Tests.*
pub use Order.*
unfoldable pub use Lists.*
unfoldable pub use Sort.*
unfoldable pub use Text.*
unfoldable pub use Map.*
unfoldable pub use Codes.*
pub use Canonical.*
pub use Decimal.*
pub use Prim.Native.String.{◌++◌ as str_append}
