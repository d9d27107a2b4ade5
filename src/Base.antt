-- ===== src/Base.antt =====
-- Names that every module shares: the libraries', passed on, and those of the children.
mod Tests
mod Order
mod Lists
mod ByteLists
mod Table
mod Winner
mod Sort
mod Sorted
mod Decimal
unfoldable pub use Tests.*
unfoldable pub use Order.*
unfoldable pub use Lists.*
unfoldable pub use ByteLists.*
unfoldable pub use Table.*
unfoldable pub use Winner.*
unfoldable pub use Sort.*
unfoldable pub use Sorted.*
unfoldable pub use Decimal.*
pub use Prim.Native.Nat.{ℕ, zero, suc, ◌+◌, ◌-◌, ◌*◌, ◌/◌, ◌%◌, ◌^◌, ◌≤◌, ◌<◌, min, max, compare}
pub use Prim.Native.Nat.{Ordering}
pub use Prim.Native.Nat.Ordering.{lt, eq, gt}
pub use mathlib.Core.Path.{◌≡◌, refl, sym, ap, ap₂, ◌∙◌, subst}
pub use mathlib.Core.Logic.{◌≢◌, ◌↔◌, ◌⊎◌, inl, inr}
pub use mathlib.Core.Bool.{Bool, true, false, not, ◌&&◌, ◌||◌}
pub use mathlib.Core.Option.{Option, none, some}
pub use mathlib.Core.List.{List, [], ◌∷◌, ◌++◌, map, Memᴰ}
pub use native.Mathlib.Omega.{arith}
