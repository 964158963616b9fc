-- ===== src/Base.antt =====
-- The names that the modules share: the libraries', passed on, and those of the children.
mod Tests
mod Lists
mod Fallible
mod Bytes
mod Sublists
mod Rest
mod Loop
mod Totality
mod Success
pub use Tests.*
pub use Lists.*
unfoldable pub use Fallible.{◌>>=◌, ◌>>◌, refuse}
pub use Fallible.*
unfoldable pub use Bytes.{index, slice}
pub use Bytes.*
pub use Rest.*
pub use Sublists.*
unfoldable pub use Loop.{loop}
pub use Loop.*
pub use Totality.*
pub use Success.*
pub use Prim.Native.Nat.{ℕ, zero, suc, ◌+◌, ◌-◌, ◌*◌, ◌/◌, ◌%◌, ◌^◌, ◌≤◌, ◌<◌, min, max}
pub use mathlib.Core.Path.{◌≡◌, refl, sym, ap, ap₂, ◌∙◌}
pub use mathlib.Core.Logic.{◌≢◌, ◌↔◌, ◌⊎◌, inl, inr}
pub use mathlib.Core.Bool.{Bool, true, false, not, ◌&&◌, ◌||◌}
pub use mathlib.Core.Option.{Option, none, some}
pub use mathlib.Core.List.{List, [], ◌∷◌, ◌++◌, map, append-nil, append_assoc}
pub use native.Mathlib.Omega.{arith}
