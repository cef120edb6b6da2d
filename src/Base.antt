-- ===== src/Base.antt =====
-- The names that the other modules share: the libraries', passed on, and those of the children.
mod Tests
mod Maps
mod MapKeys
mod Sets
mod Sort
mod SortKeep
mod Int
mod Lines
mod Once
unfoldable pub use Tests.*
unfoldable pub use Maps.*
pub use MapKeys.*
unfoldable pub use Sets.*
unfoldable pub use Sort.*
pub use SortKeep.*
unfoldable pub use Int.*
unfoldable pub use Lines.*
unfoldable pub use Once.*
pub use Prim.Native.Nat.{ℕ, zero, suc, ◌+◌, ◌-◌, ◌*◌, ◌/◌, ◌≤◌, ◌<◌, max}
pub use Prim.Native.String.{String}
pub use mathlib.Core.Path.{◌≡◌, refl, sym, ap, ◌∙◌, subst}
pub use mathlib.Core.Logic.{◌≢◌, ◌↔◌, ◌⊎◌, inl, inr}
pub use mathlib.Core.Bool.{Bool, true, false, ◌&&◌, ◌||◌, not}
pub use mathlib.Core.Option.{Option, none, some}
pub use mathlib.Core.List.{List, [], ◌∷◌, ◌++◌, map, reverse}
pub use native.Mathlib.Omega.{arith}
