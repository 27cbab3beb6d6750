-- ===== src/Base.antt =====
-- The names that the other modules share: the libraries', passed on, and those of the children.
mod Bools
mod Lists
mod Orders
mod Int
mod Sort
mod Dicts
mod Groups
mod Text
mod Outcomes
mod Collect
mod Subsequences
mod Time
unfoldable pub use Bools.*
unfoldable pub use Lists.*
unfoldable pub use Orders.*
unfoldable pub use Int.*
unfoldable pub use Sort.*
unfoldable pub use Dicts.*
unfoldable pub use Groups.*
unfoldable pub use Text.*
unfoldable pub use Outcomes.*
unfoldable pub use Collect.*
unfoldable pub use Subsequences.*
unfoldable pub use Time.*
pub use Prim.Native.Nat.{ℕ, zero, suc, ◌^◌, ◌+◌, ◌-◌, ◌*◌, ◌/◌, ◌%◌, ◌≤◌, ◌<◌, min, max}
pub use Prim.Native.String.{String}
pub use mathlib.Core.Path.{◌≡◌, refl, sym, ap, ◌∙◌, subst}
pub use mathlib.Core.Logic.{◌≢◌, ◌↔◌, ◌⊎◌, inl, inr}
pub use mathlib.Core.Bool.{Bool, true, false, not, ◌&&◌, ◌||◌}
pub use mathlib.Core.Option.{Option, none, some}
pub use mathlib.Core.List.{List, [], ◌∷◌, ◌++◌, map, Memᴰ}
pub use native.Mathlib.Omega.{arith}
