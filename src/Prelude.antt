-- ===== src/Prelude.antt =====
-- The names that the other modules share: the libraries', passed on, and those of the children.
mod Tests
mod Lists
mod Select
mod Pick
mod Sorting
mod Signed
mod Chars
pub use Tests.*
pub use Lists.*
unfoldable pub use Pick.{pick}
pub use Pick.{better, pick-none, pick-All, pick-least, IsOrder}
unfoldable pub use Sorting.{insert_by}
pub use Sorting.{
  Pairwise, IsSorted, insert_by-All, insert_by-IsSorted, exists-insert_by, insert_by-Pairwise,
  insert_by-All_of, length-insert_by,
}
pub use Select.*
pub use Signed.*
pub use Chars.*
pub use Prim.Native.Nat.{ℕ, zero, suc, ◌+◌, ◌-◌, ◌*◌, ◌/◌, ◌%◌, ◌^◌, ◌≤◌, ◌<◌, min, max}
pub use Prim.Native.String.{String}
pub use mathlib.Core.Path.{◌≡◌, refl, sym, ap, ◌∙◌}
pub use mathlib.Core.Logic.{◌≢◌, ◌↔◌, ◌⊎◌, inl, inr}
pub use mathlib.Core.Bool.{Bool, true, false, not, ◌&&◌, ◌||◌}
pub use mathlib.Core.Option.{Option, none, some}
pub use mathlib.Core.List.{List, [], ◌∷◌, ◌++◌, map}
pub use native.Mathlib.Omega.{arith}
unfoldable pub use native.Mathlib.Decide.{dec_lt, dec_le, ℕ_discrete}
