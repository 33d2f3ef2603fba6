-- ===== src/Prelude.antt =====
-- The names that the other modules share: the libraries', passed on, with the helpers on tests,
-- lists, options and 64-bit words of the children.
mod Tests
mod Lists
mod Words
mod Loops
mod Sends
pub use Tests.*
unfoldable pub use Lists.*
pub use Words.*
unfoldable pub use Loops.*
pub use Sends.*
pub use Prim.Native.Nat.{ℕ, zero, suc, ◌+◌, ◌-◌, ◌*◌, ◌/◌, ◌%◌, ◌^◌, ◌≤◌, ◌<◌}
pub use mathlib.Core.Path.{◌≡◌, refl, sym, ap, ◌∙◌, subst}
pub use mathlib.Core.Logic.{◌≢◌, ◌⊎◌, inl, inr}
pub use mathlib.Core.Bool.{Bool, true, false, not, ◌&&◌, ◌||◌}
pub use mathlib.Core.Option.{Option, none, some}
pub use mathlib.Core.List.{List, [], ◌∷◌, ◌++◌}
pub use native.Mathlib.Omega.{arith}
