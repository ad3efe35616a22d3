-- ===== src/Prelude.antt =====
-- The names that the other modules share: the libraries', passed on, and those of the children.
mod Tests
mod Lists
mod Text
mod Monad
mod Table
mod Relate
mod Values
mod Counts
pub use Tests.*
pub use Lists.*
pub use Text.{codes, str_eq_iff, str_eq_self, str_eq_apart}
unfoldable pub use Text.{is_empty, is_space, is_blank, is_blank_opt, given_eq, opt_eq}
pub use Monad.*
unfoldable pub use Monad.{pure, raise, ◌>>=◌}
pub use Table.*
pub use Relate.*
pub use Values.*
pub use Counts.*
unfoldable pub use Table.{update_where, latest, find_key, order_by}
pub use Prim.Native.Nat.{ℕ, zero, suc, ◌+◌, ◌-◌, ◌*◌, ◌/◌, ◌%◌, ◌≤◌, ◌<◌}
pub use Prim.Native.String.{String}
pub use mathlib.Core.Path.{◌≡◌, refl, sym, ap, subst, ◌∙◌}
pub use mathlib.Core.Logic.{◌≢◌, ◌↔◌, ◌⊎◌, inl, inr}
pub use mathlib.Core.Bool.{Bool, true, false, not, ◌&&◌, ◌||◌}
pub use mathlib.Core.Option.{Option, none, some}
pub use mathlib.Core.List.{List, [], ◌∷◌, ◌++◌, map}
pub use native.Mathlib.Omega.{arith}
pub use text.Mathlib.Text.{◌==◌ as str_eq}
