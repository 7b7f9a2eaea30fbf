-- ===== src/Prelude.antt =====
-- The names that the modules share: the libraries', passed on, and those of the children
-- (Boolean tests, lists measured by native numbers, integers, finite doubles).
mod Tests
mod Lists
mod Int
mod Doubles
mod Sort
mod Dict
mod Join
pub use Tests.*
pub use Lists.*
unfoldable pub use Int.*
unfoldable pub use Doubles.*
unfoldable pub use Sort.*
unfoldable pub use Dict.*
unfoldable pub use Join.*
pub use Prim.Native.Nat.{ℕ, zero, suc, ◌+◌, ◌-◌, ◌*◌, ◌/◌, ◌%◌, ◌^◌, ◌≤◌, ◌<◌}
pub use Prim.Native.String.{String}
pub use mathlib.Core.Path.{◌≡◌, refl, sym, ap, ◌∙◌}
pub use mathlib.Core.Logic.{◌≢◌, ◌↔◌, ◌⊎◌, inl, inr}
pub use mathlib.Core.Bool.{Bool, true, false, not, ◌&&◌, ◌||◌}
pub use mathlib.Core.Option.{Option, none, some}
pub use mathlib.Core.List.{List, [], ◌∷◌, ◌++◌, map}
pub use native.Mathlib.Omega.{arith}
pub use text.Mathlib.Text.{◌==◌ as str_eq}
pub use text.Mathlib.TextEquality.{eq_iff}
