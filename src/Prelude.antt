-- ===== src/Prelude.antt =====
-- Names shared by every component: the libraries' types and operators, passed on, with the
-- Boolean tests, the list functions over native numbers and the text helpers of the children.
pub mod Tests
mod Lists
pub mod Print
mod Text
mod Strings
mod Cuts
mod Int
pub use Tests.*
pub use Lists.*
unfoldable pub use Print.*
unfoldable pub use Text.*
unfoldable pub use Strings.*
unfoldable pub use Cuts.*
unfoldable pub use Int.*
pub use Prim.Native.Nat.{ℕ, zero, suc, ◌+◌, ◌-◌, ◌*◌, ◌/◌, ◌%◌, ◌^◌, ◌≤◌, ◌<◌}
pub use Prim.Native.String.{String}
pub use mathlib.Core.Path.{◌≡◌, refl, sym, ap, ◌∙◌, subst}
pub use mathlib.Core.Logic.{◌≢◌, ◌↔◌, ◌⊎◌, inl, inr}
pub use mathlib.Core.Bool.{Bool, true, false, not, ◌&&◌, ◌||◌}
pub use mathlib.Core.Option.{Option, none, some}
pub use mathlib.Core.List.{List, [], ◌∷◌, ◌++◌, map}
pub use native.Mathlib.Omega.{arith}
