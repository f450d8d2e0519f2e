-- ===== src/Prelude.antt =====
-- Names that the modules of this library share: the libraries' names passed on, and the tests,
-- lists, integers, instants, dictionaries, texts and results that the components are written with.
mod Tests
mod Lists
mod Int
mod Time
mod Results
mod Text
mod Decimal
pub use Tests.*
pub use Lists.*
unfoldable pub use Int.*
pub use Time.*
unfoldable pub use Results.*
pub use Text.*
unfoldable pub use Decimal.{decimal}
pub use Decimal.{decimal-ascii, decimal-less}
pub use Prim.Native.Nat.{ℕ, zero, suc, ◌+◌, ◌-◌, ◌*◌, ◌≤◌, ◌<◌}
pub use Prim.Native.String.{String, ◌++◌ as ◌<>◌}
pub use mathlib.Core.Path.{◌≡◌, refl, sym, ap, ◌∙◌, subst}
pub use mathlib.Core.Logic.{◌≢◌, ◌↔◌, ◌⊎◌, inl, inr}
pub use mathlib.Core.Bool.{Bool, true, false, not, ◌&&◌, ◌||◌}
pub use mathlib.Core.Option.{Option, none, some}
pub use mathlib.Core.List.{List, [], ◌∷◌, ◌++◌, map}
pub use native.Mathlib.Omega.{arith}
pub use text.Mathlib.Text.{◌==◌, starts_with}
pub use text.Mathlib.TextEquality.{eq_iff}
pub use text.Mathlib.TextPositions.{eq_refl}
