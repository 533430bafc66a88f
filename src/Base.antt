-- ===== src/Base.antt =====
-- The names that the other modules share: the libraries' names in use, the Boolean tests and the
-- lists over the native numbers, texts, and the results of fallible code.
pub mod Tests
pub mod Lists
pub mod Str
pub mod Pieces
pub mod Outcome
pub mod Int
pub mod Trim
pub mod Decimal
pub mod Dict
pub mod Lines
unfoldable pub use Tests.*
unfoldable pub use Lists.*
unfoldable pub use Str.*
pub use Pieces.*
unfoldable pub use Outcome.*
unfoldable pub use Int.*
pub use Prim.Native.Nat.{ℕ, zero, suc, ◌+◌, ◌-◌, ◌*◌, ◌≤◌, ◌<◌}
pub use Prim.Native.String.{String}
pub use mathlib.Core.Path.{◌≡◌, refl, sym, ap, ◌∙◌, subst}
pub use mathlib.Core.Logic.{◌≢◌, ◌↔◌, ◌⊎◌, inl, inr}
pub use mathlib.Core.Bool.{Bool, true, false, not, ◌&&◌, ◌||◌}
pub use mathlib.Core.Option.{Option, none, some}
pub use mathlib.Core.List.{List, [], ◌∷◌, ◌++◌, map, append_assoc, append-nil}
pub use native.Mathlib.Omega.{arith}
