-- ===== src/Prelude.antt =====
-- The names that the modules share: the libraries', passed on, and those of the children.
mod Tests
mod Lists
mod Keys
mod Strings
mod Sets
mod Outcomes
pub mod Dict
pub mod Whitespace
pub use Tests.*
pub use Lists.*
pub use Keys.*
pub use Strings.{Text, codes, text_eq_iff, literal, is_ascii_upper, to_ascii_lowercase, text_key}
unfoldable pub use Strings.{text_eq}
pub use Sets.{contains-append, contains-insert, contains-extend}
unfoldable pub use Sets.{contains, insert, extend}
pub use Outcomes.*
pub use Prim.Native.Nat.{ℕ, zero, suc, ◌+◌, ◌-◌, ◌*◌, ◌/◌, ◌%◌, ◌^◌, ◌≤◌, ◌<◌}
pub use Prim.Native.String.{String}
pub use mathlib.Core.Path.{◌≡◌, refl, sym, ap, ◌∙◌, subst}
pub use mathlib.Core.Logic.{◌≢◌, ◌↔◌, ◌⊎◌, inl, inr}
pub use mathlib.Core.Bool.{Bool, true, false, not, ◌&&◌, ◌||◌}
pub use mathlib.Core.Option.{Option, none, some}
pub use mathlib.Core.List.{List, [], ◌∷◌, ◌++◌, map, append-nil, append_assoc}
pub use native.Mathlib.Omega.{arith}
