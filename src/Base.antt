-- ===== src/Base.antt =====
-- Names that every module shares: the libraries', passed on, and those of the children below.
mod Tests
mod Text
mod Lists
mod Outcome
mod Calls
pub mod Dict
pub mod Int
pub mod Money
pub mod Time
pub use Tests.*
unfoldable pub use Text.{strip, is_blank, lower, is_infix, prefixed}
pub use Text.{
  first, codes, codes_eq, is_prefix, str_eq, str_eq_self, str_eq_ne, str_eq→eq, eq→str_eq,
  str_eq_symm,
}
pub use Lists.*
pub use Outcome.*
pub use Calls.*
unfoldable pub use Calls.{Keeps, Ensures}
pub use Prim.Native.Nat.{ℕ, zero, suc, ◌+◌, ◌-◌, ◌*◌, ◌≤◌, ◌<◌, max}
pub use Prim.Native.String.{String}
pub use mathlib.Core.Path.{◌≡◌, refl, sym, ap, ◌∙◌, subst}
pub use mathlib.Core.Logic.{◌≢◌, ◌↔◌, ◌⊎◌, inl, inr}
pub use mathlib.Core.Bool.{Bool, true, false, not, ◌&&◌, ◌||◌}
pub use mathlib.Core.Option.{Option, none, some}
pub use mathlib.Core.List.{List, [], ◌∷◌, ◌++◌, map, reverse}
pub use native.Mathlib.Omega.{arith}
