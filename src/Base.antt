-- ===== src/Base.antt =====
-- The names that every module shares: the libraries', passed on, and those of the children: the
-- Boolean tests and equality on numbers and texts, lists, and dictionaries.
mod Tests
mod Lists
mod Dicts
pub use Tests.*
pub use Lists.*
pub use Dicts.*
pub use Prim.Native.Nat.{ℕ, zero, suc, ◌+◌, ◌-◌, ◌*◌, ◌^◌, ◌≤◌, ◌<◌}
pub use Prim.Native.String.{String}
pub use mathlib.Core.Path.{◌≡◌, refl, sym, ap, ◌∙◌, subst}
pub use mathlib.Core.Logic.{◌≢◌, ◌↔◌, ◌⊎◌, inl, inr}
pub use mathlib.Core.Bool.{Bool, true, false, not, ◌&&◌, ◌||◌}
pub use mathlib.Core.Option.{Option, none, some}
pub use mathlib.Core.List.{List, [], ◌∷◌, ◌++◌, map, reverse}
pub use native.Mathlib.Omega.{arith}
