-- ===== src/Prelude.antt =====
-- The names that the other modules share: the libraries', passed on, and those of the children.
mod Tests
mod Eq
mod Lists
mod Assoc
pub use Tests.*
pub use Eq.{EqKey, ◌==◌, nat_eq, pair_eq, pair_beq, ==_iff, ==_refl, ==_ne}
pub use Lists.*
pub use Assoc.{
  Assoc as Map, get-insert, get-remove, All-insert, All-get, count, count-append, contains-count,
  contains-append, contains-same, assoc_laws,
}
unfoldable pub use Assoc.{get, insert, remove, contains_key, contains}
pub use Prim.Native.Nat.{ℕ, zero, suc, ◌+◌, ◌-◌, ◌*◌, ◌/◌, ◌%◌, ◌^◌, ◌≤◌, ◌<◌}
pub use mathlib.Core.Path.{◌≡◌, refl, sym, ap, ap₂, subst, ◌∙◌}
pub use mathlib.Core.Logic.{◌≢◌, ◌↔◌, ◌⊎◌, inl, inr}
pub use mathlib.Core.Bool.{Bool, true, false, not, ◌&&◌, ◌||◌}
pub use mathlib.Core.Option.{Option, none, some}
pub use mathlib.Core.List.{List, [], ◌∷◌, ◌++◌, map}
pub use native.Mathlib.Omega.{arith}
