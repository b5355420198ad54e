-- ===== src/Base.antt =====
-- The names that the other modules share: the libraries', passed on, and those of three children.
mod Tests
mod Lists
mod Dicts
pub mod Action
pub use Tests.*
unfoldable pub use Lists.{includes, splice}
pub use Lists.{length, get_elem?, filter, length-append, includes-push, includes-splice_ne}
unfoldable pub use Dicts.{lookup, insert, delete, keys}
pub use Dicts.{
  Dict, lookup-insert, lookup-delete, lookup-insert_self, lookup-insert_ne, lookup-delete_ne,
  dict_laws,
}
pub use Prim.Native.Nat.{ℕ, zero, suc, ◌+◌, ◌-◌, ◌*◌, ◌/◌, ◌≤◌, ◌<◌}
pub use mathlib.Core.Path.{◌≡◌, refl, sym, ap, ◌∙◌}
pub use mathlib.Core.Logic.{◌≢◌, ◌⊎◌, inl, inr}
pub use mathlib.Core.Bool.{Bool, true, false, not, ◌&&◌, ◌||◌}
pub use mathlib.Core.Option.{Option, none, some}
pub use mathlib.Core.List.{List, [], ◌∷◌, ◌++◌, map, append-nil, append_assoc}
pub use native.Mathlib.Omega.{arith}
