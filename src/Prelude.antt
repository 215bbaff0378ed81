-- ===== src/Prelude.antt =====
-- The names that every module shares: the libraries' names, passed on, and those of the children.
mod Tests
mod Lists
mod Eq
mod Panics
mod Maps
mod Ints
pub use Maps.{
  Dict, load-store, load-delete, load-store_self, Every, Every-load, Every-store, Every-delete,
  Every-keep, keep-Every, Unique, store-Unique, keep-Unique, passed, load-keep, load-absent,
}
unfoldable pub use Maps.{load, store, delete, keep}
pub use Ints.*
pub use Tests.*
pub use Lists.*
pub use Panics.*
pub use Eq.{Bytes, KeyEq, nat_key, bytes_key, ◌=?◌, bytes_beq_iff, key_refl}
unfoldable pub use Eq.{bytes_beq}
pub use Prim.Native.Nat.{ℕ, zero, suc, ◌+◌, ◌-◌, ◌*◌, ◌/◌, ◌%◌, ◌^◌, ◌≤◌, ◌<◌}
pub use mathlib.Core.Path.{◌≡◌, refl, sym, ap, ◌∙◌, subst, fun_ext}
pub use mathlib.Core.Logic.{◌≢◌, ◌↔◌, ◌⊎◌, inl, inr}
pub use mathlib.Core.Bool.{Bool, true, false, not, ◌&&◌, ◌||◌}
pub use mathlib.Core.Option.{Option, none, some, some-injective}
pub use mathlib.Core.List.{List, [], ◌∷◌, ◌++◌, map}
pub use native.Mathlib.Omega.{arith}
