-- ===== src/Prelude.antt =====
-- The names that the other modules share: the libraries' and those of four children.
pub mod Tests
pub mod Lists
pub mod Texts
pub mod Maps
pub mod Slices
pub mod Counts
pub use Tests.*
pub use Lists.*
unfoldable pub use Texts.{text_eq, strip}
pub use Texts.{Text, codes, text_eq_refl, text_eq_iff, is_empty, strip-append, append_of_strip}
unfoldable pub use Maps.{lookup, delete, insert}
pub use Maps.{
  Map, lookup-delete, lookup-insert, lookup-insert_self, lookup-delete_self, Unique, delete-Unique,
  insert-Unique, delete_absent, nil_of_lookup, map_laws,
}
pub use Prim.Native.Nat.{ℕ, zero, suc, ◌+◌, ◌-◌, ◌*◌, ◌/◌, ◌%◌, ◌^◌, ◌≤◌, ◌<◌, min}
pub use mathlib.Core.Path.{◌≡◌, refl, sym, ap, ◌∙◌}
pub use mathlib.Core.Logic.{◌≢◌, ◌↔◌, ◌⊎◌, inl, inr}
pub use mathlib.Core.Bool.{Bool, true, false, not, ◌&&◌, ◌||◌}
pub use mathlib.Core.Option.{Option, none, some}
pub use mathlib.Core.List.{List, [], ◌∷◌, ◌++◌, map, append-nil, append_assoc}
pub use native.Mathlib.Omega.{arith}
