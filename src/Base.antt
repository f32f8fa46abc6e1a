-- ===== src/Base.antt =====
-- The names that the other modules share: those of the libraries, passed on, and those of the
-- children, which model no file of the program by themselves: tests on numbers, lists, JavaScript
-- strings as lists of code units, and JavaScript's `Map` as a list of pairs in insertion order.
pub mod Tests
pub mod Lists
pub mod Strings
pub mod Maps
pub use Tests.*
pub use Lists.{
  length, get_elem?, sum, length-append, length-keep, length-keep_split, keep-append, All, keep-All,
}
unfoldable pub use Lists.{keep, any, find}
pub use Strings.{Text, codes, text_eq_refl, text_eq_iff, text_eq-ne, Text-cases, starts_with-append}
unfoldable pub use Strings.{
  text_eq, starts_with, ends_with, includes, lower, index_of, last_index_of, take, drop,
}
pub use Maps.{
  Dict, lookup-insert, lookup-remove, insert-Distinct, remove-Distinct, keep_entries-Distinct,
  passing, lookup-keep_entries, length-insert, length-insert-some, length-remove,
  length-remove-some, length-keep_entries, keys-lookup, any-keep,
}
unfoldable pub use Maps.{lookup, insert, remove, keep_entries, Distinct}
pub use Prim.Native.Nat.{ℕ, zero, suc, ◌+◌, ◌-◌, ◌*◌, ◌/◌, ◌%◌, ◌≤◌, ◌<◌, min, max}
pub use mathlib.Core.Path.{◌≡◌, refl, sym, ap, subst, ◌∙◌}
pub use mathlib.Core.Logic.{◌≢◌, ◌↔◌, ◌⊎◌, inl, inr}
pub use mathlib.Core.Bool.{Bool, true, false, not, ◌&&◌, ◌||◌}
pub use mathlib.Core.Option.{Option, none, some}
pub use mathlib.Core.List.{List, [], ◌∷◌, ◌++◌, map}
pub use native.Mathlib.Omega.{arith}
unfoldable pub use native.Mathlib.Decide.{dec_lt, dec_le, ℕ_discrete}
