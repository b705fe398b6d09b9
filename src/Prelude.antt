-- ===== src/Prelude.antt =====
-- Names that the other modules share: the libraries', passed on, and those of the children.
mod Tests
mod Lists
mod Texts
mod Search
mod Maps
mod Sorting
mod Finite
mod Results
pub use Tests.*
pub use Lists.*
pub use Results.*
unfoldable pub use Texts.{
  text_eq, text_ltb, is_space, trim_left, trim_space, starts_with, trim_prefix, ends_with,
  trim_suffix, trim_right_by, utf8, utf8_all,
}
pub use Texts.{
  Text, eq_text, text, text_eq_iff, text_eq_refl, text_ltb_irrefl, text_ltb_asymm, text_ltb_trans,
  text_ltb_total, text_le_trans, starts_with-append, trim_prefix-append,
}
unfoldable pub use Search.{to_lower, has_part, has_one_of, split, cut, trim_char, member}
pub use Search.{member-append, member-head}
unfoldable pub use Maps.{lookup, insert, erase, keys, IsKey}
pub use Maps.{
  Map, lookup-insert, lookup-insert_self, lookup-erase, Unique, insert-Unique, erase-Unique,
  insert-eq_self, insert-insert, bit, count_values, count_values-insert, count_values-insert_new,
  count_values-erase,
}
unfoldable pub use Sorting.{insert_by, sort_by}
pub use Sorting.{IsSorted, sort_by-perm, sort_by-IsSorted, length-sort_by, All-sort_by}
unfoldable pub use Finite.{contains}
pub use Finite.{
  Distinct, Covers, Within, Covers-le-length, Distinct-length-le, Distinct-Covers, contains-append,
  append_one-Distinct,
}
pub use Prim.Native.Nat.{ℕ, zero, suc, ◌+◌, ◌-◌, ◌*◌, ◌/◌, ◌%◌, ◌^◌, ◌≤◌, ◌<◌}
pub use mathlib.Core.Path.{◌≡◌, refl, sym, ap, ◌∙◌, subst}
pub use mathlib.Core.Logic.{◌≢◌, ◌↔◌, ◌⊎◌, inl, inr}
pub use mathlib.Core.Bool.{Bool, true, false, not, ◌&&◌, ◌||◌}
pub use mathlib.Core.Option.{Option, none, some}
pub use mathlib.Core.List.{List, [], ◌∷◌, ◌++◌, map}
pub use native.Mathlib.Omega.{arith}
