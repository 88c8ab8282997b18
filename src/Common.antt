-- ===== src/Common.antt =====
-- The names that the other modules share: the libraries', passed on, and those of three children.
mod Tests
mod Lists
mod Strings
mod Results
mod Bytes
mod Substrings
mod Orders
mod Dicts
pub mod Trimming
pub use Tests.*
pub use Lists.*
unfoldable pub use Strings.{◌=?◌}
pub use Strings.{Text, codes, eq_sound, eq_refl, eq_complete, eq_iff}
pub use Prim.Native.Nat.{ℕ, zero, suc, ◌+◌, ◌-◌, ◌*◌, ◌/◌, ◌%◌, ◌^◌, ◌≤◌, ◌<◌}
pub use mathlib.Core.Path.{◌≡◌, refl, sym, ap, ◌∙◌, subst}
pub use mathlib.Core.Logic.{◌≢◌, ◌↔◌, ◌⊎◌, inl, inr}
pub use mathlib.Core.Bool.{Bool, true, false, ◌&&◌, ◌||◌, not}
pub use mathlib.Core.Option.{Option, none, some}
pub use mathlib.Core.List.{List, [], ◌∷◌, ◌++◌, map, append_assoc, append-nil}
pub use native.Mathlib.Omega.{arith}
pub use Results.*
unfoldable pub use Bytes.{cut, split_n, has_prefix, spaced, trim_left, trim_right, trim_space, itoa}
pub use Bytes.{
  Lacks, cut-append, cut-Lacks, cut_sound, cut-none, cut-length, split_n-spaced, All-mono,
  spaced-Lacks, is_space, lower, to_lower, to_lower_idem, equal_fold,
}
unfoldable pub use Substrings.{
  cut_at, contains, cut_last, trim_suffix, ends_in, trim_left_of, trim_right_of, split, join,
}
pub use Substrings.{contains_byte, contains_any, onto_first, end_without}
unfoldable pub use Orders.{text_ltb, insert_by, sort_by}
pub use Orders.{
  text_ltb_irrefl, text_ltb_trans, text_ltb_total, any-sort_by, total-sort_by, length-sort_by,
}
unfoldable pub use Dicts.{lookup, insert, erase}
pub use Dicts.{
  Dict, lookup-insert_self, lookup-insert_ne, lookup-erase_self, lookup-erase_ne, All-insert,
  All-erase, IsKeyed, insert-IsKeyed, erase-IsKeyed,
}
