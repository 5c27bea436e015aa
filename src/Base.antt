-- ===== src/Base.antt =====
-- The names that the other modules share: the libraries', passed on, and those of the children.
mod Tests
mod Lists
pub mod Int
pub mod Result
pub mod Json
pub mod Exec
pub mod Dict
mod Strings
mod Split
pub use Tests.*
pub use Lists.*
pub use Strings.{Text, ◌==◌, equal_iff, equal_refl, is_empty}
unfoldable pub use Strings.{
  lit, equal, contains, is_space, is_digit, is_upper, is_lower, is_alnum, is_word, lower_char,
  lower, lstrip, rstrip, strip, starts_with, has_substring, has_char,
}
unfoldable pub use Split.{split_on, split_words, lines_from, split_lines, cut, split_max, join_with}
pub use Split.{nth_or}
pub use Prim.Native.Nat.{ℕ, zero, suc, ◌+◌, ◌-◌, ◌*◌, ◌/◌, ◌%◌, ◌≤◌, ◌<◌}
pub use mathlib.Core.Path.{◌≡◌, refl, sym, ap, ◌∙◌, subst}
pub use mathlib.Core.Logic.{◌≢◌, ◌↔◌, ◌⊎◌, inl, inr}
pub use mathlib.Core.Bool.{Bool, true, false, not, ◌&&◌, ◌||◌}
pub use mathlib.Core.Option.{Option, none, some}
pub use mathlib.Core.List.{List, [], ◌∷◌, ◌++◌, map}
pub use native.Mathlib.Omega.{arith}
