-- ===== src/Prelude.antt =====
-- The names that the other modules share: the libraries', passed on, and those of the children.
mod Tests
mod Lists
mod Equality
mod Texts
mod Int
mod Strings
pub use Tests.{ltb, leb, if◌then◌else◌, ltb→lt, lt→ltb, leb→le, tests, Bool-cases, Option-cases}
pub use Lists.*
pub use Equality.{Eq, ◌==◌, nat_eq, list_eq, pair_eq, eq_self}
unfoldable pub use Equality.{list_beq, contains}
unfoldable pub use Int.{int_beq, show_int}
pub use Int.{ℤ, pos, negsuc, int_eq, int_beq_iff}
unfoldable pub use Texts.{show, value}
pub use Texts.{
  Text, text_eq, text_eq_iff, codes, value-show, show_injective, AllChars, IsDigit, show-AllChars,
  AllChars-append, show-ne-nil, split_unique,
}
unfoldable pub use Strings.{
  text_leb, insert_text, sorted_texts, join, is_space, lstrip, strip, starts, occurs, replace,
}
pub use Strings.{text_or}
pub use Prim.Native.Nat.{ℕ, zero, suc, ◌+◌, ◌-◌, ◌*◌, ◌/◌, ◌%◌, ◌^◌, ◌≤◌, ◌<◌, min}
pub use Prim.Native.String.{String}
pub use mathlib.Core.Path.{◌≡◌, refl, sym, ap, ◌∙◌}
pub use mathlib.Core.Logic.{◌≢◌, ◌↔◌, ◌⊎◌, inl, inr}
pub use mathlib.Core.Bool.{Bool, true, false, not, ◌&&◌, ◌||◌}
pub use mathlib.Core.Option.{Option, none, some}
pub use mathlib.Core.List.{List, [], ◌∷◌, ◌++◌, map}
pub use native.Mathlib.Omega.{arith}
