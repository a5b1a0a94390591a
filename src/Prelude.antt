-- ===== src/Prelude.antt =====
-- Names shared by all modules: the libraries' names passed on, and the children's.
mod Tests
mod Lists
mod Int
mod Strings
mod Effects
mod Maps
mod Decimal
pub use Tests.*
pub use Lists.*
pub use Int.*
pub use Effects.*
pub use Maps.{
  Dict, lookup-insert, lookup-insert_self, AllValues, lookup-AllValues, insert-AllValues, Absent,
  HasDistinctKeys, insert-HasDistinctKeys,
}
unfoldable pub use Maps.{lookup, insert, erase}
unfoldable pub use Strings.{
  Text, codes, text_eq, is_white, trim_start, trim_end, trim, is_blank, starts_with, includes,
  IsSolid,
}
pub use Strings.{text_eq_iff, text_eq_refl, text_eq-false_iff, starts_with-append, trim-IsSolid}
unfoldable pub use Decimal.{to_decimal, big_text, big_int, numbers}
pub use Decimal.{
  big_int-big_text, read-to_decimal, length-to_decimal-le, big_text-IsSolid, big_text-ne-nil,
  big_text-inj, AllDigits, big_int_of_digits,
}
pub use Prim.Native.Nat.{ℕ, zero, suc, ◌+◌, ◌-◌, ◌*◌, ◌/◌, ◌%◌, ◌^◌, ◌≤◌, ◌<◌, min, max}
pub use Prim.Native.String.{String}
pub use mathlib.Core.Path.{subst, ◌≡◌, refl, sym, ap, ◌∙◌, fun_ext}
pub use mathlib.Core.Logic.{◌≢◌, ◌↔◌, ◌⊎◌, inl, inr}
pub use mathlib.Core.Bool.{Bool, true, false, not, ◌&&◌, ◌||◌}
pub use mathlib.Core.Option.{Option, none, some}
pub use mathlib.Core.List.{List, [], ◌∷◌, ◌++◌, map}
pub use native.Mathlib.Omega.{arith}
