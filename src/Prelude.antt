-- ===== src/Prelude.antt =====
-- The names that the other modules share: the libraries', passed on, and those of its children.
mod Tests
mod Lists
mod Text
mod Decimal
mod Maps
mod Int
pub use Tests.*
pub use Int.{ℤ, pos, negsuc, sub_ℕ, quotient, to_int}
pub use Lists.*
pub use Text.{
  Bytes, codes, sub_size, find_char_from, find_crlf_from, substr, find_char-lt, find_crlf-lt,
  is_found, eq_bytes_sound, find_char-append, find_char-absent, starts_with_sound, eq_bytes_self,
}
unfoldable pub use Text.{eq_bytes, ends_with, starts_with, find_char, find_text, find_crlf}
unfoldable pub use Decimal.{digits, to_string, read_decimal}
pub use Maps.{
  Map, UniqueKeys, total, lookup-put, lookup-erase, UniqueKeys-put, UniqueKeys-erase, total-put_new,
  total-put_old, total-erase,
}
unfoldable pub use Maps.{lookup, put, erase}
pub use Decimal.{
  read_decimal-to_string, is_decimal, to_string-decimal, to_string-null, read_decimal-append,
}
pub use Prim.Native.Nat.{ℕ, zero, suc, ◌+◌, ◌-◌, ◌*◌, ◌/◌, ◌%◌, ◌^◌, ◌≤◌, ◌<◌, min, max}
pub use mathlib.Core.Path.{◌≡◌, refl, sym, ap, ap₂, subst, ◌∙◌}
pub use mathlib.Core.Logic.{◌≢◌, ◌↔◌, ◌⊎◌, inl, inr}
pub use mathlib.Core.Bool.{Bool, true, false, not, ◌&&◌, ◌||◌}
pub use mathlib.Core.Option.{Option, none, some}
pub use mathlib.Core.List.{List, [], ◌∷◌, ◌++◌, map, append-nil, append_assoc}
unfoldable pub use native.Mathlib.Decide.{dec_lt, dec_le, ℕ_discrete}
pub use native.Mathlib.Omega.{arith}
