-- ===== src/Prelude.antt =====
-- The names that the other modules share: the libraries', passed on, and those of the children.
mod Tests
mod Lists
mod ByteStrings
mod Decimal
mod Spans
pub use Tests.*
pub use Lists.*
pub use ByteStrings.{Bytes, codes, strip_prefix-append, is_digit, bytes_eq}
unfoldable pub use ByteStrings.{strip_prefix}
pub use Decimal.{
  ℤ, pos, negsuc, neg, ltz, eqz, eqz_sound, eqz_refl, add_one, AllDigits, decimal-AllDigits,
  parse_int-decimal, decimal-cons,
}
unfoldable pub use Decimal.{decimal, parse_int}
unfoldable pub use Spans.{run_of, rest_of}
pub use Spans.{run_of-append, rest_of-append, length-rest_of-le, length-strip_prefix}
pub use Prim.Native.Nat.{ℕ, zero, suc, ◌+◌, ◌-◌, ◌*◌, ◌/◌, ◌%◌, ◌^◌, ◌≤◌, ◌<◌, min}
pub use Prim.Native.String.{String}
pub use mathlib.Core.Path.{◌≡◌, refl, sym, ap, ◌∙◌, subst}
pub use mathlib.Core.Logic.{◌≢◌, ◌↔◌, ◌⊎◌, inl, inr}
pub use mathlib.Core.Bool.{Bool, true, false, not, ◌&&◌, ◌||◌}
pub use mathlib.Core.Option.{Option, none, some}
pub use mathlib.Core.List.{List, [], ◌∷◌, ◌++◌, append_assoc, append-nil, map}
pub use native.Mathlib.Omega.{arith}
pub use text.Mathlib.Text.{◌==◌ as str_eq}
pub use text.Mathlib.TextEquality.{eq_iff}
pub use text.Mathlib.TextPositions.{eq_refl}
