-- ===== src/Base.antt =====
-- The names that the components share: the libraries', passed on, and those of the children:
-- tests, 64-bit integers, texts, and results.
pub mod Tests
pub mod Int
pub mod Text
pub mod Errors
pub mod Ids
pub mod Lists
pub use Tests.*
pub use Int.{
  ℤ, pos, negsuc, pos_part, neg_part, ◌≤ℤ◌, ◌<ℤ◌, ltb_ℤ, eqb_ℤ, +ℤ_parts, -ℤ_parts, eq_of_parts,
  int_laws, max_int64, min_int64, InInt64, in_int64, wrap64_self, wrap64-InInt64, wrap64_above,
  wrap64_below, parts_apart,
}
unfoldable pub use Int.{◌+ℤ◌, ◌-ℤ◌, wrap64}
pub use Text.{codes, length, all, is_empty, is_digit, is_lower_hex}
unfoldable pub use Text.{is_space, is_blank, is_payload_hash}
pub use Errors.*
pub use Ids.*
pub use Lists.*
pub use Prim.Native.Nat.{ℕ, zero, suc, ◌+◌, ◌-◌, ◌*◌, ◌/◌, ◌%◌, ◌^◌, ◌≤◌, ◌<◌}
pub use Prim.Native.String.{String}
pub use mathlib.Core.Path.{◌≡◌, refl, sym, ap, ◌∙◌}
pub use mathlib.Core.Logic.{◌≢◌, ◌↔◌, ◌⊎◌, inl, inr}
pub use mathlib.Core.Bool.{Bool, true, false, not, ◌&&◌, ◌||◌}
pub use mathlib.Core.Option.{Option, none, some}
pub use mathlib.Core.List.{List, [], ◌∷◌, ◌++◌, map}
pub use native.Mathlib.Omega.{arith}
pub use text.Mathlib.Text.{◌==◌ as str_eq}
pub use text.Mathlib.TextEquality.{eq_iff}
pub use text.Mathlib.TextPositions.{eq_refl}
unfoldable pub use native.Mathlib.Decide.{dec_lt, dec_le}
