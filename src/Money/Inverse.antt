-- ===== src/Money/Inverse.antt =====
-- What a successful `Add`, `Sub`, `Neg` or `Cmp` says about its operands.
use wagering_wallet_service.Base.{
  ◌>>=◌, ok, ℤ, pos, negsuc, ◌<ℤ◌, +ℤ_parts, -ℤ_parts, eq_of_parts, min_int64, InInt64, wrap64_self,
  parts_apart, ◌+ℤ◌, ◌-ℤ◌, ◌≡◌, sym, ap, ◌∙◌, ◌≢◌, ◌↔◌, true, arith,
}
use wagering_wallet_service.Money.{supported, Money, is_valid, add, sub, neg, cmp, equal}
use wagering_wallet_service.Money.Exact.{
  Compatible, comparable_with-ok, add_exact_lem, sub_exact_lem, add_lem, sub_lem,
  comparable_with_lem, currency_eq_refl,
}

-- The result of a successful operation on `m` and `other` whose exact value is `z`.
pub record Moved (m other : Money) (z : ℤ) (result : Money) : Type 0 where
  pub exact : result.minor ≡ z
  pub kept : result.currency ≡ m.currency
  pub same : m.currency ≡ other.currency
  pub known : supported m.currency ≡ true
  pub fits : InInt64 result.minor

pub add-ok :
    (m other : Money) {s : Money}
    → InInt64 m.minor
    → InInt64 other.minor
    → add m other ≡ ok s
    → Moved m other (m.minor +ℤ other.minor) s
unfolding add
add-ok m other hm ho h =
    ground (arith, comparable_with-ok m other, add_exact_lem m.minor other.minor hm ho)

pub sub-ok :
    (m other : Money) {s : Money}
    → InInt64 m.minor
    → InInt64 other.minor
    → sub m other ≡ ok s
    → Moved m other (m.minor -ℤ other.minor) s
unfolding sub
sub-ok m other hm ho h =
    ground (arith, comparable_with-ok m other, sub_exact_lem m.minor other.minor hm ho)

-- Subtracting what was added gives back the first amount: a sum that `Add` returns can always be
-- taken apart again, with no overflow.
pub sub-add :
    (m other : Money) {s : Money}
    → InInt64 m.minor
    → InInt64 other.minor
    → add m other ≡ ok s
    → sub s other ≡ ok m
sub-add m other {s} hm ho h =
    let moved = add-ok m other hm ho h in
    ground (
      arith,
      sub_lem {m = s} {other = other} (record {
        same = moved.kept ∙ moved.same;
        known = ap supported moved.kept ∙ moved.known;
        left = moved.fits;
        right = ho;
      }),
      +ℤ_parts m.minor other.minor,
      -ℤ_parts s.minor other.minor,
      eq_of_parts m.minor (s.minor -ℤ other.minor),
    )

-- `Add` does not depend on the order of its operands.
pub add_comm : {m other : Money} → Compatible m other → add m other ≡ add other m
add_comm {m} {other} h = ground (
  arith,
  add_lem h,
  add_lem {m = other} {other = m} (swap h),
  h.same,
  +ℤ_parts m.minor other.minor,
  +ℤ_parts other.minor m.minor,
  eq_of_parts (m.minor +ℤ other.minor) (other.minor +ℤ m.minor),
)
  where
    swap : Compatible m other → Compatible other m
    swap c = record {
      same = sym c.same;
      known = ap supported (sym c.same) ∙ c.known;
      left = c.right;
      right = c.left;
    }

-- The three answers of `Cmp` on compatible amounts: -1 exactly below, 1 exactly above, 0 exactly
-- when the two are `Equal`.
pub cmp_lem :
    {m other : Money}
    → Compatible m other
    → ((cmp m other ≡ ok (negsuc 0)) ↔ (m.minor <ℤ other.minor))
      × ((cmp m other ≡ ok (pos 1)) ↔ (other.minor <ℤ m.minor))
      × ((cmp m other ≡ ok (pos 0)) ↔ (equal m other ≡ true))
unfolding cmp
cmp_lem {m} {other} h = (
  (ground (arith, comparable_with_lem h), ground (arith, comparable_with_lem h)),
  (ground (arith, comparable_with_lem h), ground (arith, comparable_with_lem h)),
  (
    ground (arith, comparable_with_lem h, h.same, currency_eq_refl m.currency),
    ground (arith, comparable_with_lem h),
  ),
)

-- Of a valid amount other than the smallest int64, `Neg` succeeds, and a second `Neg` gives the
-- amount back.
pub neg-neg :
    (m : Money) → InInt64 m.minor → is_valid m ≡ true → m.minor ≢ min_int64 → (neg m >>= neg) ≡ ok m
unfolding neg
neg-neg m h v n = ground (
  arith,
  -ℤ_parts (pos 0) m.minor,
  -ℤ_parts (pos 0) (pos 0 -ℤ m.minor),
  parts_apart m.minor,
  parts_apart (pos 0 -ℤ m.minor),
  wrap64_self (pos 0 -ℤ m.minor),
  wrap64_self (pos 0 -ℤ (pos 0 -ℤ m.minor)),
  eq_of_parts m.minor min_int64,
  eq_of_parts m.minor (pos 0 -ℤ (pos 0 -ℤ m.minor)),
)
