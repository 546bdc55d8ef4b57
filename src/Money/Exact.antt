-- ===== src/Money/Exact.antt =====
-- The checked int64 arithmetic against the exact integers, and the laws of amounts.
use wagering_wallet_service.Base.{
  if◌then◌else◌, MoneyError, of_money, ok, err, ℤ, +ℤ_parts, -ℤ_parts, InInt64, in_int64,
  wrap64_self, wrap64_above, wrap64_below, parts_apart, ◌+ℤ◌, ◌-ℤ◌, wrap64, ◌≡◌, refl, ap, true,
  arith, eq_iff, eq_refl,
}
use wagering_wallet_service.Money.{
  Currency, brl, usd, unsupported, supported, currency_eq, Money, comparable_with, add_exact,
  sub_exact, add, sub,
}

-- The exact sum when it is an int64, and `ErrOverflow` when it is not: the test on the wrapped sum
-- is exact, for every pair of int64 operands.
pub add_exact_lem :
    (a b : ℤ)
    → InInt64 a
    → InInt64 b
    → add_exact a b
      ≡ (if in_int64 (a +ℤ b) then ok (a +ℤ b) else err (of_money MoneyError.overflow))
unfolding add_exact
add_exact_lem a b ha hb = ground (
  arith,
  +ℤ_parts a b,
  parts_apart a,
  parts_apart b,
  parts_apart (a +ℤ b),
  parts_apart (wrap64 (a +ℤ b)),
  wrap64_self (a +ℤ b),
  wrap64_above (a +ℤ b),
  wrap64_below (a +ℤ b),
)

-- The exact difference when it is an int64, and `ErrOverflow` when it is not.
pub sub_exact_lem :
    (a b : ℤ)
    → InInt64 a
    → InInt64 b
    → sub_exact a b
      ≡ (if in_int64 (a -ℤ b) then ok (a -ℤ b) else err (of_money MoneyError.overflow))
unfolding sub_exact
sub_exact_lem a b ha hb = ground (
  arith,
  -ℤ_parts a b,
  parts_apart a,
  parts_apart b,
  parts_apart (a -ℤ b),
  parts_apart (wrap64 (a -ℤ b)),
  wrap64_self (a -ℤ b),
  wrap64_above (a -ℤ b),
  wrap64_below (a -ℤ b),
)

pub currency_eq→eq : (c d : Currency) → currency_eq c d ≡ true → c ≡ d
currency_eq→eq brl brl h = refl
currency_eq→eq usd usd h = refl
currency_eq→eq (unsupported a) (unsupported b) h = ap unsupported ((eq_iff a b).0 h)
currency_eq→eq brl usd h = cc
currency_eq→eq brl (unsupported b) h = cc
currency_eq→eq usd brl h = cc
currency_eq→eq usd (unsupported b) h = cc
currency_eq→eq (unsupported a) brl h = cc
currency_eq→eq (unsupported a) usd h = cc

pub currency_eq_refl : (c : Currency) → currency_eq c c ≡ true
currency_eq_refl brl = refl
currency_eq_refl usd = refl
currency_eq_refl (unsupported a) = eq_refl a

-- Two amounts that one operation may take: the same supported currency, each in int64.
pub record Compatible (m other : Money) : Type 0 where
  pub same : m.currency ≡ other.currency
  pub known : supported m.currency ≡ true
  pub left : InInt64 m.minor
  pub right : InInt64 other.minor

pub comparable_with_lem : {m other : Money} → Compatible m other → comparable_with m other ≡ ok tt
unfolding comparable_with
comparable_with_lem {m} {other} h = rw (← h.same, h.known, currency_eq_refl m.currency) refl

pub comparable_with-ok :
    (m other : Money)
    → comparable_with m other ≡ ok tt
    → (m.currency ≡ other.currency) × (supported m.currency ≡ true)
unfolding comparable_with
comparable_with-ok m other h = ground (arith, currency_eq→eq m.currency other.currency)

-- `Add` on compatible amounts is the exact sum or `ErrOverflow`.
pub add_lem :
    {m other : Money}
    → Compatible m other
    → add m other ≡ (
        if in_int64 (m.minor +ℤ other.minor)
        then ok (record m { minor = m.minor +ℤ other.minor })
        else err (of_money MoneyError.overflow))
unfolding add
add_lem {m} {other} h = ground (arith, comparable_with_lem h, add_exact_lem m.minor other.minor)

-- `Sub` on compatible amounts is the exact difference or `ErrOverflow`.
pub sub_lem :
    {m other : Money}
    → Compatible m other
    → sub m other ≡ (
        if in_int64 (m.minor -ℤ other.minor)
        then ok (record m { minor = m.minor -ℤ other.minor })
        else err (of_money MoneyError.overflow))
unfolding sub
sub_lem {m} {other} h = ground (arith, comparable_with_lem h, sub_exact_lem m.minor other.minor)
