-- ===== src/Money.antt =====
-- Amounts of money in int64 minor units with a currency: internal/domain/money/money.go. The JSON
-- methods are not here; the decimal notation is in `Money.Decimal`.
pub mod Exact
pub mod Inverse
pub mod Decimal
mod Tests
use wagering_wallet_service.Base.{
  ℤ, pos, negsuc, pos_part, neg_part, ◌+ℤ◌, ◌-ℤ◌, ltb_ℤ, eqb_ℤ, max_int64, min_int64, wrap64, Bool,
  true, false, not, ◌&&◌, ◌||◌, String, str_eq, if◌then◌else◌, Failure, of_money, MoneyError,
  Result, ok, err, ◌>>=◌, ◌>>◌, refuse_if,
}

-- `type Currency string`: the supported codes, and every other string.
pub data Currency : Type 0 where
  brl usd : Currency
  unsupported : String → Currency

-- The conversion `Currency(value)`.
unfoldable pub to_currency : String → Currency
to_currency value =
    if str_eq value "BRL" then brl else if str_eq value "USD" then usd else unsupported value

-- `Currency.Supported`: the keys of `supportedCurrencies`.
abbrev pub supported : Currency → Bool
supported brl = true
supported usd = true
supported (unsupported _) = false

-- `Currency.String`.
abbrev pub currency_code : Currency → String
currency_code brl = "BRL"
currency_code usd = "USD"
currency_code (unsupported code) = code

unfoldable pub parse_currency : String → Result Currency
unfolding to_currency
parse_currency value =
    let currency = to_currency value in
    if supported currency then ok currency else err (of_money MoneyError.invalid_currency)

-- `==` on currencies.
abbrev pub currency_eq : Currency → Currency → Bool
currency_eq brl brl = true
currency_eq usd usd = true
currency_eq (unsupported a) (unsupported b) = str_eq a b
currency_eq _ _ = false

pub record Money : Type 0 where
  pub minor : ℤ  -- int64
  pub currency : Currency

-- The zero value `Money{}`.
abbrev pub no_money : Money
no_money = record { minor = pos 0; currency = unsupported "" }

abbrev pub is_zero : Money → Bool
is_zero m = eqb_ℤ m.minor (pos 0)

abbrev pub is_negative : Money → Bool
is_negative m = ltb_ℤ m.minor (pos 0)

abbrev pub is_positive : Money → Bool
is_positive m = ltb_ℤ (pos 0) m.minor

-- `Money.Valid`.
abbrev pub is_valid : Money → Bool
is_valid m = supported m.currency

unfoldable pub from_minor : ℤ → Currency → Result Money
from_minor minor currency =
    if not (supported currency)
    then err (of_money MoneyError.invalid_currency)
    else ok (record { minor = minor; currency = currency })

-- `Zero`
unfoldable pub zero_of : Currency → Result Money
unfolding from_minor
zero_of currency = from_minor (pos 0) currency

-- The sum in int64 wraps round; the tests read the wrapped value.
unfoldable pub add_exact : ℤ → ℤ → Result ℤ
add_exact a b =
    let sum = wrap64 (a +ℤ b) in
    if (ltb_ℤ (pos 0) b && ltb_ℤ sum a) || (ltb_ℤ b (pos 0) && ltb_ℤ a sum)
    then err (of_money MoneyError.overflow)
    else ok sum

unfoldable pub sub_exact : ℤ → ℤ → Result ℤ
sub_exact a b =
    let difference = wrap64 (a -ℤ b) in
    if (ltb_ℤ b (pos 0) && ltb_ℤ difference a) || (ltb_ℤ (pos 0) b && ltb_ℤ a difference)
    then err (of_money MoneyError.overflow)
    else ok difference

unfoldable pub comparable_with : Money → Money → Result (Unit {0})
comparable_with m other = do
  refuse_if (not (is_valid m) || not (is_valid other)) (of_money MoneyError.invalid_currency)
  refuse_if (not (currency_eq m.currency other.currency)) (of_money MoneyError.currency_mismatch)
  ok tt

unfoldable pub add : Money → Money → Result Money
unfolding comparable_with add_exact
add m other = do
  comparable_with m other
  sum ← add_exact m.minor other.minor
  ok (record { minor = sum; currency = m.currency })

unfoldable pub sub : Money → Money → Result Money
unfolding comparable_with sub_exact
sub m other = do
  comparable_with m other
  difference ← sub_exact m.minor other.minor
  ok (record { minor = difference; currency = m.currency })

-- `-x` in int64.
unfoldable pub neg : Money → Result Money
neg m = do
  refuse_if (not (is_valid m)) (of_money MoneyError.invalid_currency)
  refuse_if (eqb_ℤ m.minor min_int64) (of_money MoneyError.overflow)
  ok (record m { minor = wrap64 (pos 0 -ℤ m.minor) })

-- `Cmp` answers -1, 0 or 1.
unfoldable pub cmp : Money → Money → Result ℤ
unfolding comparable_with
cmp m other = do
  comparable_with m other
  ok (
      if ltb_ℤ m.minor other.minor
      then negsuc 0
      else if ltb_ℤ other.minor m.minor
      then pos 1
      else pos 0)

-- `Money.Equal`
abbrev pub equal : Money → Money → Bool
equal m other = eqb_ℤ m.minor other.minor && currency_eq m.currency other.currency
