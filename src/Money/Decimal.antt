-- ===== src/Money/Decimal.antt =====
-- The decimal notation of internal/domain/money/money.go: `Parse` with its regular expression, and
-- `String`. A text is the list of its bytes.
pub mod Digits
pub mod Shape
pub mod RoundTrip
pub mod Canonical
use wagering_wallet_service.Base.{
  ◌>>=◌, ◌>>◌, ltb, leb, ◌==◌, if◌then◌else◌, MoneyError, Result, of_money, ok, err, ℤ, pos, negsuc,
  ltb_ℤ, max_int64, wrap64, all, is_digit, ℕ, zero, suc, ◌+◌, ◌-◌, ◌*◌, ◌/◌, ◌%◌, String, Bool,
  false, not, ◌&&◌, Option, none, some, List, [], ◌∷◌, ◌++◌,
}
use wagering_wallet_service.Money.{Money, Currency, parse_currency}

-- `[0-9]{2}$`
abbrev pub matches_cents : List ℕ → Bool
matches_cents (d ∷ e ∷ []) = is_digit d && is_digit e
matches_cents _ = false

-- `\.[0-9]{2}$`
abbrev pub matches_point : List ℕ → Bool
matches_point [] = false
matches_point (c ∷ rest) = c == b'.' && matches_cents rest

-- `[0-9]{0,n}\.[0-9]{2}$`; a digit is no point, so the greedy match is the only one.
pub matches_digits : ℕ → List ℕ → Bool
matches_digits n [] = false
matches_digits zero (c ∷ rest) = matches_point (c ∷ rest)
matches_digits (suc n) (c ∷ rest) =
    let more = matches_digits n rest in if is_digit c then more else matches_point (c ∷ rest)

-- `canonicalAmount`, `^(0|[1-9][0-9]{0,16})\.[0-9]{2}$`
pub matches_canonical : List ℕ → Bool
unfolding matches_digits
matches_canonical [] = false
matches_canonical (c ∷ rest) =
    if c == b'0' then matches_point rest else leb b'1' c && leb c b'9' && matches_digits 16 rest

-- `strings.Cut(amount, ".")`, without the flag.
pub cut : List ℕ → List ℕ × List ℕ
cut [] = ([], [])
cut (c ∷ rest) =
    let (before, after) = cut rest in if c == b'.' then ([], rest) else (c ∷ before, after)

-- The value of a run of digits, most significant first.
unfoldable pub value_of : ℕ → List ℕ → ℕ
value_of acc [] = acc
value_of acc (c ∷ rest) = value_of (acc * 10 + (c - b'0')) rest

-- `strconv.ParseInt(s, 10, 64)` on a text of digits: an error when the text is empty or the value
-- is out of range. A sign is not read, since the expression admits none.
unfoldable pub parse_int : List ℕ → Option ℕ
unfolding value_of
parse_int [] = none
parse_int (c ∷ rest) =
    let value = value_of 0 (c ∷ rest) in
    if all is_digit (c ∷ rest) && leb value max_int64 then some value else none

-- The end of `parseMinorUnits`, on the two parsed numbers.
pub units_and_cents : Option ℕ → Option ℕ → Result ℤ
units_and_cents none _ = err (of_money MoneyError.overflow)
units_and_cents (some units) none = err (of_money MoneyError.invalid_amount)
units_and_cents (some units) (some cents) =
    if ltb ((max_int64 - cents) / 100) units
    then err (of_money MoneyError.overflow)
    else ok (wrap64 (pos (units * 100 + cents)))

unfoldable pub parse_minor_units : List ℕ → Result ℤ
unfolding matches_canonical cut parse_int units_and_cents
parse_minor_units amount =
    if not (matches_canonical amount)
    then err (of_money MoneyError.invalid_amount)
    else units_and_cents (parse_int (cut amount).0) (parse_int (cut amount).1)

unfoldable pub parse : List ℕ → String → Result Money
unfolding parse_minor_units parse_currency
parse amount currency = do
  parsed_currency ← parse_currency currency
  minor ← parse_minor_units amount
  ok (record { minor = minor; currency = parsed_currency })

-- `strconv.FormatUint(n, 10)`; `fuel` bounds the number of digits.
pub digits : ℕ → ℕ → List ℕ
digits zero n = []
digits (suc fuel) n =
    let high = digits fuel (n / 10) in
    if ltb n 10 then (b'0' + n) ∷ [] else high ++ (b'0' + n % 10) ∷ []

-- A `uint64` has 20 digits at most.
unfoldable pub format_uint : ℕ → List ℕ
unfolding digits
format_uint n = digits 20 n

-- `splitMinorUnits`; the magnitude is the `uint64` that the code computes.
unfoldable pub split_minor_units : ℤ → ℕ × ℕ
split_minor_units (pos n) = (n / 100, n % 100)
split_minor_units (negsuc n) = let magnitude = n + 1 in (magnitude / 100, magnitude % 100)

-- `Money.String`
unfoldable pub to_string : Money → List ℕ
unfolding format_uint split_minor_units
to_string m =
    let (units, cents) = split_minor_units m.minor in
    (if ltb_ℤ m.minor (pos 0) then b'-' ∷ [] else [])
    ++ (format_uint units
        ++ (b'.' ∷ ((if ltb cents 10 then b'0' ∷ [] else []) ++ format_uint cents)))
