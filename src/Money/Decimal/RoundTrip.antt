-- ===== src/Money/Decimal/RoundTrip.antt =====
-- `Parse` reads back what `String` prints of an amount that is not negative.
use wagering_wallet_service.Base.{
  ltb, if◌then◌else◌, lt→ltb, MoneyError, ◌>>=◌, of_money, ok, err, pos, max_int64, wrap64_self,
  length, ℕ, ◌+◌, ◌*◌, ◌/◌, ◌%◌, ◌^◌, ◌≤◌, ◌<◌, String, ◌≡◌, refl, ap, ◌∙◌, inl, inr, true, not,
  some, List, [], ◌∷◌, ◌++◌, arith, dec_lt,
}
use wagering_wallet_service.Money.{
  currency_code, Currency, brl, usd, unsupported, supported, parse_currency,
}
use wagering_wallet_service.Money.Decimal.{
  digits, format_uint, value_of, parse_int, matches_canonical, cut, units_and_cents,
  parse_minor_units, parse, to_string,
}
use wagering_wallet_service.Money.Decimal.Digits.{
  digits-ne-nil, parse_int-digital, digits_one, digits_more, digits-all, value_of-digits,
  length-digits, digits_pos,
}
use wagering_wallet_service.Money.Decimal.Shape.{
  written, IsWhole, cut-written, matches_canonical-written,
}

format_uint-digits : (n : ℕ) → format_uint n ≡ digits 20 n
unfolding format_uint
format_uint-digits n = refl

-- The two digits of a number of cents.
cents_text :
    (c : ℕ)
    → c < 100
    → (if ltb c 10 then b'0' ∷ [] else []) ++ format_uint c ≡ (b'0' + c / 10) ∷ (b'0' + c % 10) ∷ []
cents_text c h = elim (dec_lt c 10) [
  | yes small ↦ rw (lt→ltb c 10 small, format_uint-digits, digits_one 19 c small) (ground arith)
  | no large ↦
      rw (format_uint-digits, digits_more 19 c (omega arith), digits_one 18 (c / 10) (omega arith))
        (ground arith)
]

pub to_string-written :
    (n : ℕ) (c : Currency)
    → to_string (record { minor = pos n; currency = c })
      ≡ written (digits 20 (n / 100)) (b'0' + n % 100 / 10) (b'0' + n % 100 % 10)
unfolding to_string
to_string-written n c =
    ground (arith, cents_text (n % 100) (omega arith), format_uint-digits (n / 100))

IsWhole-digits : (u : ℕ) → u < 10 ^ 17 → IsWhole (digits 20 u)
IsWhole-digits u h = elim (dec_lt 0 u) [
  | yes positive ↦
      let (c, rest, e, lo, hi) = digits_pos 20 u positive (omega arith) in
      rw e (
        inr (
          lo,
          hi,
          ground (arith, digits-all 20 u),
          omega (arith, length-digits 20 16 u h, ap (length {A = ℕ}) e),
        ))
  | no nothing ↦ let e : u ≡ 0 = omega arith in rw e (unfold digits in inl (refl, refl))
]

parse_int-digits : (u : ℕ) → u ≤ max_int64 → parse_int (digits 20 u) ≡ some u
parse_int-digits u h =
    let same : value_of 0 (digits 20 u) ≡ u = value_of-digits 20 u (omega arith) in
    parse_int-digital (digits 20 u) (digits-ne-nil 19 u) (digits-all 20 u) (omega arith)
    ∙ ap some same

-- The two cents digits are read back.
parse_int-cents : (c : ℕ) → c < 100 → parse_int ((b'0' + c / 10) ∷ (b'0' + c % 10) ∷ []) ≡ some c
unfolding parse_int
parse_int-cents c h = ground arith

-- The steps of `parseMinorUnits`, each shut.
pub parse_minor_units_lem :
    (a : List ℕ)
    → parse_minor_units a ≡ (
        if not (matches_canonical a)
        then err (of_money MoneyError.invalid_amount)
        else units_and_cents (parse_int (cut a).0) (parse_int (cut a).1))
unfolding parse_minor_units
parse_minor_units_lem a = refl

units_and_cents_lem :
    (units cents : ℕ)
    → cents < 100
    → units * 100 + cents ≤ max_int64
    → units_and_cents (some units) (some cents) ≡ ok (pos (units * 100 + cents))
unfolding units_and_cents
units_and_cents_lem units cents c h = ground (arith, wrap64_self (pos (units * 100 + cents)))

-- `parseMinorUnits` reads back every printed amount that is not negative.
parse_minor_units-written :
    (n : ℕ)
    → n ≤ max_int64
    → parse_minor_units (written (digits 20 (n / 100)) (b'0' + n % 100 / 10) (b'0' + n % 100 % 10))
      ≡ ok (pos n)
parse_minor_units-written n h =
    let whole = digits 20 (n / 100) in
    let d = b'0' + n % 100 / 10 in
    let e = b'0' + n % 100 % 10 in
    let matched : matches_canonical (written whole d e) ≡ true =
      matches_canonical-written whole d e (IsWhole-digits (n / 100) (omega arith)) (ground arith)
        (ground arith) in
    let parts : cut (written whole d e) ≡ (whole, d ∷ e ∷ []) =
      cut-written whole d e (digits-all 20 (n / 100)) in
    let total : n / 100 * 100 + n % 100 ≡ n = omega arith in
    rw (
      parse_minor_units_lem,
      matched,
      parts,
      parse_int-digits (n / 100) (omega arith),
      parse_int-cents (n % 100) (omega arith),
      units_and_cents_lem (n / 100) (n % 100) (omega arith) (omega arith),
      total,
    )

parse_currency-code : (c : Currency) → supported c ≡ true → parse_currency (currency_code c) ≡ ok c
unfolding parse_currency
parse_currency-code brl h = refl
parse_currency-code usd h = refl
parse_currency-code (unsupported code) h = cc

pub parse_lem :
    (a : List ℕ) (code : String)
    → parse a code ≡ (do
      c ← parse_currency code
      minor ← parse_minor_units a
      ok (record { minor = minor; currency = c }))
unfolding parse
parse_lem a code = refl

-- Printing an amount that is not negative and parsing the text gives the amount back.
pub parse-to_string :
    (n : ℕ) (c : Currency)
    → n ≤ max_int64
    → supported c ≡ true
    → parse (to_string (record { minor = pos n; currency = c })) (currency_code c)
      ≡ ok (record { minor = pos n; currency = c })
parse-to_string n c h s =
    rw (parse_lem, parse_currency-code c s, to_string-written n c, parse_minor_units-written n h)
