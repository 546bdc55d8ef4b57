-- ===== src/Money/Decimal/Canonical.antt =====
-- `String` prints back every text that `Parse` accepts.
use wagering_wallet_service.Base.{
  Bool-cases, >>=-ok, ok, ℤ, pos, max_int64, InInt64, wrap64_self, wrap64, length, all, is_digit, ℕ,
  suc, ◌+◌, ◌-◌, ◌*◌, ◌/◌, ◌%◌, ◌≤◌, ◌<◌, String, ◌≡◌, refl, sym, ap, ◌∙◌, inl, inr, true, false,
  Option, none, some, List, [], ◌∷◌, ◌++◌, arith,
}
use wagering_wallet_service.Money.{Money, Currency, supported, parse_currency, is_negative}
use wagering_wallet_service.Money.Decimal.{
  digits, value_of, parse_int, matches_canonical, cut, units_and_cents, parse_minor_units, parse,
  to_string,
}
use wagering_wallet_service.Money.Decimal.Digits.{digits_one, digits-value_of}
use wagering_wallet_service.Money.Decimal.Shape.{
  written, IsWhole, Shape, cut-written, matches_canonical-Shape,
}
use wagering_wallet_service.Money.Decimal.RoundTrip.{
  to_string-written, parse_minor_units_lem, parse_lem,
}

-- A canonical whole part is what `FormatUint` prints of its value.
digits-IsWhole : (whole : List ℕ) → IsWhole whole → digits 20 (value_of 0 whole) ≡ whole
unfolding value_of
digits-IsWhole [] w = absurd w
digits-IsWhole (c ∷ rest) (inl (zero_digit, nothing)) =
    rw (zero_digit, nothing) (unfold digits in refl)
digits-IsWhole (c ∷ rest) (inr (lo, hi, h, l)) =
    let first : b'0' + (0 * 10 + (c - b'0')) ≡ c = omega arith in
    digits-value_of (suc (19 - length rest)) 20 (0 * 10 + (c - b'0')) rest (omega arith)
      (omega arith) h
    ∙ ap (λ (l : List ℕ). l ++ rest)
        (digits_one (19 - length rest) (0 * 10 + (c - b'0')) (omega arith)
          ∙ ap (λ (k : ℕ). k ∷ []) first)

IsWhole-digital : (whole : List ℕ) → IsWhole whole → all is_digit whole ≡ true
IsWhole-digital [] w = absurd w
IsWhole-digital (c ∷ rest) (inl (e, nothing)) = rw (e, nothing) refl
IsWhole-digital (c ∷ rest) (inr (lo, hi, h, l)) = ground arith

parse_int-ok : (l : List ℕ) {v : ℕ} → parse_int l ≡ some v → (v ≡ value_of 0 l) × (v ≤ max_int64)
unfolding parse_int
parse_int-ok [] h = cc
parse_int-ok (c ∷ rest) h = ground arith

parse_int_pair-ok :
    (d e : ℕ) {v : ℕ}
    → is_digit d ≡ true
    → is_digit e ≡ true
    → parse_int (d ∷ e ∷ []) ≡ some v
    → (v < 100) × (b'0' + v / 10 ≡ d) × (b'0' + v % 10 ≡ e)
unfolding parse_int
parse_int_pair-ok d e hd he h = ground arith

-- Both numbers were read, and the total is in range.
record Total (x y : Option ℕ) (z : ℤ) : Type 0 where
  units : ℕ
  cents : ℕ
  read_units : x ≡ some units
  read_cents : y ≡ some cents
  room : units ≤ (max_int64 - cents) / 100
  exact : z ≡ wrap64 (pos (units * 100 + cents))

units_and_cents-ok : (x y : Option ℕ) {z : ℤ} → units_and_cents x y ≡ ok z → Total x y z
unfolding units_and_cents
units_and_cents-ok none y h = cc
units_and_cents-ok (some u) none h = cc
units_and_cents-ok (some u) (some c) h = record {
  units = u;
  cents = c;
  read_units = refl;
  read_cents = refl;
  room = ground arith;
  exact = ground arith;
}

-- What `parseMinorUnits` accepts is the printed form of the amount that it answers.
record Accepted (a : List ℕ) (z : ℤ) : Type 0 where
  minor : ℕ
  exact : z ≡ pos minor
  fits : minor ≤ max_int64
  printed :
      a ≡ written (digits 20 (minor / 100)) (b'0' + minor % 100 / 10) (b'0' + minor % 100 % 10)

Shape-Accepted :
    (a : List ℕ) {z : ℤ}
    → Shape a
    → units_and_cents (parse_int (cut a).0) (parse_int (cut a).1) ≡ ok z
    → Accepted a z
Shape-Accepted a {z} s h =
    let parts : cut a ≡ (s.whole, s.tenths ∷ s.hundredths ∷ []) =
      ap cut s.exact
      ∙ cut-written s.whole s.tenths s.hundredths (IsWhole-digital s.whole s.is_whole) in
    let t = units_and_cents-ok (parse_int (cut a).0) (parse_int (cut a).1) h in
    let (value, small) =
      parse_int-ok s.whole
        (sym (ap (λ (p : List ℕ × List ℕ). parse_int p.0) parts) ∙ t.read_units) in
    let (low, tens, ones) =
      parse_int_pair-ok s.tenths s.hundredths s.tenths_digit s.hundredths_digit
        (sym (ap (λ (p : List ℕ × List ℕ). parse_int p.1) parts) ∙ t.read_cents) in
    let fits : t.units * 100 + t.cents ≤ max_int64 = omega (arith, t.room) in
    let high : (t.units * 100 + t.cents) / 100 ≡ t.units = omega arith in
    let rest : (t.units * 100 + t.cents) % 100 ≡ t.cents = omega arith in
    record {
      minor = t.units * 100 + t.cents;
      exact = t.exact ∙ wrap64_self (pos (t.units * 100 + t.cents)) (fits, omega arith);
      fits = fits;
      printed = rw (high, rest, tens, ones, value, digits-IsWhole s.whole s.is_whole) s.exact;
    }

parse_minor_units-ok : (a : List ℕ) {z : ℤ} → parse_minor_units a ≡ ok z → Accepted a z
parse_minor_units-ok a {z} h = elim (Bool-cases (matches_canonical a)) [
  | inl yes' ↦
      Shape-Accepted a (matches_canonical-Shape a yes') (ground (arith, parse_minor_units_lem a))
  | inr no' ↦ absurd (ground (arith, parse_minor_units_lem a))
]

parse_currency-ok : (code : String) {c : Currency} → parse_currency code ≡ ok c → supported c ≡ true
unfolding parse_currency
parse_currency-ok code h = ground arith

pos_not_negative :
    (n : ℕ) (c : Currency) → is_negative (record { minor = pos n; currency = c }) ≡ false
pos_not_negative n c = ground arith

-- What `Parse` accepts, `String` prints back unchanged: there is one notation for each amount. The
-- amount is not negative, in int64, and in a supported currency.
pub to_string-parse :
    (amount : List ℕ) (code : String) {m : Money}
    → parse amount code ≡ ok m
    → (to_string m ≡ amount)
      × (is_negative m ≡ false)
      × (supported m.currency ≡ true)
      × InInt64 m.minor
to_string-parse amount code {m} h =
    let (c, pc, more) = >>=-ok (parse_currency code) _ (sym (parse_lem amount code) ∙ h) in
    let (z, pz, e) = >>=-ok (parse_minor_units amount) _ more in
    let a = parse_minor_units-ok amount pz in
    let same : m ≡ record { minor = pos a.minor; currency = c } = ground (arith, a.exact) in
    rw same (
      to_string-written a.minor c ∙ sym a.printed,
      pos_not_negative a.minor c,
      parse_currency-ok code pc,
      (a.fits, omega arith),
    )
