-- ===== src/Http/Cursor.antt =====
-- The cursor of the ledger's pages, `encodeCursor` and `decodeCursor` of
-- internal/infrastructure/http/handlers.go. Base64 is a parameter; a text is the list of its bytes.
use wagering_wallet_service.Base.{
  leb, ◌==◌, if◌then◌else◌, Option-cases, ℤ, pos, negsuc, ltb_ℤ, max_int64, ◌-ℤ◌, codes, all,
  is_digit, ℕ, ◌+◌, ◌^◌, ◌≤◌, ◌<◌, ◌≡◌, refl, inl, inr, true, false, ◌&&◌, Option, none, some, List,
  [], ◌∷◌, ◌++◌, arith,
}
use wagering_wallet_service.Money.Decimal.{digits, format_uint, value_of, parse_int}
use wagering_wallet_service.Money.Decimal.Digits.{
  digits-ne-nil, parse_int-digital, digits-all, value_of-digits,
}

-- `cursorPrefix`
abbrev pub cursor_prefix : List ℕ
cursor_prefix = codes "v1:"

-- `strconv.FormatInt(version, 10)`
unfoldable pub format_int : ℤ → List ℕ
unfolding format_uint
format_int (pos n) = format_uint n
format_int (negsuc n) = b'-' ∷ format_uint (n + 1)

-- The magnitude of a negative number, at most 2 ^ 63.
unfoldable pub parse_magnitude : List ℕ → Option ℤ
unfolding value_of
parse_magnitude [] = none
parse_magnitude (c ∷ rest) =
    let value = value_of 0 (c ∷ rest) in
    if all is_digit (c ∷ rest) && leb value (max_int64 + 1) then some (pos 0 -ℤ pos value) else none

abbrev pub as_int : Option ℕ → Option ℤ
as_int none = none
as_int (some n) = some (pos n)

-- `strconv.ParseInt(s, 10, 64)`, and `strconv.Atoi`, with a sign.
unfoldable pub parse_signed : List ℕ → Option ℤ
unfolding parse_int parse_magnitude
parse_signed [] = none
parse_signed (c ∷ rest) =
    if c == b'-'
    then parse_magnitude rest
    else if c == b'+'
    then as_int (parse_int rest)
    else as_int (parse_int (c ∷ rest))

-- `strings.CutPrefix`
unfoldable pub cut_prefix : List ℕ → List ℕ → Option (List ℕ)
cut_prefix [] s = some s
cut_prefix (p ∷ ps) [] = none
cut_prefix (p ∷ ps) (c ∷ cs) = let rest = cut_prefix ps cs in if p == c then rest else none

abbrev pub not_negative : ℤ → Option ℤ
not_negative version = if ltb_ℤ version (pos 0) then none else some version

abbrev pub then_try {ℓ κ} : {A : Type ℓ} {B : Type κ} → Option A → (A → Option B) → Option B
then_try none next = none
then_try (some a) next = next a

-- The version that the decoded bytes carry.
unfoldable pub version_in : List ℕ → Option ℤ
unfolding cut_prefix parse_signed
version_in decoded =
    then_try (cut_prefix cursor_prefix decoded)
      (λ value. then_try (parse_signed value) not_negative)

digital-signed : (l : List ℕ) → all is_digit l ≡ true → parse_signed l ≡ as_int (parse_int l)
unfolding parse_signed
digital-signed [] h = unfold parse_int in refl
digital-signed (c ∷ rest) h = ground arith

format_int-digits : (n : ℕ) → format_int (pos n) ≡ digits 20 n
unfolding format_int format_uint
format_int-digits n = refl

format-parse : (n : ℕ) → n ≤ max_int64 → parse_signed (format_int (pos n)) ≡ some (pos n)
format-parse n fits =
    let below : n < 10 ^ 20 = omega arith in
    rw
      (
        format_int-digits n,
        digital-signed (digits 20 n) (digits-all 20 n),
        parse_int-digital (digits 20 n) (digits-ne-nil 19 n) (digits-all 20 n)
            (omega (arith, value_of-digits 20 n below, fits)),
        value_of-digits 20 n below,
      )
      refl

module _ (base64 : List ℕ → List ℕ) (from_base64 : List ℕ → Option (List ℕ)) where
  -- `encodeCursor`
  unfoldable pub encode_cursor : ℤ → List ℕ
  unfolding format_int
  encode_cursor version = base64 (cursor_prefix ++ format_int version)

  -- `decodeCursor`
  unfoldable pub decode_cursor : List ℕ → Option ℤ
  unfolding version_in
  decode_cursor raw = then_try (from_base64 raw) version_in

  -- A version that is not negative is read back from the cursor that is made of it, when decoding
  -- undoes the encoding of base64.
  pub decode-encode :
      (n : ℕ)
      → n ≤ max_int64
      → ((bytes : List ℕ) → from_base64 (base64 bytes) ≡ some bytes)
      → decode_cursor (encode_cursor (pos n)) ≡ some (pos n)
  unfolding decode_cursor encode_cursor version_in cut_prefix
  decode-encode n fits undoes =
      rw (undoes (cursor_prefix ++ format_int (pos n)), format-parse n fits) (ground arith)

  -- No cursor that a client sends is read as a negative version.
  pub decode_cursor-bound :
      (raw : List ℕ) {version : ℤ}
      → decode_cursor raw ≡ some version
      → ltb_ℤ version (pos 0) ≡ false
  unfolding decode_cursor version_in
  decode_cursor-bound raw h = elim (Option-cases (from_base64 raw)) [
    | inl unread ↦ absurd (ground (arith, h, unread))
    | inr (bytes, read) ↦ elim (Option-cases (cut_prefix cursor_prefix bytes)) [
      | inl foreign ↦ absurd (ground (arith, h, read, foreign))
      | inr (value, cut) ↦ elim (Option-cases (parse_signed value)) [
        | inl unparsed ↦ absurd (ground (arith, h, read, cut, unparsed))
        | inr (number, parsed) ↦ ground (arith, h, read, cut, parsed)
      ]
    ]
  ]
