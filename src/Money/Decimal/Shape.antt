-- ===== src/Money/Decimal/Shape.antt =====
-- The shape of a canonical amount: digits, a point and two digits; and what the parser does to it.
use wagering_wallet_service.Base.{
  ◌==◌, false, Bool, ap, Bool-cases, length, all, is_digit, ℕ, zero, suc, ◌≤◌, ◌≡◌, refl, ◌⊎◌, inl,
  inr, true, ◌&&◌, List, [], ◌∷◌, ◌++◌, arith,
}
use wagering_wallet_service.Money.Decimal.{matches_point, matches_digits, matches_canonical, cut}

-- The amounts with these whole part and cents.
abbrev pub written : List ℕ → ℕ → ℕ → List ℕ
written whole d e = whole ++ (b'.' ∷ (d ∷ e ∷ []))

pub cut-written :
    (whole : List ℕ) (d e : ℕ)
    → all is_digit whole ≡ true
    → cut (written whole d e) ≡ (whole, d ∷ e ∷ [])
unfolding cut
cut-written [] d e h = refl
cut-written (x ∷ whole) d e h = ground (arith, cut-written whole d e)

pub matches_digits-written :
    (n : ℕ) (whole : List ℕ) (d e : ℕ)
    → all is_digit whole ≡ true
    → length whole ≤ n
    → matches_digits n (written whole d e) ≡ (is_digit d && is_digit e)
unfolding matches_digits
matches_digits-written zero [] d e h l = refl
matches_digits-written (suc n) [] d e h l = refl
matches_digits-written zero (x ∷ whole) d e h l = absurd (omega arith)
matches_digits-written (suc n) (x ∷ whole) d e h l =
    ground (arith, matches_digits-written n whole d e)

-- The two ways in which the expression accepts a whole part.
abbrev pub IsWhole : List ℕ → Type 0
IsWhole [] = ⊥
IsWhole (c ∷ rest) =
    ((c ≡ b'0') × (rest ≡ []))
    ⊎ ((b'1' ≤ c) × (c ≤ b'9') × (all is_digit rest ≡ true) × (length rest ≤ 16))

pub matches_canonical-written :
    (whole : List ℕ) (d e : ℕ)
    → IsWhole whole
    → is_digit d ≡ true
    → is_digit e ≡ true
    → matches_canonical (written whole d e) ≡ true
unfolding matches_canonical
matches_canonical-written [] d e w hd he = absurd w
matches_canonical-written (c ∷ rest) d e (inl (zero_digit, nothing)) hd he =
    rw (zero_digit, nothing, hd, he) refl
matches_canonical-written (c ∷ rest) d e (inr (lo, hi, h, l)) hd he =
    ground (arith, matches_digits-written 16 rest d e h l)

-- Every text that the expression accepts has this shape.
pub record Shape (amount : List ℕ) : Type 0 where
  pub whole : List ℕ
  pub tenths : ℕ
  pub hundredths : ℕ
  pub exact : amount ≡ written whole tenths hundredths
  pub is_whole : IsWhole whole
  pub tenths_digit : is_digit tenths ≡ true
  pub hundredths_digit : is_digit hundredths ≡ true

record Tail (n : ℕ) (text : List ℕ) : Type 0 where
  run : List ℕ
  tenths : ℕ
  hundredths : ℕ
  exact : text ≡ written run tenths hundredths
  digital : all is_digit run ≡ true
  short : length run ≤ n
  tenths_digit : is_digit tenths ≡ true
  hundredths_digit : is_digit hundredths ≡ true

Tail-of_point : (n : ℕ) (text : List ℕ) → matches_point text ≡ true → Tail n text
Tail-of_point n [] h = cc
Tail-of_point n (c ∷ []) h = cc (and-false (c == b'.'))
  where
    and-false : (b : Bool) → (b && false) ≡ false
    and-false true = refl
    and-false false = refl
Tail-of_point n (c ∷ d ∷ []) h = absurd (ground arith)
Tail-of_point n (c ∷ d ∷ e ∷ x ∷ rest) h = absurd (ground arith)
Tail-of_point n (c ∷ d ∷ e ∷ []) h = record {
  run = [];
  tenths = d;
  hundredths = e;
  exact = ground arith;
  digital = refl;
  short = omega arith;
  tenths_digit = ground arith;
  hundredths_digit = ground arith;
}

Tail-cons : (n c : ℕ) (text : List ℕ) → is_digit c ≡ true → Tail n text → Tail (suc n) (c ∷ text)
Tail-cons n c text h t = record {
  run = c ∷ t.run;
  tenths = t.tenths;
  hundredths = t.hundredths;
  exact = ap (λ (l : List ℕ). c ∷ l) t.exact;
  digital = rw (h, t.digital) refl;
  short = omega (arith, t.short);
  tenths_digit = t.tenths_digit;
  hundredths_digit = t.hundredths_digit;
}

Tail-of_digits : (n : ℕ) (text : List ℕ) → matches_digits n text ≡ true → Tail n text
unfolding matches_digits
Tail-of_digits n [] h = cc
Tail-of_digits zero (c ∷ text) h = Tail-of_point zero (c ∷ text) h
Tail-of_digits (suc n) (c ∷ text) h = elim (Bool-cases (is_digit c)) [
  | inl digit ↦ Tail-cons n c text digit (Tail-of_digits n text (ground arith))
  | inr other ↦ Tail-of_point (suc n) (c ∷ text) (ground arith)
]

empty_of_length : (l : List ℕ) → length l ≤ 0 → l ≡ []
empty_of_length [] h = refl
empty_of_length (x ∷ l) h = absurd (omega arith)

pub matches_canonical-Shape : (amount : List ℕ) → matches_canonical amount ≡ true → Shape amount
unfolding matches_canonical
matches_canonical-Shape [] h = cc
matches_canonical-Shape (c ∷ rest) h = elim (Bool-cases (c == b'0')) [
  | inl zero_digit ↦
      let t = Tail-of_point 0 rest (ground arith) in
      record {
        whole = c ∷ t.run;
        tenths = t.tenths;
        hundredths = t.hundredths;
        exact = ap (λ (l : List ℕ). c ∷ l) t.exact;
        is_whole = inl (ground arith, empty_of_length t.run t.short);
        tenths_digit = t.tenths_digit;
        hundredths_digit = t.hundredths_digit;
      }
  | inr other ↦
      let t = Tail-of_digits 16 rest (ground arith) in
      record {
        whole = c ∷ t.run;
        tenths = t.tenths;
        hundredths = t.hundredths;
        exact = ap (λ (l : List ℕ). c ∷ l) t.exact;
        is_whole = inr (ground arith, ground arith, t.digital, t.short);
        tenths_digit = t.tenths_digit;
        hundredths_digit = t.hundredths_digit;
      }
]
