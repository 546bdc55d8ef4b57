-- ===== src/Money/Decimal/Digits.antt =====
-- Decimal digits: `FormatUint` and `ParseInt` as inverses, and the shape of the digits.
use wagering_wallet_service.Base.{
  some, sym, max_int64, ◌≢◌, lt→ltb, length, all, is_digit, ℕ, zero, suc, ◌+◌, ◌-◌, ◌*◌, ◌/◌, ◌%◌,
  ◌^◌, ◌≤◌, ◌<◌, ◌≡◌, refl, ap, ◌∙◌, true, ◌&&◌, List, [], ◌∷◌, ◌++◌, arith, dec_lt,
}
use native.Mathlib.Nat.{pow-suc}
use mathlib.Core.List.{append_assoc, append-nil}
use wagering_wallet_service.Money.Decimal.{parse_int, digits, value_of}

pub digits_one : (f n : ℕ) → n < 10 → digits (suc f) n ≡ (b'0' + n) ∷ []
unfolding digits
digits_one f n h = rw (lt→ltb n 10 h)

pub digits_more : (f n : ℕ) → 10 ≤ n → digits (suc f) n ≡ digits f (n / 10) ++ (b'0' + n % 10) ∷ []
unfolding digits
digits_more f n h = ground arith

all-append : (xs ys : List ℕ) → all is_digit (xs ++ ys) ≡ (all is_digit xs && all is_digit ys)
all-append [] ys = refl
all-append (x ∷ xs) ys = ground (arith, all-append xs ys)

pub length-snoc : (xs : List ℕ) (y : ℕ) → length (xs ++ y ∷ []) ≡ length xs + 1
length-snoc [] y = omega arith
length-snoc (x ∷ xs) y = omega (arith, length-snoc xs y)

value_of-snoc :
    (acc : ℕ) (xs : List ℕ) (y : ℕ)
    → value_of acc (xs ++ y ∷ []) ≡ value_of acc xs * 10 + (y - b'0')
unfolding value_of
value_of-snoc acc [] y = refl
value_of-snoc acc (x ∷ xs) y = value_of-snoc (acc * 10 + (x - b'0')) xs y

pub digits-all : (f n : ℕ) → all is_digit (digits f n) ≡ true
digits-all zero n = unfold digits in refl
digits-all (suc f) n = elim (dec_lt n 10) [
  | yes small ↦ rw (digits_one f n small) (ground arith)
  | no large ↦
      rw (digits_more f n (omega arith), all-append) (ground (arith, digits-all f (n / 10)))
]

pub value_of-digits : (f n : ℕ) → n < 10 ^ f → value_of 0 (digits f n) ≡ n
value_of-digits zero n h = unfold digits value_of in omega arith
value_of-digits (suc f) n h = elim (dec_lt n 10) [
  | yes small ↦ rw (digits_one f n small) (unfold value_of in omega arith)
  | no large ↦
      let below : n / 10 < 10 ^ f = omega (arith, pow-suc 10 f) in
      rw (digits_more f n (omega arith), value_of-snoc, value_of-digits f (n / 10) below)
        (omega arith)
]

pub length-digits : (f k n : ℕ) → n < 10 ^ suc k → length (digits f n) ≤ suc k
length-digits zero k n h = unfold digits in omega arith
length-digits (suc f) zero n h = rw (digits_one f n (omega arith)) (omega arith)
length-digits (suc f) (suc k) n h = elim (dec_lt n 10) [
  | yes small ↦ rw (digits_one f n small) (omega arith)
  | no large ↦
      let shorter : length (digits f (n / 10)) ≤ suc k =
        length-digits f k (n / 10) (omega (arith, pow-suc 10 (suc k))) in
      rw (digits_more f n (omega arith), length-snoc) (omega arith)
]

-- A positive number below `10 ^ f` is written with a first digit that is not 0.
pub digits_pos :
    (f n : ℕ)
    → 0 < n
    → n < 10 ^ f
    → (c : ℕ) × (rest : List ℕ) × (digits f n ≡ c ∷ rest) × (b'1' ≤ c) × (c ≤ b'9')
digits_pos zero n p h = absurd (omega arith)
digits_pos (suc f) n p h = elim (dec_lt n 10) [
  | yes small ↦ (b'0' + n, [], digits_one f n small, omega arith, omega arith)
  | no large ↦
      let (c, rest, e, lo, hi) =
        digits_pos f (n / 10) (omega arith) (omega (arith, pow-suc 10 f)) in
      (
        c,
        rest ++ (b'0' + n % 10) ∷ [],
        digits_more f n (omega arith) ∙ ap (λ (l : List ℕ). l ++ (b'0' + n % 10) ∷ []) e,
        lo,
        hi,
      )
]

digits-snoc :
    (f acc x : ℕ)
    → 0 < acc
    → is_digit x ≡ true
    → digits (suc f) (acc * 10 + (x - b'0')) ≡ digits f acc ++ x ∷ []
digits-snoc f acc x p h =
    let lo : b'0' ≤ x = ground arith in
    let hi : x ≤ b'9' = ground arith in
    let high : (acc * 10 + (x - b'0')) / 10 ≡ acc = omega arith in
    let low : b'0' + (acc * 10 + (x - b'0')) % 10 ≡ x = omega arith in
    rw (digits_more f (acc * 10 + (x - b'0')) (omega arith), high, low)

-- Reading digits after `acc` and printing the value prints `acc` and then the same digits.
pub digits-value_of :
    (f g acc : ℕ) (xs : List ℕ)
    → g ≡ f + length xs
    → 0 < acc
    → all is_digit xs ≡ true
    → digits g (value_of acc xs) ≡ digits f acc ++ xs
unfolding value_of
digits-value_of f g acc [] e p h = rw append-nil (ap (λ (k : ℕ). digits k acc) (omega arith))
digits-value_of f g acc (x ∷ xs) e p h =
    digits-value_of (suc f) g (acc * 10 + (x - b'0')) xs (omega arith) (omega arith) (ground arith)
    ∙ ap (λ (l : List ℕ). l ++ xs) (digits-snoc f acc x p (ground arith))
    ∙ append_assoc (digits f acc) (x ∷ []) xs

pub parse_int-digital :
    (l : List ℕ)
    → l ≢ []
    → all is_digit l ≡ true
    → value_of 0 l ≤ max_int64
    → parse_int l ≡ some (value_of 0 l)
unfolding parse_int
parse_int-digital [] n h b = absurd (n refl)
parse_int-digital (c ∷ rest) n h b = ground arith

pub digits-ne-nil : (f n : ℕ) → digits (suc f) n ≢ []
digits-ne-nil f n e = elim (dec_lt n 10) [
  | yes small ↦ cc (digits_one f n small)
  | no large ↦ absurd (
      omega (
        arith,
        ap (length {A = ℕ}) (sym (digits_more f n (omega arith)) ∙ e),
        length-snoc (digits f (n / 10)) (b'0' + n % 10),
      ))
]
