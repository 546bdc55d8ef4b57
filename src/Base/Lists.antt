-- ===== src/Base/Lists.antt =====
-- Tables as lists of rows: the searches and updates that SQL statements make.
use Prim.Native.Nat.{ℕ, zero, suc}
use mathlib.Core.Path.{subst}
use mathlib.Core.Path.{◌≡◌, refl}
use mathlib.Core.Logic.{inl, inr}
use mathlib.Core.Bool.{Bool, true, false, ◌||◌}
use mathlib.Core.Option.{Option, none, some}
use mathlib.Core.List.{List, [], ◌∷◌}
use native.Mathlib.Omega.{arith}
use wagering_wallet_service.Base.Tests.{if◌then◌else◌, Bool-cases}

module _ {ℓ} {A : Type ℓ} where
  -- The first row that satisfies the condition.
  abbrev pub find : (A → Bool) → List A → Option A
  find p [] = none
  find p (x ∷ xs) = if p x then some x else find p xs

  abbrev pub any : (A → Bool) → List A → Bool
  any p [] = false
  any p (x ∷ xs) = p x || any p xs

  -- The rows that satisfy the condition, in order.
  abbrev pub select : (A → Bool) → List A → List A
  select p [] = []
  select p (x ∷ xs) = if p x then x ∷ select p xs else select p xs

  -- The rows after an update of those that satisfy the condition.
  abbrev pub update_where : (A → Bool) → (A → A) → List A → List A
  update_where p f [] = []
  update_where p f (x ∷ xs) = (if p x then f x else x) ∷ update_where p f xs

  abbrev pub count_where : (A → Bool) → List A → ℕ
  count_where p [] = 0
  count_where p (x ∷ xs) = if p x then suc (count_where p xs) else count_where p xs

  abbrev pub take : ℕ → List A → List A
  take zero xs = []
  take (suc n) [] = []
  take (suc n) (x ∷ xs) = x ∷ take n xs

  -- Every element satisfies the predicate.
  abbrev pub All {κ} : (A → Type κ) → List A → Type κ
  All P [] = Unit
  All P (x ∷ xs) = P x × All P xs

  pub find-some-test : (p : A → Bool) (xs : List A) {x : A} → find p xs ≡ some x → p x ≡ true
  find-some-test p [] h = ground arith
  find-some-test p (y ∷ xs) h = elim (Bool-cases (p y)) [
    | inl yes_here ↦ ground (arith, h)
    | inr not_here ↦ find-some-test p xs (ground (arith, h))
  ]

  pub find-All {κ} :
      (P : A → Type κ) (p : A → Bool) (xs : List A) {x : A} → All P xs → find p xs ≡ some x → P x
  find-All P p [] all_P h = absurd (ground (arith, h))
  find-All P p (y ∷ xs) (here, there) h = elim (Bool-cases (p y)) [
    | inl yes_here ↦ subst P (ground (arith, h)) here
    | inr not_here ↦ find-All P p xs there (ground (arith, h))
  ]

  pub update_where-All {κ} :
      (P : A → Type κ) (p : A → Bool) (f : A → A) (xs : List A)
      → All P xs
      → ((x : A) → p x ≡ true → P x → P (f x))
      → All P (update_where p f xs)
  update_where-All P p f [] all_P keeps = tt
  update_where-All P p f (x ∷ xs) (here, there) keeps = (
    elim (Bool-cases (p x)) [
      | inl changed ↦ rw changed (keeps x changed here)
      | inr kept ↦ rw kept here
    ],
    update_where-All P p f xs there keeps,
  )

  -- A search by a test that the update does not touch finds the updated row.
  pub find-update_where :
      (q p : A → Bool) (f : A → A) (xs : List A)
      → ((x : A) → q (f x) ≡ q x)
      → find q (update_where p f xs)
        ≡ elim (find q xs) [ none ↦ none | some x ↦ some (if p x then f x else x) ]
  find-update_where q p f [] keeps = refl
  find-update_where q p f (x ∷ xs) keeps = elim (Bool-cases (p x)) [
    | inl changed ↦ elim (Bool-cases (q x)) [
      | inl found ↦ rw (changed, keeps x, found) (rw changed refl)
      | inr other ↦ rw (changed, keeps x, other) (find-update_where q p f xs keeps)
    ]
    | inr kept ↦ elim (Bool-cases (q x)) [
      | inl found ↦ rw (kept, found) (rw kept refl)
      | inr other ↦ rw (kept, other) (find-update_where q p f xs keeps)
    ]
  ]

  pub any-find-none : (p : A → Bool) (xs : List A) → any p xs ≡ false → find p xs ≡ none
  any-find-none p [] h = refl
  any-find-none p (x ∷ xs) h = ground (arith, any-find-none p xs)

  pub find-none-any : (p : A → Bool) (xs : List A) → find p xs ≡ none → any p xs ≡ false
  find-none-any p [] h = refl
  find-none-any p (x ∷ xs) h = ground (arith, find-none-any p xs)
