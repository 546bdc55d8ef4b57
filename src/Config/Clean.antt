-- ===== src/Config/Clean.antt =====
-- What a value satisfies that was read with no problem.
use wagering_wallet_service.Base.{
  Bool-cases, ℤ, pos, ◌≤ℤ◌, ◌<ℤ◌, ltb_ℤ, eqb_ℤ, ℕ, String, ◌≡◌, refl, ◌≢◌, inl, inr, Bool, true,
  false, not, Option, none, some, List, [], ◌∷◌, ◌++◌, arith,
}
use wagering_wallet_service.Http.Cursor.{parse_signed}
use wagering_wallet_service.Config.Variables.{
  is_read, ◌>>=◌, ◌>>◌, return, reject, reject_if, raw, no_text, is_one_of, is_absolute, parsed_or,
  text, one_of, link, dsn, count, number, duration, flag, Reader, Environment, Problem, Reason,
  is_required, must_be_one_of, must_be_absolute_url, must_be_dsn, must_be_positive, must_be_integer,
  must_not_be_negative, must_be_duration, must_be_boolean, parse_bool,
}

abbrev pub Positive : ℤ → Type 0
Positive n = pos 0 <ℤ n

abbrev pub NotNegative : ℤ → Type 0
NotNegative n = pos 0 ≤ℤ n

abbrev pub IsText : List ℕ → Type 0
IsText value = no_text value ≡ false

-- A call after which there is no problem found none before it, and answers what satisfies `P`.
pub record Clean {ℓ} {A : Type ℓ} (m : Reader A) (P : A → Type 0) : Type ℓ where
  pub none_before : (problems : List Problem) → (m problems).1 ≡ [] → problems ≡ []
  pub answers : (problems : List Problem) → (m problems).1 ≡ [] → P (m problems).0

pub bind-Clean {ℓ κ} :
    {A : Type ℓ} {B : Type κ} {P : A → Type 0} {Q : B → Type 0} {m : Reader A} {f : A → Reader B}
    → Clean m P
    → ((a : A) → Clean (f a) (λ b. P a → Q b))
    → Clean (m >>= f) Q
unfolding ◌>>=◌
bind-Clean {m = m} {f = f} first rest = record {
  none_before =
      λ problems h. first.none_before problems ((rest (m problems).0).none_before (m problems).1 h);
  answers = λ problems h.
      (rest (m problems).0).answers (m problems).1 h
        (first.answers problems ((rest (m problems).0).none_before (m problems).1 h));
}

pub return-Clean {ℓ} : {A : Type ℓ} {P : A → Type 0} (a : A) → P a → Clean (return a) P
unfolding return
return-Clean a p = record { none_before = λ problems h. h; answers = λ problems h. p }

pub map-Clean {ℓ} :
    {A : Type ℓ} {P Q : A → Type 0} {m : Reader A} → Clean m P → ((a : A) → P a → Q a) → Clean m Q
map-Clean {m = m} given implies = record {
  none_before = given.none_before;
  answers = λ problems h. implies (m problems).0 (given.answers problems h);
}

append-some {ℓ} : {A : Type ℓ} (xs : List A) (x : A) → xs ++ (x ∷ []) ≢ []
append-some [] x = λ h. absurd (ground (arith, h))
append-some (y ∷ ys) x = λ h. absurd (ground (arith, h))

reject-Clean : (key : String) (reason : Reason) → Clean (reject key reason) (λ _. ⊥)
unfolding reject
reject-Clean key reason = record {
  none_before = λ problems h. absurd (append-some problems _ h);
  answers = λ problems h. append-some problems _ h;
}

-- A refusal is never clean.
refused-Clean {ℓ} :
    {A : Type ℓ} {P : A → Type 0} (key : String) (reason : Reason) (a : A)
    → Clean (reject key reason >> return a) P
refused-Clean key reason a =
    bind-Clean (reject-Clean key reason) (λ _. return-Clean a (λ f. absurd f))

pub reject_if-Clean :
    (test : Bool) (key : String) (reason : Reason)
    → Clean (reject_if test key reason) (λ _. test ≡ false)
unfolding reject_if
reject_if-Clean true key reason = record {
  none_before = (reject-Clean key reason).none_before;
  answers = λ problems h. absurd ((reject-Clean key reason).answers problems h);
}
reject_if-Clean false key reason = return-Clean tt refl

pub text-Clean :
    (env : Environment) (key : String) (fallback : List ℕ) → Clean (text env key fallback) IsText
unfolding text
text-Clean env key fallback =
    bind-Clean (reject_if-Clean (no_text (raw env key fallback)) key is_required)
      (λ _. return-Clean (raw env key fallback) (λ h. h))

pub one_of-Clean :
    (env : Environment) (key : String) (fallback : List ℕ) (allowed : List String)
    → Clean (one_of env key fallback allowed) (λ value. is_one_of allowed value ≡ true)
unfolding one_of
one_of-Clean env key fallback allowed = bind-Clean (text-Clean env key fallback) (λ value.
    elim (Bool-cases (is_one_of allowed value)) [
      | inl known ↦ rw known (return-Clean value (λ _. known))
      | inr unknown ↦ rw unknown (refused-Clean key (must_be_one_of allowed) fallback)
    ])

abbrev pub IsLink : Environment → List ℕ → Type 0
IsLink env value = is_absolute (env.parse_url value) ≡ true

pub link-Clean :
    (env : Environment) (key : String) (fallback : List ℕ)
    → Clean (link env key fallback) (IsLink env)
unfolding link
link-Clean env key fallback = bind-Clean (text-Clean env key fallback) (λ value.
    elim (Bool-cases (no_text value)) [
      | inl nothing ↦ rw nothing (return-Clean value (λ h. absurd (ground (arith, h, nothing))))
      | inr something ↦ rw something (
          bind-Clean (reject_if-Clean _ key must_be_absolute_url)
            (λ _. return-Clean value (λ h _. ground (arith, h))))
    ])

abbrev pub IsDsn : Environment → List ℕ → Type 0
IsDsn env value = is_read (env.parse_url value) ≡ true

pub dsn-Clean :
    (env : Environment) (key : String) (fallback : List ℕ)
    → Clean (dsn env key fallback) (IsDsn env)
unfolding dsn
dsn-Clean env key fallback = bind-Clean (text-Clean env key fallback) (λ value.
    elim (Bool-cases (no_text value)) [
      | inl nothing ↦ rw nothing (return-Clean value (λ h. absurd (ground (arith, h, nothing))))
      | inr something ↦ rw something (
          bind-Clean (reject_if-Clean _ key must_be_dsn)
            (λ _. return-Clean value (λ h _. ground (arith, h))))
    ])

pub parsed_or-Clean {ℓ} :
    {A : Type ℓ} (P : A → Type 0) (key : String) (fallback : A) (value : Option A) (unread : Reason)
    (refused : A → Bool) (reason : Reason)
    → ((a : A) → refused a ≡ false → P a)
    → Clean (parsed_or key fallback value unread refused reason) P
parsed_or-Clean P key fallback none unread refused reason holds = refused-Clean key unread fallback
parsed_or-Clean P key fallback (some value) unread refused reason holds =
    elim (Bool-cases (refused value)) [
      | inl turned ↦ rw turned (refused-Clean key reason fallback)
      | inr kept ↦ rw kept (return-Clean value (holds value kept))
    ]

pub count-Clean :
    (env : Environment) (key : String) (fallback : ℤ)
    → NotNegative fallback
    → Clean (count env key fallback) NotNegative
unfolding count
count-Clean env key fallback h = elim (Bool-cases (no_text (raw env key []))) [
  | inl nothing ↦ rw nothing (return-Clean fallback h)
  | inr something ↦ rw something (
      parsed_or-Clean NotNegative key fallback (parse_signed (raw env key [])) must_be_integer
        (λ n. ltb_ℤ n (pos 0)) must_not_be_negative (λ n kept. ground (arith, kept)))
]

pub number-Clean :
    (env : Environment) (key : String) (fallback : ℤ)
    → NotNegative fallback
    → Clean (number env key fallback) Positive
unfolding number
number-Clean env key fallback h = bind-Clean (count-Clean env key fallback h) (λ value.
    bind-Clean (reject_if-Clean (eqb_ℤ value (pos 0)) key must_be_positive)
      (λ _. return-Clean value (λ apart kept. ground (arith, apart, kept))))

pub duration-Clean :
    (env : Environment) (key : String) (fallback : ℤ)
    → Positive fallback
    → Clean (duration env key fallback) Positive
unfolding duration
duration-Clean env key fallback h = elim (Bool-cases (no_text (raw env key []))) [
  | inl nothing ↦ rw nothing (return-Clean fallback h)
  | inr something ↦ rw something (
      parsed_or-Clean Positive key fallback (env.parse_duration (raw env key [])) must_be_duration
        (λ d. not (ltb_ℤ (pos 0) d)) must_be_positive (λ d kept. ground (arith, kept)))
]

pub flag-Clean :
    (env : Environment) (key : String) (fallback : Bool)
    → Clean (flag env key fallback) (λ _. Unit {0})
unfolding flag
flag-Clean env key fallback = elim (Bool-cases (no_text (raw env key []))) [
  | inl nothing ↦ rw nothing (return-Clean fallback tt)
  | inr something ↦ rw something (
      parsed_or-Clean _ key fallback (parse_bool (raw env key [])) must_be_boolean (λ b. false)
        must_be_boolean (λ b kept. tt))
]
