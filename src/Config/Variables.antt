-- ===== src/Config/Variables.antt =====
-- The reader of the environment, `reader` of internal/infrastructure/config/config.go: each call
-- answers a value and may append to the problems. A text is the list of its code points. What the
-- process finds in its environment, the parsers of package url and of durations, the host's name and
-- the process id are parameters.
use wagering_wallet_service.Base.{
  if◌then◌else◌, any, ℤ, pos, ltb_ℤ, eqb_ℤ, codes, ℕ, String, Bool, true, false, not, ◌&&◌, Option,
  none, some, List, [], ◌∷◌, ◌++◌,
}
use wagering_wallet_service.Http.Access.{trim_left, trim_right, codes_eq}
use wagering_wallet_service.Http.Cursor.{format_int, parse_signed}

pub record ParsedUrl : Type 0 where
  pub scheme : List ℕ
  pub host : List ℕ

pub record Environment : Type 0 where
  pub lookup_env : String → Option (List ℕ)
  pub parse_url : List ℕ → Option ParsedUrl
  pub parse_duration : List ℕ → Option ℤ
  pub hostname : Option (List ℕ)
  pub pid : ℤ

-- The sums that a rejected size of the pool is reported with.
pub record ConnectionBudget : Type 0 where
  pub http_writes : ℤ
  pub consumer : ℤ
  pub jobs : ℤ
  pub reserved : ℤ
  pub pool_size : ℤ

-- What the texts of the problems say, with what is printed into them.
pub data Reason : Type 0 where
  is_required must_be_absolute_url must_be_dsn must_be_positive must_be_integer : Reason
  must_not_be_negative must_be_duration must_be_boolean : Reason
  must_be_one_of : List String → Reason
  must_not_exceed must_be_shorter_than must_not_be_shorter_than must_be_longer_than :
      String → Reason
  is_smaller_than : ConnectionBudget → Reason

pub record Problem : Type 0 where
  pub key : String
  pub reason : Reason

abbrev pub Reader {ℓ} : Type ℓ → Type ℓ
Reader A = List Problem → A × List Problem

infixl 5 ◌>>=◌ ◌>>◌
unfoldable pub ◌>>=◌ {ℓ κ} : {A : Type ℓ} {B : Type κ} → Reader A → (A → Reader B) → Reader B
◌>>=◌ m f problems = f (m problems).0 (m problems).1

abbrev pub ◌>>◌ {ℓ} : {B : Type ℓ} → Reader (Unit {0}) → Reader B → Reader B
m >> k = m >>= λ _. k

unfoldable pub return {ℓ} : {A : Type ℓ} → A → Reader A
return a problems = (a, problems)

-- `reject`
unfoldable pub reject : String → Reason → Reader (Unit {0})
reject key reason problems = (tt, problems ++ (record { key = key; reason = reason } ∷ []))

-- `if test { r.reject(key, reason) }`
unfoldable pub reject_if : Bool → String → Reason → Reader (Unit {0})
unfolding reject return
reject_if test key reason = if test then reject key reason else return tt

abbrev pub no_text : List ℕ → Bool
no_text [] = true
no_text (c ∷ cs) = false

-- `strings.TrimSpace`
unfoldable pub trim_space : List ℕ → List ℕ
unfolding trim_left trim_right
trim_space value = trim_right (trim_left value)

-- The texts that `strconv.ParseBool` accepts.
abbrev pub true_texts : List String
true_texts = "1" ∷ "t" ∷ "T" ∷ "TRUE" ∷ "true" ∷ "True" ∷ []

abbrev pub false_texts : List String
false_texts = "0" ∷ "f" ∷ "F" ∷ "FALSE" ∷ "false" ∷ "False" ∷ []

abbrev pub is_one_of : List String → List ℕ → Bool
is_one_of texts value = any (λ text. codes_eq value (codes text)) texts

-- `strconv.ParseBool`
unfoldable pub parse_bool : List ℕ → Option Bool
parse_bool value =
    if is_one_of true_texts value
    then some true
    else if is_one_of false_texts value
    then some false
    else none

abbrev pub is_absolute : Option ParsedUrl → Bool
is_absolute none = false
is_absolute (some parsed) = not (no_text parsed.scheme) && not (no_text parsed.host)

abbrev pub is_read {ℓ} : {A : Type ℓ} → Option A → Bool
is_read none = false
is_read (some a) = true

-- What `count` and `duration` make of a number: `refused` says which ones they turn away.
abbrev pub parsed_or {ℓ} :
    {A : Type ℓ} → String → A → Option A → Reason → (A → Bool) → Reason → Reader A
parsed_or key fallback none unread refused reason = reject key unread >> return fallback
parsed_or key fallback (some value) unread refused reason =
    if refused value then (reject key reason >> return fallback) else return value

module _ (env : Environment) where
  -- `raw`
  unfoldable pub raw : String → List ℕ → List ℕ
  unfolding trim_space
  raw key fallback = elim (env.lookup_env key) [
    | none ↦ fallback
    | some value ↦ if no_text (trim_space value) then fallback else trim_space value
  ]

  -- `text`
  unfoldable pub text : String → List ℕ → Reader (List ℕ)
  unfolding raw
  text key fallback =
      let value = raw key fallback in reject_if (no_text value) key is_required >> return value

  -- `oneOf`
  unfoldable pub one_of : String → List ℕ → List String → Reader (List ℕ)
  unfolding text
  one_of key fallback allowed = text key fallback >>= λ value.
      if is_one_of allowed value
      then return value
      else (reject key (must_be_one_of allowed) >> return fallback)

  -- `link`
  unfoldable pub link : String → List ℕ → Reader (List ℕ)
  unfolding text
  link key fallback = text key fallback >>= λ value.
      if no_text value
      then return value
      else (reject_if (not (is_absolute (env.parse_url value))) key must_be_absolute_url
          >> return value)

  -- `dsn`
  unfoldable pub dsn : String → List ℕ → Reader (List ℕ)
  unfolding text
  dsn key fallback = text key fallback >>= λ value.
      if no_text value
      then return value
      else (reject_if (not (is_read (env.parse_url value))) key must_be_dsn >> return value)

  -- `count`
  unfoldable pub count : String → ℤ → Reader ℤ
  unfolding raw parse_signed
  count key fallback =
      let value = raw key [] in
      if no_text value
      then return fallback
      else parsed_or key fallback (parse_signed value) must_be_integer (λ n. ltb_ℤ n (pos 0))
          must_not_be_negative

  -- `number`
  unfoldable pub number : String → ℤ → Reader ℤ
  unfolding count
  number key fallback = count key fallback >>= λ value.
      reject_if (eqb_ℤ value (pos 0)) key must_be_positive >> return value

  -- `duration`
  unfoldable pub duration : String → ℤ → Reader ℤ
  unfolding raw
  duration key fallback =
      let value = raw key [] in
      if no_text value
      then return fallback
      else parsed_or key fallback (env.parse_duration value) must_be_duration
          (λ d. not (ltb_ℤ (pos 0) d)) must_be_positive

  -- `flag`
  unfoldable pub flag : String → Bool → Reader Bool
  unfolding raw parse_bool
  flag key fallback =
      let value = raw key [] in
      if no_text value
      then return fallback
      else parsed_or key fallback (parse_bool value) must_be_boolean (λ b. false) must_be_boolean

  -- `defaultInstanceID`
  unfoldable pub default_instance_id : List ℕ
  unfolding format_int
  default_instance_id =
      elim env.hostname [
        | none ↦ codes "unknown-host"
        | some host ↦ if no_text host then codes "unknown-host" else host
      ]
      ++ (b'-' ∷ format_int env.pid)
