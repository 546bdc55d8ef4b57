-- ===== src/Base/Errors.antt =====
-- Errors as values. Go's sentinel errors, one type for each package that declares them, and the
-- result of a fallible call: `(value, nil)` or `(zero value, err)`.
use mathlib.Core.Path.{◌≡◌, refl}
use mathlib.Core.Logic.{◌⊎◌, inl, inr}
use mathlib.Core.Bool.{Bool, true, false}
use Prim.Native.Nat.{ℕ}

-- internal/domain/money/money.go
pub data MoneyError : Type 0 where
  invalid_amount invalid_currency currency_mismatch overflow negative : MoneyError

-- internal/domain/wallet/wallet.go, errors.go
pub data WalletError : Type 0 where
  missing_identifier missing_timestamp invalid_amount negative_balance : WalletError
  insufficient_funds invalid_direction invalid_wallet_version : WalletError
  inconsistent_ledger_entry not_found already_exists version_changed : WalletError

-- internal/domain/wagering/transaction.go
pub data WageringError : Type 0 where
  missing_identifier missing_timestamp missing_field invalid_kind invalid_origin : WageringError
  invalid_status invalid_failure_code invalid_amount invalid_payload_hash : WageringError
  reference_required reference_forbidden transition_not_allowed : WageringError
  invalid_snapshot not_found unexpected_outcome : WageringError

-- internal/domain/messaging/outbox.go, inbox.go, and internal/domain/event/event.go
pub data MessagingError : Type 0 where
  missing_identifier missing_timestamp missing_field invalid_outcome payload_mismatch :
      MessagingError

-- internal/domain/repositories/errors.go. `aborted` is an `ErrTransient` that also wraps
-- `errRetryable` of internal/infrastructure/postgres/repositories/errors_sql.go.
pub data RepositoryError : Type 0 where
  transient aborted lock_timeout commit_outcome_unknown recovered_panic : RepositoryError

pub data Failure : Type 0 where
  of_money : MoneyError → Failure
  of_wallet : WalletError → Failure
  of_wagering : WageringError → Failure
  of_event of_messaging : MessagingError → Failure
  of_repository : RepositoryError → Failure
  idempotency_conflict external_id_conflict wallet_conflict : ℕ → Failure
  no_pending_work cancelled deadline_exceeded : Failure
  -- A driver error that `Classify` passes on, such as a violated constraint.
  database : Failure
  -- `*validation.Error`
  invalid_input : Failure

-- What a Go call that returns `(A, error)` answers: the zero value beside an error is dropped.
pub data Result {ℓ} (A : Type ℓ) : Type ℓ where
  err : Failure → Result A
  ok : A → Result A

-- `if err != nil { return err }`, then what follows.
infixl 5 ◌>>=◌ ◌>>◌
abbrev pub ◌>>=◌ {ℓ κ} : {A : Type ℓ} {B : Type κ} → Result A → (A → Result B) → Result B
err failure >>= next = err failure
ok answer >>= next = next answer

abbrev pub ◌>>◌ {ℓ} : {B : Type ℓ} → Result (Unit {0}) → Result B → Result B
checks >> next = checks >>= λ _. next

-- `if test { return err }`
abbrev pub refuse_if : Bool → Failure → Result (Unit {0})
refuse_if true e = err e
refuse_if false e = ok tt

-- What follows a guard that let the call through.
pub refuse_if-ok {ℓ} :
    {A : Type ℓ} (b : Bool) (e : Failure) (m : Result A) {a : A}
    → (refuse_if b e >> m) ≡ ok a
    → (b ≡ false) × (m ≡ ok a)
refuse_if-ok true e m h = cc
refuse_if-ok false e m h = (refl, h)

-- Both steps of a successful sequence succeeded.
pub >>=-ok {κ ℓ} :
    {A : Type κ} {B : Type ℓ} (start : Result A) (next : A → Result B) {last : B}
    → (start >>= next) ≡ ok last
    → (middle : A) × (start ≡ ok middle) × (next middle ≡ ok last)
>>=-ok (err failure) next stopped = cc
>>=-ok (ok middle) next done = (middle, refl, done)

pub Result-cases {ℓ} :
    {A : Type ℓ} (m : Result A) → ((a : A) × (m ≡ ok a)) ⊎ ((e : Failure) × (m ≡ err e))
Result-cases (ok a) = inl (a, refl)
Result-cases (err e) = inr (e, refl)

-- A method that checks first and assigns last: the object after the call is `changed` when every
-- check passed, and `kept` when one failed.
abbrev pub after_checks {ℓ} : {A : Type ℓ} → Result (Unit {0}) → A → A → Result (Unit {0}) × A
after_checks (ok _) kept changed = (ok tt, changed)
after_checks (err e) kept changed = (err e, kept)
