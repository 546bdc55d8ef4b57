-- ===== src/Store/UnitOfWork.antt =====
-- The transaction boundary: internal/infrastructure/postgres/unit_of_work.go, and the classification
-- of driver errors of repositories/errors_sql.go. What the driver answers at each attempt is an
-- argument. A panic of a body is not modelled.
pub mod Atomic
pub mod Attempts
pub mod Conflicts
use wagering_wallet_service.Base.{
  ◌==◌, if◌then◌else◌, RepositoryError, Failure, Result, of_repository, cancelled,
  deadline_exceeded, database, err, ok, before, ℕ, zero, suc, ◌+◌, ◌-◌, Bool, true, false, not,
  ◌||◌, Option, none, some,
}
use wagering_wallet_service.Store.{Session, Tx}

-- The codes of `*pgconn.PgError` that `Classify` tells apart.
pub data PgCode : Type 0 where
  serialization_failure deadlock_detected lock_not_available : PgCode
  query_canceled admin_shutdown crash_shutdown cannot_connect_now other_code : PgCode

-- An error of the driver: of the context or the connection, or an answer of the server.
pub data ClientError : Type 0 where
  context_canceled context_expired connection_lost : ClientError

pub data DriverError : Type 0 where
  of_client : ClientError → DriverError
  of_server : PgCode → DriverError

unfoldable pub classify_code : PgCode → Failure
classify_code serialization_failure = of_repository RepositoryError.aborted
classify_code deadlock_detected = of_repository RepositoryError.aborted
classify_code lock_not_available = of_repository RepositoryError.lock_timeout
classify_code other_code = database
classify_code _ = of_repository RepositoryError.transient

-- `Classify`
unfoldable pub classify : DriverError → Failure
unfolding classify_code
classify (of_client context_canceled) = cancelled
classify (of_client context_expired) = deadline_exceeded
classify (of_client connection_lost) = of_repository RepositoryError.transient
classify (of_server code) = classify_code code

-- `ClassifyCommit`
unfoldable pub classify_commit : DriverError → Failure
unfolding classify
classify_commit (of_server code) = classify (of_server code)
classify_commit (of_client _) = of_repository RepositoryError.commit_outcome_unknown

-- `Retryable`
abbrev pub is_retryable : Failure → Bool
is_retryable (of_repository RepositoryError.aborted) = true
is_retryable _ = false

-- What happens at one attempt: to `BeginTx`, to `applyTimeouts`, to the statements of the body, to
-- `Commit`, and to the pause after it. A statement that fails ends the body: the first one, or one
-- after it. A commit that fails without an answer of the server may have been applied.
pub data StatementFate : Type 0 where
  all_answered : StatementFate
  first_failed later_failed : DriverError → StatementFate

pub data CommitFate : Type 0 where
  committed : CommitFate
  refused : PgCode → CommitFate
  unanswered : ClientError → Bool → CommitFate

pub record Fate : Type 0 where
  pub begin : Option DriverError
  pub timeouts : Option DriverError
  pub statement : StatementFate
  pub commit : CommitFate
  pub interrupted : Option Failure

-- An outcome, the session that the database is left in, and how often the body was applied to it.
pub record Outcome {ℓ} (A : Type ℓ) : Type ℓ where
  pub answer : Result A
  pub session : Session
  pub applied : ℕ

abbrev pub rolled_back {ℓ} : {A : Type ℓ} → Failure → Session → Outcome A
rolled_back failure s = record { answer = err failure; session = s; applied = 0 }

-- `Commit` of what the body did.
unfoldable pub commit_with {ℓ} : {A : Type ℓ} → CommitFate → A → Session → Session → Outcome A
unfolding classify_commit
commit_with committed a before after = record { answer = ok a; session = after; applied = 1 }
commit_with (refused code) a before after = rolled_back (classify_commit (of_server code)) before
commit_with (unanswered e true) a before after = record {
  answer = err (classify_commit (of_client e));
  session = after;
  applied = 1;
}
commit_with (unanswered e false) a before after = rolled_back (classify_commit (of_client e)) before

-- `fn`, then `Commit`.
unfoldable pub run_body {ℓ} : {A : Type ℓ} → StatementFate → CommitFate → Tx A → Session → Outcome A
unfolding commit_with classify
run_body (first_failed e) commit body s = rolled_back (classify e) s
run_body (later_failed e) commit body s = rolled_back (classify e) s
run_body all_answered commit body s = elim (body s) [
  | err failure ↦ rolled_back failure s
  | ok (a, after) ↦ commit_with commit a s after
]

-- `run`
unfoldable pub run {ℓ} : {A : Type ℓ} → Fate → Tx A → Session → Outcome A
unfolding run_body classify
run fate body s = elim fate.begin [
  | some e ↦ rolled_back (classify e) s
  | none ↦ elim fate.timeouts [
    | some e ↦ rolled_back (classify e) s
    | none ↦ run_body fate.statement fate.commit body s
  ]
]

-- `NewUnitOfWork`: at least one attempt.
abbrev pub attempts_of : ℕ → ℕ
attempts_of zero = 1
attempts_of (suc n) = suc n

abbrev pub none_left : ℕ → Bool
none_left zero = true
none_left (suc _) = false

-- What `Do` does after an attempt, while `n` more are left: the rest of the loop is an argument.
unfoldable pub after_attempt {ℓ} :
    {A : Type ℓ} → ℕ → Option Failure → Outcome A → Outcome A → Outcome A
after_attempt n interrupted first rest = elim first.answer [
  | ok a ↦ first
  | err failure ↦ if not (is_retryable failure) || none_left n then first else elim interrupted [
    | some e ↦ record first { answer = err e }
    | none ↦ record rest { applied = rest.applied + first.applied }
  ]
]

-- The loop of `Do`: `n` attempts after this one; `k` counts those that were made.
unfoldable pub attempt_loop {ℓ} : {A : Type ℓ} → ℕ → (ℕ → Fate) → ℕ → Tx A → Session → Outcome A
unfolding run after_attempt
attempt_loop zero fates k body s =
    after_attempt 0 (fates k).interrupted (run (fates k) body s) (run (fates k) body s)
attempt_loop (suc n) fates k body s =
    let first = run (fates k) body s in
    let rest = attempt_loop n fates (suc k) body first.session in
    after_attempt (suc n) (fates k).interrupted first rest

-- `Do`, of a number of attempts. `NewUnitOfWork` rules out that there is none: `Do` would then return
-- nil with no value, which no outcome stands for, and the clause says that nothing was applied.
unfoldable pub do_attempts {ℓ} : {A : Type ℓ} → ℕ → (ℕ → Fate) → Tx A → Session → Outcome A
unfolding attempt_loop
do_attempts zero fates body s = rolled_back database s
do_attempts (suc n) fates body s = attempt_loop n fates 0 body s

-- `Do` of the unit of work that `NewUnitOfWork` makes.
unfoldable pub do_work {ℓ} : {A : Type ℓ} → ℕ → (ℕ → Fate) → Tx A → Session → Outcome A
unfolding do_attempts
do_work retry_attempts fates body s = do_attempts (attempts_of retry_attempts) fates body s
