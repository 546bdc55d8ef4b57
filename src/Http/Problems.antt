-- ===== src/Http/Problems.antt =====
-- The error answers: internal/infrastructure/http/problem.go and the failures of handlers.go. The
-- titles and details are left out.
use wagering_wallet_service.Base.{
  ◌==◌, WalletError, WageringError, RepositoryError, Failure, of_wallet, of_wagering, of_repository,
  idempotency_conflict, external_id_conflict, wallet_conflict, invalid_input, Uuid, ℕ, Bool, Option,
  none, some,
}
use wagering_wallet_service.Wagering.Kind.{Status, processed, pending_reference}

pub data Code : Type 0 where
  validation_failed invalid_cursor unauthenticated forbidden wallet_not_found : Code
  transaction_not_found wallet_exists key_conflict external_conflict payload_too_large : Code
  unavailable commit_unknown internal_error : Code

-- `problem`, and whether the answer has the header `Retry-After`.
pub record Problem : Type 0 where
  pub status : ℕ
  pub code : Code
  pub transaction_id : Option Uuid
  pub wallet_id : Option Uuid
  pub retry_after : Bool

-- `writeProblem`
abbrev pub problem : ℕ → Code → Problem
problem status code = record {
  status = status;
  code = code;
  transaction_id = none;
  wallet_id = none;
  retry_after = status == 503;
}

-- The options `withTransaction` and `withWallet`.
abbrev pub with_transaction : Uuid → Problem → Problem
with_transaction id p = record p { transaction_id = some id }

abbrev pub with_wallet : Uuid → Problem → Problem
with_wallet id p = record p { wallet_id = some id }

-- An answer with a body, or a problem.
pub data Response {ℓ} (A : Type ℓ) : Type ℓ where
  respond : ℕ → A → Response A
  refuse : Problem → Response A

-- `fail`
unfoldable pub fail : Failure → Problem
fail (of_wallet WalletError.not_found) = problem 404 wallet_not_found
fail (of_wagering WageringError.not_found) = problem 404 transaction_not_found
fail (of_repository RepositoryError.commit_outcome_unknown) = problem 503 commit_unknown
fail (of_repository RepositoryError.lock_timeout) = problem 503 unavailable
fail (of_repository RepositoryError.transient) = problem 503 unavailable
fail (of_repository RepositoryError.aborted) = problem 503 unavailable
fail _ = problem 500 internal_error

-- `failValidation`
unfoldable pub fail_validation : Failure → Problem
unfolding fail
fail_validation invalid_input = problem 400 validation_failed
fail_validation e = fail e

-- `failProcessing`
unfoldable pub fail_processing : Failure → Problem
unfolding fail_validation
fail_processing (idempotency_conflict id) = with_transaction id (problem 409 key_conflict)
fail_processing (external_id_conflict id) = with_transaction id (problem 409 external_conflict)
fail_processing e = fail_validation e

-- What `openWallet` answers to an error of its use case.
unfoldable pub fail_opening : Failure → Problem
unfolding fail_validation
fail_opening (wallet_conflict id) = with_wallet id (problem 409 wallet_exists)
fail_opening e = fail_validation e

-- `statusOf`
abbrev pub status_of : Status → ℕ
status_of processed = 201
status_of pending_reference = 202
status_of _ = 422
