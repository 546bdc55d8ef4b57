-- ===== src/Usecase/Process/Execute.antt =====
-- `Execute` of internal/application/usecase/process_wager_transaction.go: the validation, the hash of
-- the payload, and the unit of work. The clock gives every attempt of one execution the same times.
use wagering_wallet_service.Base.{
  inr, ◌⊎◌, RepositoryError, of_repository, Failure, refl, arith, Result, err, ok, Uuid, Instant,
  InInt64, ℕ, String, ◌≡◌, List,
}
use wagering_wallet_service.Event.{Envelope}
use wagering_wallet_service.Store.{Session, Tx}
use wagering_wallet_service.Store.Books.{Sound}
use wagering_wallet_service.Store.UnitOfWork.{Fate, Outcome, rolled_back, do_work}
use wagering_wallet_service.Store.UnitOfWork.Atomic.{
  do_work-error, do_work-answer, Atomic, undone, done, unsure, do_work-Atomic,
}
use wagering_wallet_service.Usecase.Input.{ProcessWagerInput, ProcessWagerResult, validate}
use wagering_wallet_service.Usecase.Process.{ProcessSettings, run}
use wagering_wallet_service.Usecase.Process.Keeps.{run-Sound}

module _ (uuid_text : Uuid → String) (marshal : Envelope → Result (List ℕ)) (ids : ℕ → Uuid)
    (settings : ProcessSettings) (tag_problems : ProcessWagerInput → List String)
    (hash : ProcessWagerInput → Result String) (retry_attempts : ℕ) (fates : ℕ → Fate) where
  -- What follows the validation.
  unfoldable pub execute_hashed :
      Result String → ProcessWagerInput → Instant → Instant → Session → Outcome ProcessWagerResult
  unfolding run do_work
  execute_hashed (err failure) input received_at now s = rolled_back failure s
  execute_hashed (ok payload_hash) input received_at now s =
      do_work retry_attempts fates
        (run uuid_text marshal ids settings input payload_hash received_at now) s

  -- The execution after the checks of the input.
  unfoldable pub execute_checked :
      Result (Unit {0})
      → ProcessWagerInput
      → Instant
      → Instant
      → Session
      → Outcome ProcessWagerResult
  unfolding execute_hashed
  execute_checked (err failure) input received_at now s = rolled_back failure s
  execute_checked (ok _) input received_at now s =
      execute_hashed (hash input) input received_at now s

  -- `Execute`
  unfoldable pub execute_process :
      ProcessWagerInput → Instant → Instant → Session → Outcome ProcessWagerResult
  unfolding validate execute_checked
  execute_process input received_at now s =
      execute_checked (validate (tag_problems input) input) input received_at now s

  Atomic-Sound :
      {body : Tx ProcessWagerResult} {s : Session} {o : Outcome ProcessWagerResult}
      → Atomic body s o
      → Sound s.store
      → ((a : ProcessWagerResult) (s' : Session) → body s ≡ ok (a, s') → Sound s'.store)
      → Sound o.session.store
  Atomic-Sound (undone failure) sound keeps = sound
  Atomic-Sound (done a s' h) sound keeps = keeps a s' h
  Atomic-Sound (unsure a s' h) sound keeps = keeps a s' h

  hashed-Sound :
      (m : Result String) (input : ProcessWagerInput) (received_at now : Instant) (s : Session)
      → InInt64 input.amount.minor
      → Sound s.store
      → Sound (execute_hashed m input received_at now s).session.store
  unfolding execute_hashed
  hashed-Sound (err failure) input received_at now s fits sound = sound
  hashed-Sound (ok payload_hash) input received_at now s fits sound =
      Atomic-Sound
        (do_work-Atomic retry_attempts fates
          (run uuid_text marshal ids settings input payload_hash received_at now) s)
        sound
        (λ a s' h.
          run-Sound uuid_text marshal ids settings input payload_hash received_at now s fits sound
            h)

  checked-Sound :
      (m : Result (Unit {0})) (input : ProcessWagerInput) (received_at now : Instant) (s : Session)
      → InInt64 input.amount.minor
      → Sound s.store
      → Sound (execute_checked m input received_at now s).session.store
  unfolding execute_checked
  checked-Sound (err failure) input received_at now s fits sound = sound
  checked-Sound (ok _) input received_at now s fits sound =
      hashed-Sound (hash input) input received_at now s fits sound

  -- Whatever input with an int64 amount is executed, and whatever the database answers to any of the
  -- attempts, the books are sound afterwards when they were sound, also after an error.
  pub execute_process-Sound :
      (input : ProcessWagerInput) (received_at now : Instant) (s : Session)
      → InInt64 input.amount.minor
      → Sound s.store
      → Sound (execute_process input received_at now s).session.store
  unfolding execute_process
  execute_process-Sound input received_at now s fits sound =
      checked-Sound (validate (tag_problems input) input) input received_at now s fits sound

  hashed-answer :
      (m : Result String) (input : ProcessWagerInput) (received_at now : Instant) (s : Session)
      {r : ProcessWagerResult}
      → (execute_hashed m input received_at now s).answer ≡ ok r
      → (payload_hash : String) × (m ≡ ok payload_hash)
        × (run uuid_text marshal ids settings input payload_hash received_at now s
            ≡ ok (r, (execute_hashed m input received_at now s).session))
  unfolding execute_hashed
  hashed-answer (err failure) input received_at now s h = absurd (ground (arith, h))
  hashed-answer (ok payload_hash) input received_at now s h = (
    payload_hash,
    refl,
    do_work-answer retry_attempts fates
        (run uuid_text marshal ids settings input payload_hash received_at now) s h,
  )

  checked-answer :
      (m : Result (Unit {0})) (input : ProcessWagerInput) (received_at now : Instant) (s : Session)
      {r : ProcessWagerResult}
      → (execute_checked m input received_at now s).answer ≡ ok r
      → (payload_hash : String) × (hash input ≡ ok payload_hash)
        × (run uuid_text marshal ids settings input payload_hash received_at now s
            ≡ ok (r, (execute_checked m input received_at now s).session))
  unfolding execute_checked
  checked-answer (err failure) input received_at now s h = absurd (ground (arith, h))
  checked-answer (ok _) input received_at now s h =
      hashed-answer (hash input) input received_at now s h

  -- An execution that answers a result ran on the hash of its input, and what it left is committed.
  pub execute_process-answer :
      (input : ProcessWagerInput) (received_at now : Instant) (s : Session) {r : ProcessWagerResult}
      → (execute_process input received_at now s).answer ≡ ok r
      → (payload_hash : String) × (hash input ≡ ok payload_hash)
        × (run uuid_text marshal ids settings input payload_hash received_at now s
            ≡ ok (r, (execute_process input received_at now s).session))
  unfolding execute_process
  execute_process-answer input received_at now s h =
      checked-answer (validate (tag_problems input) input) input received_at now s h

  hashed-error :
      (m : Result String) (input : ProcessWagerInput) (received_at now : Instant) (s : Session)
      {e : Failure}
      → (execute_hashed m input received_at now s).answer ≡ err e
      → (e ≡ of_repository RepositoryError.commit_outcome_unknown)
        ⊎ ((execute_hashed m input received_at now s).session ≡ s)
  unfolding execute_hashed
  hashed-error (err failure) input received_at now s h = inr refl
  hashed-error (ok payload_hash) input received_at now s h =
      do_work-error retry_attempts fates
        (run uuid_text marshal ids settings input payload_hash received_at now) s h

  checked-error :
      (m : Result (Unit {0})) (input : ProcessWagerInput) (received_at now : Instant) (s : Session)
      {e : Failure}
      → (execute_checked m input received_at now s).answer ≡ err e
      → (e ≡ of_repository RepositoryError.commit_outcome_unknown)
        ⊎ ((execute_checked m input received_at now s).session ≡ s)
  unfolding execute_checked
  checked-error (err failure) input received_at now s h = inr refl
  checked-error (ok _) input received_at now s h =
      hashed-error (hash input) input received_at now s h

  -- An execution that fails leaves the database as it was, but for an unknown outcome of the commit.
  pub execute_process-error :
      (input : ProcessWagerInput) (received_at now : Instant) (s : Session) {e : Failure}
      → (execute_process input received_at now s).answer ≡ err e
      → (e ≡ of_repository RepositoryError.commit_outcome_unknown)
        ⊎ ((execute_process input received_at now s).session ≡ s)
  unfolding execute_process
  execute_process-error input received_at now s h =
      checked-error (validate (tag_problems input) input) input received_at now s h
