-- ===== src/Store/UnitOfWork/Conflicts.antt =====
-- A conflict with another transaction is replayed.
use wagering_wallet_service.Base.{
  ◌==◌, Bool-cases, RepositoryError, of_repository, ok, ℕ, zero, suc, ◌+◌, ◌≤◌, ◌<◌, ◌≡◌, refl, inl,
  inr, none, some, arith,
}
use mathlib.Core.Path.{subst}
use wagering_wallet_service.Store.{Session, Tx}
use wagering_wallet_service.Store.UnitOfWork.{
  PgCode, of_server, first_failed, later_failed, all_answered, do_attempts, serialization_failure,
  deadlock_detected, classify, classify_code, classify_commit, committed, refused, Fate, Outcome,
  rolled_back, commit_with, run_body, run, after_attempt, attempt_loop, do_work,
}

-- The codes 40001 and 40P01, of a transaction that the server aborted for the sake of another.
pub data IsConflict : PgCode → Type 0 where
  serialization : IsConflict serialization_failure
  deadlock : IsConflict deadlock_detected

-- Where an attempt is told of it: by `BEGIN`, a setting of the timeouts, the first or a later
-- statement of the body, or `COMMIT`.
pub data MetAt (code : PgCode) (fate : Fate) : Type 0 where
  at_begin : fate.begin ≡ some (of_server code) → MetAt code fate
  at_timeouts : fate.begin ≡ none → fate.timeouts ≡ some (of_server code) → MetAt code fate
  at_first :
      fate.begin ≡ none
      → fate.timeouts ≡ none
      → fate.statement ≡ first_failed (of_server code)
      → MetAt code fate
  at_later :
      fate.begin ≡ none
      → fate.timeouts ≡ none
      → fate.statement ≡ later_failed (of_server code)
      → MetAt code fate
  at_commit :
      fate.begin ≡ none
      → fate.timeouts ≡ none
      → fate.statement ≡ all_answered
      → fate.commit ≡ refused code
      → MetAt code fate

-- An attempt that meets a conflict, with no end of the context in the pause after it.
pub record Conflicted (fate : Fate) : Type 0 where
  pub code : PgCode
  pub conflict : IsConflict code
  pub where_met : MetAt code fate
  pub waited : fate.interrupted ≡ none

classify-IsConflict :
    (code : PgCode) → IsConflict code → classify_code code ≡ of_repository RepositoryError.aborted
unfolding classify_code
classify-IsConflict _ serialization = refl
classify-IsConflict _ deadlock = refl

pub record LetThrough (fate : Fate) : Type 0 where
  pub began : fate.begin ≡ none
  pub timed : fate.timeouts ≡ none
  pub answered : fate.statement ≡ all_answered
  pub commits : fate.commit ≡ committed

module _ {ℓ} {A : Type ℓ} (body : Tx A) (s s' : Session) (a : A) (works : body s ≡ ok (a, s')) where
  run-LetThrough :
      (fate : Fate)
      → LetThrough fate
      → run fate body s ≡ record { answer = ok a; session = s'; applied = 1 }
  unfolding run run_body commit_with
  run-LetThrough fate through =
      rw (through.began, through.timed)
        (rw through.answered (rw (run_body, works) (rw through.commits refl)))

  run-Conflicted :
      (fate : Fate)
      → Conflicted fate
      → run fate body s ≡ rolled_back (of_repository RepositoryError.aborted) s
  unfolding run run_body commit_with classify_commit classify
  run-Conflicted fate c = elim c.where_met [
    | at_begin e ↦ ground (arith, e, classify-IsConflict c.code c.conflict)
    | at_timeouts b e ↦ ground (arith, b, e, classify-IsConflict c.code c.conflict)
    | at_first b t e ↦ ground (arith, b, t, e, classify-IsConflict c.code c.conflict)
    | at_later b t e ↦ ground (arith, b, t, e, classify-IsConflict c.code c.conflict)
    | at_commit b t q e ↦ ground (arith, works, b, t, q, e, classify-IsConflict c.code c.conflict)
  ]

  committed_once : Outcome A
  committed_once = record { answer = ok a; session = s'; applied = 1 }

  attempt_loop-first :
      (n : ℕ) (fates : ℕ → Fate) (k : ℕ)
      → LetThrough (fates k)
      → attempt_loop n fates k body s ≡ committed_once
  unfolding attempt_loop after_attempt committed_once
  attempt_loop-first zero fates k through = rw (run-LetThrough (fates k) through) refl
  attempt_loop-first (suc n) fates k through = rw (run-LetThrough (fates k) through) refl

  attempt_loop-next :
      (n : ℕ) (fates : ℕ → Fate) (k : ℕ)
      → Conflicted (fates k)
      → attempt_loop n fates (suc k) body s ≡ committed_once
      → attempt_loop (suc n) fates k body s ≡ committed_once
  unfolding attempt_loop after_attempt committed_once
  attempt_loop-next n fates k conflict later =
      rw (run-Conflicted (fates k) conflict) (rw conflict.waited (rw later refl))

  attempt_loop-committed :
      (n : ℕ) (fates : ℕ → Fate) (k last : ℕ)
      → k ≤ last
      → last ≤ k + n
      → ((i : ℕ) → k ≤ i → i < last → Conflicted (fates i))
      → LetThrough (fates last)
      → attempt_loop n fates k body s ≡ committed_once
  attempt_loop-committed zero fates k last low high conflicts through =
      attempt_loop-first zero fates k
        (subst (λ i. LetThrough (fates i)) {x = last} {y = k} (omega arith) through)
  attempt_loop-committed (suc n) fates k last low high conflicts through =
      elim (Bool-cases (k == last)) [
        | inl here ↦
            attempt_loop-first (suc n) fates k
              (subst (λ i. LetThrough (fates i)) {x = last} {y = k} (ground (arith, here)) through)
        | inr later ↦
            attempt_loop-next n fates k (conflicts k (omega arith) (ground (arith, low, later))) (
              attempt_loop-committed n fates (suc k) last (ground (arith, low, later)) (omega arith)
                (λ i above below. conflicts i (omega arith) below) through)
      ]

  -- A body that works is committed, once, by the first attempt that the database lets through, when
  -- each attempt before it met a serialization failure or a deadlock, at its begin, in a statement or
  -- at its commit, and fewer attempts than the setting allows came before.
  pub do_work-committed :
      (retry_attempts : ℕ) (fates : ℕ → Fate) (conflicts : ℕ)
      → conflicts < retry_attempts
      → ((i : ℕ) → i < conflicts → Conflicted (fates i))
      → LetThrough (fates conflicts)
      → do_work retry_attempts fates body s ≡ record { answer = ok a; session = s'; applied = 1 }
  unfolding do_work do_attempts committed_once
  do_work-committed zero fates conflicts fewer each through = absurd (omega arith)
  do_work-committed (suc n) fates conflicts fewer each through =
      attempt_loop-committed n fates 0 conflicts (omega arith) (omega (arith, fewer))
        (λ i _ below. each i below) through
