-- ===== src/Store/UnitOfWork/Atomic.antt =====
-- A unit of work is applied once or not at all.
use wagering_wallet_service.Base.{
  Bool-cases, Option-cases, RepositoryError, Failure, Result-cases, of_repository, err, ok, ℕ, zero,
  suc, ◌+◌, ◌≡◌, refl, sym, ◌⊎◌, inl, inr, true, false, not, ◌||◌, Option, arith,
}
use mathlib.Core.Path.{subst}
use wagering_wallet_service.Store.{Session, Tx}
use wagering_wallet_service.Store.UnitOfWork.{
  StatementFate, first_failed, later_failed, all_answered, do_attempts, StatementFate, do_attempts,
  none_left, classify, classify_code, classify_commit, is_retryable, CommitFate, committed, refused,
  unanswered, Fate, Outcome, rolled_back, commit_with, run_body, run, after_attempt, attempt_loop,
  do_work,
}

-- The body was not applied and the database is as it was; or it was applied once and answered; or it
-- was applied once and only the answer is lost.
pub data Atomic {ℓ} {A : Type ℓ} (body : Tx A) (s : Session) : Outcome A → Type ℓ where
  undone : (failure : Failure) → Atomic body s (rolled_back failure s)
  done :
      (a : A) (s' : Session)
      → body s ≡ ok (a, s')
      → Atomic body s (record { answer = ok a; session = s'; applied = 1 })
  unsure :
      (a : A) (s' : Session)
      → body s ≡ ok (a, s')
      → Atomic body s (record {
        answer = err (of_repository RepositoryError.commit_outcome_unknown);
        session = s';
        applied = 1;
      })

module _ {ℓ} {A : Type ℓ} (body : Tx A) (s : Session) where
  commit_with-Atomic :
      (fate : CommitFate) (a : A) (s' : Session)
      → body s ≡ ok (a, s')
      → Atomic body s (commit_with fate a s s')
  unfolding commit_with classify_commit
  commit_with-Atomic committed a s' h = done a s' h
  commit_with-Atomic (refused code) a s' h = undone (classify_code code)
  commit_with-Atomic (unanswered e true) a s' h = unsure a s' h
  commit_with-Atomic (unanswered e false) a s' h =
      undone (of_repository RepositoryError.commit_outcome_unknown)

  run_body-Atomic :
      (statement : StatementFate) (fate : CommitFate)
      → Atomic body s (run_body statement fate body s)
  unfolding run_body
  run_body-Atomic (first_failed e) fate = undone (classify e)
  run_body-Atomic (later_failed e) fate = undone (classify e)
  run_body-Atomic all_answered fate = elim (Result-cases (body s)) [
    | inl ((a, s'), succeeded) ↦ rw (run_body, succeeded) (commit_with-Atomic fate a s' succeeded)
    | inr (e, stopped) ↦ rw (run_body, stopped) (undone e)
  ]

  pub run-Atomic : (fate : Fate) → Atomic body s (run fate body s)
  unfolding run
  run-Atomic fate = elim (Option-cases fate.begin) [
    | inr (e, broken) ↦ rw broken (undone (classify e))
    | inl begun ↦ elim (Option-cases fate.timeouts) [
      | inr (e, broken) ↦ rw (begun, broken) (undone (classify e))
      | inl set ↦ rw (begun, set) (run_body-Atomic fate.statement fate.commit)
    ]
  ]

  -- Only an attempt that left nothing behind is followed by another.
  after_attempt-Atomic :
      (n : ℕ) (interrupted : Option Failure) {first rest : Outcome A}
      → Atomic body s first
      → (first.session ≡ s → Atomic body s rest)
      → Atomic body s (after_attempt n interrupted first rest)
  unfolding after_attempt
  after_attempt-Atomic n interrupted (done a s' h) again = done a s' h
  after_attempt-Atomic n interrupted (unsure a s' h) again = unsure a s' h
  after_attempt-Atomic n interrupted {rest = rest} (undone failure) again =
      elim (Bool-cases (not (is_retryable failure) || none_left n)) [
        | inl last ↦ rw last (undone failure)
        | inr more ↦ elim (Option-cases interrupted) [
          | inl free ↦
              rw (more, free)
                (subst (λ n. Atomic body s (record rest { applied = n })) {x = rest.applied}
                  {y = rest.applied + 0} (omega arith) (again refl))
          | inr (e, stopped) ↦ rw (more, stopped) (undone e)
        ]
      ]

attempt_loop-Atomic {ℓ} :
    {A : Type ℓ} (n : ℕ) (fates : ℕ → Fate) (k : ℕ) (body : Tx A) (s : Session)
    → Atomic body s (attempt_loop n fates k body s)
unfolding attempt_loop
attempt_loop-Atomic zero fates k body s =
    after_attempt-Atomic body s 0 (fates k).interrupted (run-Atomic body s (fates k))
      (λ _. run-Atomic body s (fates k))
attempt_loop-Atomic (suc n) fates k body s =
    after_attempt-Atomic body s (suc n) (fates k).interrupted (run-Atomic body s (fates k)) (λ same.
      subst (λ t. Atomic body s (attempt_loop n fates (suc k) body t)) (sym same)
        (attempt_loop-Atomic n fates (suc k) body s))

-- Whatever the database and the context answer to any number of attempts, the body is applied once
-- or not at all: the work answers a value when it was applied and committed, once; an error other
-- than an unknown outcome of the commit leaves the database as it was; and after an unknown outcome
-- it is as it was or as one run of the body leaves it.
pub do_work-Atomic {ℓ} :
    {A : Type ℓ} (retry_attempts : ℕ) (fates : ℕ → Fate) (body : Tx A) (s : Session)
    → Atomic body s (do_work retry_attempts fates body s)
unfolding do_work do_attempts
do_work-Atomic zero fates body s = attempt_loop-Atomic 0 fates 0 body s
do_work-Atomic (suc n) fates body s = attempt_loop-Atomic n fates 0 body s

Atomic-error {ℓ} :
    {A : Type ℓ} (body : Tx A) (s : Session) (o : Outcome A) {e : Failure}
    → Atomic body s o
    → o.answer ≡ err e
    → (e ≡ of_repository RepositoryError.commit_outcome_unknown) ⊎ (o.session ≡ s)
Atomic-error body s _ (undone failure) h = inr refl
Atomic-error body s _ (unsure a s' ran) h = inl (ground (arith, h))
Atomic-error body s _ (done a s' ran) h = absurd (ground (arith, h))

-- A unit of work that fails leaves the database as it was, but for an unknown outcome.
pub do_work-error {ℓ} :
    {A : Type ℓ} (retry_attempts : ℕ) (fates : ℕ → Fate) (body : Tx A) (s : Session) {e : Failure}
    → (do_work retry_attempts fates body s).answer ≡ err e
    → (e ≡ of_repository RepositoryError.commit_outcome_unknown)
      ⊎ ((do_work retry_attempts fates body s).session ≡ s)
do_work-error retry_attempts fates body s h =
    Atomic-error body s (do_work retry_attempts fates body s)
      (do_work-Atomic retry_attempts fates body s) h

Atomic-answer {ℓ} :
    {A : Type ℓ} (body : Tx A) (s : Session) (o : Outcome A) {a : A}
    → Atomic body s o
    → o.answer ≡ ok a
    → body s ≡ ok (a, o.session)
Atomic-answer body s _ (undone failure) h = absurd (ground (arith, h))
Atomic-answer body s _ (unsure a s' ran) h = absurd (ground (arith, h))
Atomic-answer body s _ (done a s' ran) h = ground (arith, ran, h)

-- A unit of work that answers a value left what its body leaves.
pub do_work-answer {ℓ} :
    {A : Type ℓ} (retry_attempts : ℕ) (fates : ℕ → Fate) (body : Tx A) (s : Session) {a : A}
    → (do_work retry_attempts fates body s).answer ≡ ok a
    → body s ≡ ok (a, (do_work retry_attempts fates body s).session)
do_work-answer retry_attempts fates body s h =
    Atomic-answer body s (do_work retry_attempts fates body s)
      (do_work-Atomic retry_attempts fates body s) h
