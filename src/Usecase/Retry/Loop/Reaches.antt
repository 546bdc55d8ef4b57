-- ===== src/Usecase/Retry/Loop/Reaches.antt =====
-- A unit of work that answers a value ran its body.
use mathlib.Core.Path.{subst}
use wagering_wallet_service.Base.{
  ◌-◌, Bool-cases, Option-cases, Failure, Result-cases, ok, ℕ, zero, suc, ◌≡◌, refl, ◌⊎◌, inl, inr,
  Bool, true, false, ◌&&◌, ◌||◌, Option, arith,
}
use wagering_wallet_service.Store.{Session, Tx}
use wagering_wallet_service.Store.UnitOfWork.{
  do_work, do_attempts, attempts_of, run_body, StatementFate, CommitFate, all_answered,
  first_failed, later_failed, Fate, Outcome, run, none_left, is_retryable, attempt_loop,
  after_attempt,
}
use wagering_wallet_service.Usecase.Retry.Loop.{is_begun, reaches, goes_on, reached_body}

begun-answer {ℓ} :
    {A : Type ℓ} (statement : StatementFate) (commit : CommitFate) (body : Tx A) (s : Session)
    {a : A}
    → (run_body statement commit body s).answer ≡ ok a
    → is_begun statement ≡ true
unfolding run_body
begun-answer all_answered commit body s h = refl
begun-answer (first_failed e) commit body s h = absurd (ground (arith, h))
begun-answer (later_failed e) commit body s h = refl

run-reaches {ℓ} :
    {A : Type ℓ} (fate : Fate) (body : Tx A) (s : Session) {a : A}
    → (run fate body s).answer ≡ ok a
    → reaches fate ≡ true
unfolding run
run-reaches fate body s {a} h = elim (Option-cases fate.begin) [
  | inr (e, broken) ↦ absurd (ground (arith, h, broken))
  | inl begun ↦ elim (Option-cases fate.timeouts) [
    | inr (e, broken) ↦ absurd (ground (arith, h, begun, broken))
    | inl set ↦
        rw (begun, set)
          (begun-answer fate.statement fate.commit body s {a = a} (ground (arith, h, begun, set)))
  ]
]

after_attempt-answer {ℓ} :
    {A : Type ℓ} (n : ℕ) (interrupted : Option Failure) (first rest : Outcome A) {a : A}
    → (after_attempt n interrupted first rest).answer ≡ ok a
    → (first.answer ≡ ok a) ⊎ ((goes_on n interrupted first.answer ≡ true) × (rest.answer ≡ ok a))
unfolding after_attempt
after_attempt-answer n interrupted first rest h = elim (Result-cases first.answer) [
  | inl (b, worked) ↦ inl (ground (arith, h, worked))
  | inr (e, failed) ↦ elim (Bool-cases (is_retryable e)) [
    | inr final ↦ absurd (ground (arith, h, failed, final))
    | inl again ↦ elim (Bool-cases (none_left n)) [
      | inl last ↦ absurd (ground (arith, h, failed, again, last))
      | inr more ↦ elim (Option-cases interrupted) [
        | inr (stop, stopped) ↦ absurd (ground (arith, h, failed, again, more, stopped))
        | inl free ↦
            inr (rw (failed, again, more, free) refl, ground (arith, h, failed, again, more, free))
      ]
    ]
  ]
]

or-true : (a : Bool) → (a || true) ≡ true
or-true true = refl
or-true false = refl

or-and : (a : Bool) {b c : Bool} → b ≡ true → c ≡ true → (a || (c && b)) ≡ true
or-and a hb hc = rw (hb, hc) (or-true a)

attempt_loop-reaches {ℓ} :
    {A : Type ℓ} (n : ℕ) (fates : ℕ → Fate) (k : ℕ) (body : Tx A) (s : Session) {a : A}
    → (attempt_loop n fates k body s).answer ≡ ok a
    → reached_body n fates k body s ≡ true
unfolding attempt_loop reached_body
attempt_loop-reaches zero fates k body s h =
    let first = run (fates k) body s in
    elim (after_attempt-answer 0 (fates k).interrupted first first h) [
      | inl worked ↦ run-reaches (fates k) body s worked
      | inr (_, worked) ↦ run-reaches (fates k) body s worked
    ]
attempt_loop-reaches (suc n) fates k body s h =
    let first = run (fates k) body s in
    elim (after_attempt-answer (suc n) (fates k).interrupted first
      (attempt_loop n fates (suc k) body first.session) h) [
        | inl worked ↦ rw (run-reaches (fates k) body s worked) refl
        | inr (on, worked) ↦
            or-and (reaches (fates k))
              (attempt_loop-reaches n fates (suc k) body first.session worked) on
      ]

-- The same of the work, whose attempts are one more than those that follow the first.
pub do_work-reaches {ℓ} :
    {A : Type ℓ} (retry_attempts : ℕ) (fates : ℕ → Fate) (body : Tx A) (s : Session) {a : A}
    → (do_work retry_attempts fates body s).answer ≡ ok a
    → reached_body (attempts_of retry_attempts - 1) fates 0 body s ≡ true
unfolding do_work do_attempts
do_work-reaches zero fates body s h = attempt_loop-reaches 0 fates 0 body s h
do_work-reaches (suc n) fates body s h =
    subst (λ m. reached_body m fates 0 body s ≡ true) {x = n} {y = suc n - 1} (omega arith)
      (attempt_loop-reaches n fates 0 body s h)
