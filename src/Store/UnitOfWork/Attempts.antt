-- ===== src/Store/UnitOfWork/Attempts.antt =====
-- The attempts that a unit of work makes: which is the last, and how a conflict is replayed.
use wagering_wallet_service.Base.{
  ◌==◌, Bool-cases, Option-cases, RepositoryError, Failure, Result-cases, of_repository, err, ok,
  all, ℕ, zero, suc, ◌+◌, ◌≤◌, ◌<◌, ◌≡◌, refl, sym, ap, ◌∙◌, ◌≢◌, ◌⊎◌, inl, inr, true, not, ◌||◌,
  Option, none, some, arith,
}
use mathlib.Core.Path.{subst}
use wagering_wallet_service.Store.{Session, Tx}
use wagering_wallet_service.Store.UnitOfWork.{
  do_attempts, none_left, is_retryable, Fate, Outcome, rolled_back, run, after_attempt,
  attempt_loop, do_work,
}
use wagering_wallet_service.Store.UnitOfWork.Atomic.{Atomic, undone, done, unsure, run-Atomic}

abbrev aborted : Failure
aborted = of_repository RepositoryError.aborted

-- An attempt that the database aborted and left as it was, with no end of the context in the pause.
abbrev pub Replayed {ℓ} : {A : Type ℓ} → Fate → Tx A → Session → Type ℓ
Replayed fate body s = (run fate body s ≡ rolled_back aborted s) × (fate.interrupted ≡ none)

-- How the work ends at its attempt of number `last`: with what that attempt answers, which is not
-- aborted or is the last allowed; or in the pause after it, which the context ended.
pub data Ends {ℓ} {A : Type ℓ} (limit last : ℕ) (fate : Fate) (body : Tx A) (s : Session)
    (o : Outcome A) : Type ℓ where
  answered :
      o ≡ run fate body s
      → (((run fate body s).answer ≢ err aborted) ⊎ (limit ≤ suc last))
      → Ends limit last fate body s o
  stopped :
      (e : Failure)
      → suc last < limit
      → run fate body s ≡ rolled_back aborted s
      → fate.interrupted ≡ some e
      → o ≡ rolled_back e s
      → Ends limit last fate body s o

retryable-aborted : (e : Failure) → is_retryable e ≡ true → e ≡ aborted
retryable-aborted e h = ground (arith, h)

Atomic-aborted {ℓ} :
    {A : Type ℓ} (body : Tx A) (s : Session) (o : Outcome A)
    → Atomic body s o
    → o.answer ≡ err aborted
    → o ≡ rolled_back aborted s
Atomic-aborted body s _ (undone failure) h = ap (λ e. rolled_back e s) (ground (arith, h))
Atomic-aborted body s _ (done a s' ran) h = absurd (ground (arith, h))
Atomic-aborted body s _ (unsure a s' ran) h = absurd (ground (arith, h))

module _ {ℓ} {A : Type ℓ} (n : ℕ) (interrupted : Option Failure) (first rest : Outcome A) where
  after_attempt-ok : {a : A} → first.answer ≡ ok a → after_attempt n interrupted first rest ≡ first
  unfolding after_attempt
  after_attempt-ok h = ground (arith, h)

  after_attempt-last :
      (e : Failure)
      → first.answer ≡ err e
      → (not (is_retryable e) || none_left n) ≡ true
      → after_attempt n interrupted first rest ≡ first
  unfolding after_attempt
  after_attempt-last e h last = ground (arith, h, last)

after_attempt-stopped {ℓ} :
    {A : Type ℓ} (n : ℕ) (e : Failure) (s : Session) (rest : Outcome A)
    → after_attempt (suc n) (some e) (rolled_back aborted s) rest ≡ rolled_back e s
unfolding after_attempt
after_attempt-stopped n e s rest = refl

after_attempt-next {ℓ} :
    {A : Type ℓ} (n : ℕ) (s : Session) (rest : Outcome A)
    → after_attempt (suc n) none (rolled_back aborted s) rest ≡ rest
unfolding after_attempt
after_attempt-next n s rest =
    ap (λ (count : ℕ). record rest { applied = count }) {x = rest.applied + 0} {y = rest.applied}
      (omega arith)

module _ {ℓ} {A : Type ℓ} (fates : ℕ → Fate) (body : Tx A) (s : Session) where
  -- The loop from the attempt of number `k` ends at one of its attempts.
  abbrev Attempts : ℕ → ℕ → Outcome A → Type ℓ
  Attempts limit k o =
      (last : ℕ) × (k ≤ last)
      × (last < limit)
      × ((i : ℕ) → k ≤ i → i < last → Replayed (fates i) body s)
      × Ends limit last (fates last) body s o

  attempt_loop-here :
      (n k limit : ℕ)
      → limit ≡ k + suc n
      → (((run (fates k) body s).answer ≢ err aborted) ⊎ (limit ≤ suc k))
      → attempt_loop n fates k body s ≡ run (fates k) body s
      → Attempts limit k (attempt_loop n fates k body s)
  attempt_loop-here n k limit all why same = (
    k,
    omega arith,
    omega arith,
    λ i low high. absurd (omega (arith, low, high)),
    answered same why,
  )

  attempt_loop-on :
      (n k limit : ℕ)
      → limit ≡ k + suc (suc n)
      → run (fates k) body s ≡ rolled_back aborted s
      → Attempts limit (suc k) (attempt_loop n fates (suc k) body s)
      → Attempts limit k (attempt_loop (suc n) fates k body s)
  unfolding attempt_loop
  attempt_loop-on n k limit all undone_first later = elim (Option-cases (fates k).interrupted) [
    | inr (stop, ended) ↦ (
      k,
      omega arith,
      omega arith,
      λ i low high. absurd (omega (arith, low, high)),
      stopped stop (omega arith) undone_first ended (
          rw (undone_first, ended)
            (after_attempt-stopped n stop s (attempt_loop n fates (suc k) body s))),
    )
    | inl free ↦
        let (last, low, high, each, end) = later in
        let same : attempt_loop (suc n) fates k body s ≡ attempt_loop n fates (suc k) body s =
          rw (undone_first, free) (after_attempt-next n s (attempt_loop n fates (suc k) body s)) in
        (
          last,
          omega (arith, low),
          omega (arith, high),
          λ i from below. elim (Bool-cases (k == i)) [
            | inl here ↦
                subst (λ j. Replayed (fates j) body s) {x = k} {y = i} (ground (arith, here))
                  (undone_first, free)
            | inr after ↦ each i (ground (arith, after, from)) below
          ],
          subst (Ends limit last (fates last) body s) (sym same) end,
        )
  ]

  attempt_loop-Attempts :
      (n k limit : ℕ) → limit ≡ k + suc n → Attempts limit k (attempt_loop n fates k body s)
  unfolding attempt_loop
  attempt_loop-Attempts zero k limit all =
      let first = run (fates k) body s in
      attempt_loop-here zero k limit all (inr (omega arith)) (elim (Result-cases first.answer) [
        | inl (a, worked) ↦ after_attempt-ok 0 (fates k).interrupted first first worked
        | inr (e, failed) ↦
            after_attempt-last 0 (fates k).interrupted first first e failed (ground arith)
      ])
  attempt_loop-Attempts (suc n) k limit all =
      let first = run (fates k) body s in
      let rest = attempt_loop n fates (suc k) body first.session in
      elim (Result-cases first.answer) [
        | inl (a, worked) ↦
            attempt_loop-here (suc n) k limit all (inl (λ h. absurd (ground (arith, h, worked))))
              (after_attempt-ok (suc n) (fates k).interrupted first rest worked)
        | inr (e, failed) ↦ elim (Bool-cases (is_retryable e)) [
          | inr final ↦
              attempt_loop-here (suc n) k limit all
                (inl (λ h. absurd (ground (arith, h, failed, final))))
                (after_attempt-last (suc n) (fates k).interrupted first rest e failed
                  (ground (arith, final)))
          | inl again ↦
              attempt_loop-on n k limit all
                (Atomic-aborted body s first (run-Atomic body s (fates k))
                  (failed ∙ ap err (retryable-aborted e again)))
                (attempt_loop-Attempts n (suc k) limit (omega (arith, all)))
        ]
      ]

Ends-one {ℓ} :
    {A : Type ℓ} {last : ℕ} {fate : Fate} {body : Tx A} {s : Session} {o : Outcome A}
    → Ends 1 last fate body s o
    → Ends 0 last fate body s o
Ends-one (answered same why) = answered same (inr (omega arith))
Ends-one (stopped e more undone_last ended same) = absurd (omega (arith, more))

-- The work makes one attempt or more, and at most as many as the setting allows: the database aborts
-- each but the last and leaves no trace of it; and the work ends with what the last one answers, when
-- that is not aborted or no attempt is left, or with the end of the context in the pause after it.
pub do_work-Attempts {ℓ} :
    {A : Type ℓ} (retry_attempts : ℕ) (fates : ℕ → Fate) (body : Tx A) (s : Session)
    → (last : ℕ) × ((last ≡ 0) ⊎ (last < retry_attempts))
      × ((i : ℕ) → i < last → Replayed (fates i) body s)
      × Ends retry_attempts last (fates last) body s (do_work retry_attempts fates body s)
unfolding do_work do_attempts
do_work-Attempts zero fates body s =
    let (last, _, high, each, end) = attempt_loop-Attempts fates body s 0 0 1 refl in
    (last, inl (omega (arith, high)), λ i below. each i (omega arith) below, Ends-one end)
do_work-Attempts (suc n) fates body s =
    let (last, _, high, each, end) = attempt_loop-Attempts fates body s n 0 (suc n) (omega arith) in
    (last, inr high, λ i below. each i (omega arith) below, end)
