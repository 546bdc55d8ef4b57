-- ===== src/Usecase/Retry/Loop.antt =====
-- The attempts of a retry and their loop: `attempt`, `giveUp` and `Execute` of
-- internal/application/usecase/retry_pending_reference.go. The readings of the clock, the end of the
-- context and what the database answers to each unit of work are arguments.
pub mod Reaches
pub mod Ends
use wagering_wallet_service.Base.{
  ltb, if◌then◌else◌, Failure, Result, no_pending_work, err, ok, Uuid, nil_uuid, is_nil, Instant, ℕ,
  zero, suc, ◌-◌, String, Bool, true, false, not, ◌&&◌, ◌||◌, Option, none, some, List, [], ◌∷◌,
}
use wagering_wallet_service.Wagering.Transaction.{Transaction}
use wagering_wallet_service.Event.{Envelope}
use wagering_wallet_service.Store.{Session, Tx}
use wagering_wallet_service.Store.Transactions
use wagering_wallet_service.Store.UnitOfWork.{
  Fate, StatementFate, first_failed, Outcome, run, none_left, is_retryable, attempts_of, do_work,
}
use wagering_wallet_service.Usecase.Backoff.{recoverable}
use wagering_wallet_service.Usecase.Retry.{ReferenceSettings, attempt, give_up}

-- What one attempt meets: the end of the context before it, the readings of the clock, and what the
-- database answers to the attempt and to the giving up.
pub record Round : Type 0 where
  pub interrupted : Option Failure
  pub now : Instant
  pub fates : ℕ → Fate
  pub give_up_now : Instant
  pub give_up_fates : ℕ → Fate

-- Whether the first statement of the body was answered.
abbrev pub is_begun : StatementFate → Bool
is_begun (first_failed _) = false
is_begun _ = true

-- Whether an attempt of a unit of work runs its body past the claim, its first statement.
abbrev pub reaches : Fate → Bool
reaches fate = elim fate.begin [
  | some _ ↦ false
  | none ↦ elim fate.timeouts [ some _ ↦ false | none ↦ is_begun fate.statement ]
]

-- Whether `Do` goes on after an attempt, while `n` more are left.
abbrev pub goes_on {ℓ} : {A : Type ℓ} → ℕ → Option Failure → Result A → Bool
goes_on n interrupted (ok _) = false
goes_on n interrupted (err e) =
    is_retryable e && not (none_left n) && elim interrupted [ none ↦ true | some _ ↦ false ]

-- Whether any attempt that `Do` makes runs the body past the claim: then it assigned `claimedID`.
unfoldable pub reached_body {ℓ} : {A : Type ℓ} → ℕ → (ℕ → Fate) → ℕ → Tx A → Session → Bool
unfolding run
reached_body zero fates k body s = reaches (fates k)
reached_body (suc n) fates k body s =
    let later = reached_body n fates (suc k) body (run (fates k) body s).session in
    reaches (fates k)
    || (goes_on (suc n) (fates k).interrupted (run (fates k) body s).answer && later)

-- The `claimedID` that the body assigns: of the operation that it claims.
abbrev pub first_id : Result (List Transaction × Session) → Uuid
first_id (err _) = nil_uuid
first_id (ok ([], _)) = nil_uuid
first_id (ok (operation ∷ _, _)) = operation.id

abbrev pub is_no_work : Failure → Bool
is_no_work no_pending_work = true
is_no_work _ = false

module _ (uuid_text : Uuid → String) (marshal : Envelope → Result (List ℕ)) (ids : ℕ → Uuid)
    (settings : ReferenceSettings) (retry_attempts : ℕ) where
  -- `claimedID` after `Do`.
  unfoldable pub claimed_id : Round → Session → Uuid
  unfolding reached_body
  claimed_id round s =
      if reached_body (attempts_of retry_attempts - 1) round.fates 0
        (attempt uuid_text marshal ids settings round.now) s
      then first_id (Transactions.claim_due_pending round.now 1 s)
      else nil_uuid

  -- The end of `giveUp`: its answer is that of its unit of work.
  abbrev pub given_up : Uuid → Outcome Bool → Result Uuid × Session
  given_up claimed o = elim o.answer [ ok _ ↦ (ok claimed, o.session) | err e ↦ (err e, o.session) ]

  -- What `attempt` does after `Do`; an identifier beside an error is dropped, as its caller does.
  unfoldable pub after_work : Round → Uuid → Outcome Uuid → Result Uuid × Session
  unfolding do_work give_up
  after_work round claimed o = elim o.answer [
    | ok _ ↦ (ok claimed, o.session)
    | err e ↦
        if is_no_work e || recoverable e || is_nil claimed
        then (err e, o.session)
        else given_up claimed (
            do_work retry_attempts round.give_up_fates (give_up claimed round.give_up_now)
              o.session)
  ]

  -- `attempt`
  unfoldable pub attempt_round : Round → Session → Result Uuid × Session
  unfolding claimed_id after_work do_work attempt
  attempt_round round s =
      after_work round (claimed_id round s)
        (do_work retry_attempts round.fates (attempt uuid_text marshal ids settings round.now) s)

  -- The test of the context in the loop of `Execute`.
  abbrev pub unless_interrupted :
      Option Failure
      → ℕ
      → Session
      → Option ((Option Failure × ℕ) × Session)
      → Option ((Option Failure × ℕ) × Session)
  unless_interrupted none handled s next = next
  unless_interrupted (some e) handled s next = some ((some e, handled), s)

  -- What the loop of `Execute` does after an attempt: `rest` is the loop that goes on.
  abbrev pub after_round :
      Result Uuid × Session
      → ℕ
      → (ℕ → Option ((Option Failure × ℕ) × Session))
      → Option ((Option Failure × ℕ) × Session)
  after_round (err e, s) handled rest = some ((if is_no_work e then none else some e, handled), s)
  after_round (ok claimed, s) handled rest = rest (if is_nil claimed then handled else suc handled)

  -- The loop of `Execute`, on fuel: the error and the count of what was handled, or nothing when the
  -- fuel runs out.
  unfoldable pub execute_loop :
      ℕ → (ℕ → Round) → ℕ → ℕ → Session → Option ((Option Failure × ℕ) × Session)
  unfolding attempt_round
  execute_loop zero rounds k handled s = none
  execute_loop (suc fuel) rounds k handled s =
      let attempted = attempt_round (rounds k) s in
      let rest : ℕ → Option ((Option Failure × ℕ) × Session) =
        λ count. execute_loop fuel rounds (suc k) count attempted.1 in
      if not (ltb handled settings.batch_size)
      then some ((none, handled), s)
      else unless_interrupted (rounds k).interrupted handled s (after_round attempted handled rest)

  -- `Execute`
  unfoldable pub execute_retry : ℕ → (ℕ → Round) → Session → Option ((Option Failure × ℕ) × Session)
  unfolding execute_loop
  execute_retry fuel rounds s = execute_loop fuel rounds 0 0 s
