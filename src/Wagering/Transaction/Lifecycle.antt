-- ===== src/Wagering/Transaction/Lifecycle.antt =====
-- The life cycle that the methods of an operation follow.
use wagering_wallet_service.Base.{
  Failure, Result, Result-cases, after_checks, ok, err, Uuid, Instant, ◌≡◌, refl, sym, inl, inr,
  true, false, ◌||◌, List, [], ◌∷◌, arith,
}
use mathlib.Core.Path.{subst, subst₂}
use wagering_wallet_service.Base.{
  Result, after_checks, Uuid, Instant, ◌≡◌, refl, true, ◌||◌, List, [], ◌∷◌, arith,
}
use wagering_wallet_service.Money.{Money}
use wagering_wallet_service.Wagering.Kind.{
  is_terminal, Kind, Status, FailureCode, pending, pending_reference, processed, rejected, failed,
  is_reversal, is_pending, is_pending_reference,
}
use wagering_wallet_service.Wagering.Transaction.{
  can_settle, Transaction, check_processed, as_processed, mark_processed, check_rejected,
  as_rejected, mark_rejected, check_pending_reference, as_pending_reference, mark_pending_reference,
  check_reschedule, as_rescheduled, reschedule, check_failed, as_failed, mark_failed,
}

-- The calls that change an operation.
pub data Call : Type 0 where
  processing : Money → Uuid → Instant → Call
  rejecting : FailureCode → Money → Instant → Call
  waiting : Instant → Instant → Instant → Call
  rescheduling : Instant → Instant → Call
  failing : Instant → Call

abbrev pub checks : Call → Transaction → Result (Unit {0})
checks (processing b reference now) = check_processed b reference now
checks (rejecting code b now) = check_rejected code b now
checks (waiting next deadline now) = check_pending_reference next deadline now
checks (rescheduling next now) = check_reschedule next now
checks (failing now) = check_failed now

abbrev pub changed : Call → Transaction → Transaction
changed (processing b reference now) = as_processed b reference now
changed (rejecting code b now) = as_rejected code b now
changed (waiting next deadline now) = as_pending_reference next deadline now
changed (rescheduling next now) = as_rescheduled next now
changed (failing now) = as_failed now

abbrev pub run : Call → Transaction → Result (Unit {0}) × Transaction
run (processing b reference now) = mark_processed b reference now
run (rejecting code b now) = mark_rejected code b now
run (waiting next deadline now) = mark_pending_reference next deadline now
run (rescheduling next now) = reschedule next now
run (failing now) = mark_failed now

-- The calls one after the other, whatever each of them answers.
abbrev pub run_all : List Call → Transaction → Transaction
run_all [] t = t
run_all (c ∷ cs) t = run_all cs ((run c t).1)

-- The edges of the life cycle.
pub data Edge : Kind → Status → Status → Type 0 where
  settle : {k : Kind} → Edge k pending processed
  refuse : {k : Kind} → Edge k pending rejected
  delay : {k : Kind} → is_reversal k ≡ true → Edge k pending pending_reference
  settle_late : {k : Kind} → Edge k pending_reference processed
  refuse_late : {k : Kind} → Edge k pending_reference rejected
  retry : {k : Kind} → Edge k pending_reference pending_reference
  give_up : {k : Kind} → Edge k pending_reference failed

-- What no call may change.
pub record SameOperation (t u : Transaction) : Type 0 where
  pub id : t.id ≡ u.id
  pub origin : t.origin ≡ u.origin
  pub kind : t.kind ≡ u.kind
  pub wallet : t.wallet_id ≡ u.wallet_id
  pub player : t.player_id ≡ u.player_id
  pub amount : t.amount ≡ u.amount
  pub provider : t.provider_id ≡ u.provider_id
  pub external : t.external_transaction_id ≡ u.external_transaction_id
  pub key : t.idempotency_key ≡ u.idempotency_key
  pub payload : t.payload_hash ≡ u.payload_hash
  pub round : t.round_id ≡ u.round_id
  pub reference : t.reference_external_id ≡ u.reference_external_id
  pub created : t.created_at ≡ u.created_at

run-changed : (c : Call) (t : Transaction) → run c t ≡ after_checks (checks c t) t (changed c t)
unfolding mark_processed mark_rejected mark_pending_reference reschedule mark_failed
run-changed (processing b reference now) t = refl
run-changed (rejecting code b now) t = refl
run-changed (waiting next deadline now) t = refl
run-changed (rescheduling next now) t = refl
run-changed (failing now) t = refl

changed-SameOperation : (c : Call) (t : Transaction) → SameOperation t (changed c t)
unfolding as_processed as_rejected as_pending_reference as_rescheduled as_failed
changed-SameOperation (processing b reference now) t = ground arith
changed-SameOperation (rejecting code b now) t = ground arith
changed-SameOperation (waiting next deadline now) t = ground arith
changed-SameOperation (rescheduling next now) t = ground arith
changed-SameOperation (failing now) t = ground arith

from_open :
    (k : Kind) (s to : Status)
    → Edge k pending to
    → Edge k pending_reference to
    → (is_pending s || is_pending_reference s) ≡ true
    → Edge k s to
from_open k pending to a b h = a
from_open k pending_reference to a b h = b
from_open k processed to a b h = ground (arith, h)
from_open k rejected to a b h = ground (arith, h)
from_open k failed to a b h = ground (arith, h)
from_open k (Status.other _) to a b h = ground (arith, h)

from_pending : (k : Kind) (s to : Status) → Edge k pending to → is_pending s ≡ true → Edge k s to
from_pending k pending to a h = a
from_pending k pending_reference to a h = ground (arith, h)
from_pending k processed to a h = ground (arith, h)
from_pending k rejected to a h = ground (arith, h)
from_pending k failed to a h = ground (arith, h)
from_pending k (Status.other _) to a h = ground (arith, h)

is_waiting→eq : (s : Status) → is_pending_reference s ≡ true → s ≡ pending_reference
is_waiting→eq pending h = ground (arith, h)
is_waiting→eq pending_reference h = refl
is_waiting→eq processed h = ground (arith, h)
is_waiting→eq rejected h = ground (arith, h)
is_waiting→eq failed h = ground (arith, h)
is_waiting→eq (Status.other _) h = ground (arith, h)

from_waiting :
    (k : Kind) (s to : Status)
    → Edge k pending_reference to
    → is_pending_reference s ≡ true
    → Edge k s to
from_waiting k s to a h = subst (λ from. Edge k from to) (sym (is_waiting→eq s h)) a

processed-open :
    (b : Money) (reference : Uuid) (now : Instant) (t : Transaction)
    → check_processed b reference now t ≡ ok tt
    → (is_pending t.status || is_pending_reference t.status) ≡ true
unfolding check_processed can_settle
processed-open b reference now t h = ground arith

rejected-open :
    (code : FailureCode) (b : Money) (now : Instant) (t : Transaction)
    → check_rejected code b now t ≡ ok tt
    → (is_pending t.status || is_pending_reference t.status) ≡ true
unfolding check_rejected can_settle
rejected-open code b now t h = ground arith

waiting-pending :
    (next deadline now : Instant) (t : Transaction)
    → check_pending_reference next deadline now t ≡ ok tt
    → (is_pending t.status ≡ true) × (is_reversal t.kind ≡ true)
unfolding check_pending_reference
waiting-pending next deadline now t h = ground arith

rescheduling-waiting :
    (next now : Instant) (t : Transaction)
    → check_reschedule next now t ≡ ok tt
    → is_pending_reference t.status ≡ true
unfolding check_reschedule
rescheduling-waiting next now t h = ground arith

failing-waiting :
    (now : Instant) (t : Transaction)
    → check_failed now t ≡ ok tt
    → is_pending_reference t.status ≡ true
unfolding check_failed
failing-waiting now t h = ground arith

checks-Edge :
    (c : Call) (t : Transaction) → checks c t ≡ ok tt → Edge t.kind t.status ((changed c t).status)
unfolding as_processed as_rejected as_pending_reference as_rescheduled as_failed
checks-Edge (processing b reference now) t h =
    from_open t.kind t.status processed settle settle_late (processed-open b reference now t h)
checks-Edge (rejecting code b now) t h =
    from_open t.kind t.status rejected refuse refuse_late (rejected-open code b now t h)
checks-Edge (waiting next deadline now) t h =
    let (fresh, reversal) = waiting-pending next deadline now t h in
    from_pending t.kind t.status pending_reference (delay reversal) fresh
checks-Edge (rescheduling next now) t h =
    let still = is_waiting→eq t.status (rescheduling-waiting next now t h) in
    subst₂ (Edge t.kind) (sym still) (sym still) retry
checks-Edge (failing now) t h =
    from_waiting t.kind t.status failed give_up (failing-waiting now t h)

-- A call that succeeds moves the operation along an edge of the life cycle and changes nothing that
-- identifies it; a call that fails leaves the whole operation as it was.
pub run_lem :
    (c : Call) (t : Transaction)
    → ((run c t).0 ≡ ok tt
        → Edge t.kind t.status ((run c t).1.status) × SameOperation t ((run c t).1))
      × ((e : Failure) → (run c t).0 ≡ err e → (run c t).1 ≡ t)
run_lem c t = rw (run-changed c t) elim (Result-cases (checks c t)) [
  | inl (a, h) ↦ rw h (λ _. (checks-Edge c t h, changed-SameOperation c t), λ e bad. cc)
  | inr (e, h) ↦ rw h (λ bad. cc, λ _ _. refl)
]

Edge-live : (k : Kind) (s to : Status) → Edge k s to → is_terminal s ≡ false
Edge-live k _ _ settle = refl
Edge-live k _ _ refuse = refl
Edge-live k _ _ (delay _) = refl
Edge-live k _ _ settle_late = refl
Edge-live k _ _ refuse_late = refl
Edge-live k _ _ retry = refl
Edge-live k _ _ give_up = refl

run-terminal : (c : Call) (t : Transaction) → is_terminal t.status ≡ true → (run c t).1 ≡ t
run-terminal c t h = rw (run-changed c t) elim (Result-cases (checks c t)) [
  | inl (a, good) ↦
      ground (arith, h, Edge-live t.kind t.status ((changed c t).status) (checks-Edge c t good))
  | inr (e, bad) ↦ rw bad refl
]

-- Once its status is terminal an operation is never changed again: any sequence of calls leaves it
-- exactly as it was.
pub run_all-terminal :
    (cs : List Call) (t : Transaction) → is_terminal t.status ≡ true → run_all cs t ≡ t
run_all-terminal [] t h = refl
run_all-terminal (c ∷ cs) t h = rw (run-terminal c t h) (run_all-terminal cs t h)
