-- ===== src/Wagering/Snapshot/Stored.antt =====
-- Operations that can be stored and loaded again, and the transitions that keep them so.
use mathlib.Core.Path.{subst}
use wagering_wallet_service.Base.{
  ◌==◌, ok, is_nil, is_unset, pos, ltb_ℤ, is_empty, ◌≡◌, refl, true, false, not, ◌&&◌, ◌||◌, arith,
}
use wagering_wallet_service.Wagering.Kind.{
  is_kind, is_origin, is_status, is_terminal, is_no_code, is_pending_reference, is_reversal,
  forbids_reference, is_failure_code,
}
use wagering_wallet_service.Wagering.Transaction.{Transaction}
use wagering_wallet_service.Wagering.Snapshot.{
  Snapshot, check_snapshot, validate_origin, validate_schedule, validate_result, validate,
  transaction_of, rehydrate,
}

-- What the getters of an operation show, and the columns hold.
unfoldable pub snapshot_of : Transaction → Snapshot
snapshot_of t = record {
  id = t.id;
  origin = t.origin;
  kind = t.kind;
  status = t.status;
  wallet_id = t.wallet_id;
  player_id = t.player_id;
  amount = t.amount;
  provider_id = t.provider_id;
  external_transaction_id = t.external_transaction_id;
  idempotency_key = t.idempotency_key;
  payload_hash = t.payload_hash;
  round_id = t.round_id;
  game_id = t.game_id;
  reference_external_id = t.reference_external_id;
  reference_transaction_id = t.reference_transaction_id;
  failure_code = t.failure_code;
  result_balance = t.result_balance;
  reference_attempts = t.reference_attempts;
  next_attempt_at = t.next_attempt_at;
  reference_deadline_at = t.reference_deadline_at;
  correlation_id = t.correlation_id;
  created_at = t.created_at;
  updated_at = t.updated_at;
  completed_at = t.completed_at;
}

-- The identity of an operation, as `Rehydrate` checks it.
pub record Shaped (t : Transaction) : Type 0 where
  pub id_given : is_nil t.id ≡ false
  pub wallet_given : is_nil t.wallet_id ≡ false
  pub player_given : is_nil t.player_id ≡ false
  pub origin_known : is_origin t.origin ≡ true
  pub kind_known : is_kind t.kind ≡ true
  pub status_known : is_status t.status ≡ true
  pub code_known : (not (is_no_code t.failure_code) && not (is_failure_code t.failure_code)) ≡ false
  pub created : is_unset t.created_at ≡ false
  pub updated : is_unset t.updated_at ≡ false

-- The reference and the times: an operation is completed exactly when its status is terminal, and it
-- has a next attempt and a deadline exactly while it waits for its reference.
pub record Scheduled (t : Transaction) : Type 0 where
  pub attempts : ltb_ℤ t.reference_attempts (pos 0) ≡ false
  pub not_self : (t.reference_transaction_id == t.id) ≡ false
  pub allowed :
      (not (is_nil t.reference_transaction_id)
        && (forbids_reference t.kind || is_empty t.reference_external_id))
      ≡ false
  pub completed : is_unset t.completed_at ≡ not (is_terminal t.status)
  pub next_set : is_unset t.next_attempt_at ≡ not (is_pending_reference t.status)
  pub deadline_set : is_unset t.reference_deadline_at ≡ not (is_pending_reference t.status)
  pub reversal : is_pending_reference t.status ≡ true → is_reversal t.kind ≡ true

-- An operation that `Rehydrate` accepts from its own snapshot.
pub record IsStorable (t : Transaction) : Type 0 where
  pub shaped : Shaped t
  pub scheduled : Scheduled t
  pub origin : validate_origin (snapshot_of t) ≡ ok tt
  pub result : validate_result (snapshot_of t) ≡ ok tt

check_snapshot-Shaped : (t : Transaction) → Shaped t → check_snapshot (snapshot_of t) ≡ ok tt
unfolding check_snapshot snapshot_of
check_snapshot-Shaped t h = ground (arith, h.id_given)

validate_schedule-Scheduled :
    (t : Transaction) → Scheduled t → validate_schedule (snapshot_of t) ≡ ok tt
unfolding validate_schedule snapshot_of
validate_schedule-Scheduled t h = ground (arith, h.reversal)

-- A storable operation is loaded from its snapshot exactly as it was stored.
pub rehydrate-snapshot_of : (t : Transaction) → IsStorable t → rehydrate (snapshot_of t) ≡ ok t
unfolding rehydrate validate
rehydrate-snapshot_of t h =
    rw
      (
        check_snapshot-Shaped t h.shaped,
        h.origin,
        validate_schedule-Scheduled t h.scheduled,
        h.result,
      )
      (unfold snapshot_of transaction_of in refl)

Shaped-check_snapshot : (t : Transaction) → check_snapshot (snapshot_of t) ≡ ok tt → Shaped t
unfolding check_snapshot snapshot_of
Shaped-check_snapshot t h = ground arith

Scheduled-validate_schedule :
    (t : Transaction) → validate_schedule (snapshot_of t) ≡ ok tt → Scheduled t
unfolding validate_schedule snapshot_of
Scheduled-validate_schedule t h = ground arith

check_snapshot-cases :
    (s : Snapshot) {t : Transaction}
    → rehydrate s ≡ ok t
    → (check_snapshot s ≡ ok tt)
      × (validate_origin s ≡ ok tt)
      × (validate_schedule s ≡ ok tt)
      × (validate_result s ≡ ok tt)
      × (transaction_of s ≡ t)
unfolding rehydrate validate
check_snapshot-cases s h = ground arith

-- `Rehydrate` keeps every column, and what it accepts is storable.
pub rehydrate-ok :
    (s : Snapshot) {t : Transaction} → rehydrate s ≡ ok t → (snapshot_of t ≡ s) × IsStorable t
unfolding transaction_of snapshot_of
rehydrate-ok s {t} h =
    let (shaped, origin, schedule, result, same) = check_snapshot-cases s h in
    subst (λ u. (snapshot_of u ≡ s) × IsStorable u) same
      (
        refl,
        record {
          shaped = Shaped-check_snapshot (transaction_of s) shaped;
          scheduled = Scheduled-validate_schedule (transaction_of s) schedule;
          origin = origin;
          result = result;
        },
      )
