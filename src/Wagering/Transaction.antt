-- ===== src/Wagering/Transaction.antt =====
-- The operation's state and its transitions: internal/domain/wagering/transaction.go. A method that
-- mutates `*Transaction` returns its error and the transaction after the call.
pub mod Lifecycle
use wagering_wallet_service.Base.{
  ◌||◌, ◌==◌, if◌then◌else◌, MoneyError, WageringError, Result, ◌>>=◌, ◌>>◌, refuse_if,
  after_checks, of_money, of_wagering, ok, Uuid, nil_uuid, is_nil, Instant, no_time, is_unset, ℤ,
  pos, ◌+ℤ◌, wrap64, is_empty, is_blank, is_payload_hash, String, Bool, false, not, ◌&&◌, List, [],
  ◌∷◌,
}
use wagering_wallet_service.Money.{
  Money, no_money, is_zero, is_negative, is_positive, is_valid, currency_eq,
}
use wagering_wallet_service.Wagering.Kind.{
  Kind, opening, Status, pending, pending_reference, processed, rejected, failed, Origin, internal,
  FailureCode, no_code, permanent_failure, is_external_kind, is_reversal, requires_reference,
  forbids_reference, is_external_origin, is_failure_code, is_permanent, is_loss, is_pending,
  is_pending_reference,
}

pub record Transaction : Type 0 where
  pub id : Uuid
  pub origin : Origin
  pub kind : Kind
  pub status : Status
  pub wallet_id : Uuid
  pub player_id : Uuid
  pub amount : Money
  pub provider_id : String
  pub external_transaction_id : String
  pub idempotency_key : String
  pub payload_hash : String
  pub round_id : String
  pub game_id : String
  pub reference_external_id : String
  pub reference_transaction_id : Uuid
  pub failure_code : FailureCode
  pub result_balance : Money
  pub reference_attempts : ℤ  -- int
  pub next_attempt_at : Instant
  pub reference_deadline_at : Instant
  pub correlation_id : String
  pub created_at : Instant
  pub updated_at : Instant
  pub completed_at : Instant

pub record Command : Type 0 where
  pub origin : Origin
  pub kind : Kind
  pub provider_id : String
  pub external_transaction_id : String
  pub idempotency_key : String
  pub payload_hash : String
  pub player_id : Uuid
  pub wallet_id : Uuid
  pub round_id : String
  pub game_id : String
  pub amount : Money
  pub reference_external_id : String
  pub correlation_id : String

unfoldable pub check_amount_policy : Kind → Money → Result (Unit {0})
check_amount_policy kind amount = do
  refuse_if (not (is_valid amount)) (of_money MoneyError.invalid_currency)
  refuse_if (if is_loss kind then not (is_zero amount) else not (is_positive amount))
      (of_wagering WageringError.invalid_amount)

-- The loop over the required texts.
abbrev pub some_blank : List String → Bool
some_blank [] = false
some_blank (field ∷ fields) = is_blank field || some_blank fields

-- The checks of `NewExternal`, in order.
unfoldable pub check_external : Command → Uuid → Instant → Result (Unit {0})
check_external c id now = do
  refuse_if (is_nil id || is_nil c.wallet_id || is_nil c.player_id)
      (of_wagering WageringError.missing_identifier)
  refuse_if (is_unset now) (of_wagering WageringError.missing_timestamp)
  refuse_if (not (is_external_origin c.origin)) (of_wagering WageringError.invalid_origin)
  refuse_if (not (is_external_kind c.kind)) (of_wagering WageringError.invalid_kind)
  refuse_if
      (some_blank (
        c.provider_id ∷ c.external_transaction_id ∷ c.idempotency_key ∷ c.round_id ∷ c.game_id
        ∷ c.correlation_id ∷ []))
      (of_wagering WageringError.missing_field)
  refuse_if (not (is_payload_hash c.payload_hash)) (of_wagering WageringError.invalid_payload_hash)
  check_amount_policy c.kind c.amount
  refuse_if (requires_reference c.kind && is_empty c.reference_external_id)
      (of_wagering WageringError.reference_required)
  refuse_if (forbids_reference c.kind && not (is_empty c.reference_external_id))
      (of_wagering WageringError.reference_forbidden)

-- The transaction that `NewExternal` returns.
unfoldable pub external_transaction : Command → Uuid → Instant → Transaction
external_transaction c id now = record {
  id = id;
  origin = c.origin;
  kind = c.kind;
  status = pending;
  wallet_id = c.wallet_id;
  player_id = c.player_id;
  amount = c.amount;
  provider_id = c.provider_id;
  external_transaction_id = c.external_transaction_id;
  idempotency_key = c.idempotency_key;
  payload_hash = c.payload_hash;
  round_id = c.round_id;
  game_id = c.game_id;
  reference_external_id = c.reference_external_id;
  reference_transaction_id = nil_uuid;
  failure_code = no_code;
  result_balance = no_money;
  reference_attempts = pos 0;
  next_attempt_at = no_time;
  reference_deadline_at = no_time;
  correlation_id = c.correlation_id;
  created_at = now;
  updated_at = now;
  completed_at = no_time;
}

unfoldable pub new_external : Command → Uuid → Instant → Result Transaction
new_external c id now = do check_external c id now; ok (external_transaction c id now)

-- The checks of `NewOpening`, in order.
unfoldable pub check_opening : Uuid → Uuid → Uuid → Money → String → Instant → Result (Unit {0})
check_opening id wallet_id player_id amount correlation_id now = do
  refuse_if (is_nil id || is_nil wallet_id || is_nil player_id)
      (of_wagering WageringError.missing_identifier)
  refuse_if (is_unset now) (of_wagering WageringError.missing_timestamp)
  refuse_if (is_blank correlation_id) (of_wagering WageringError.missing_field)
  refuse_if (not (is_valid amount) || not (is_positive amount))
      (of_wagering WageringError.invalid_amount)

unfoldable pub opening_transaction : Uuid → Uuid → Uuid → Money → String → Instant → Transaction
opening_transaction id wallet_id player_id amount correlation_id now = record {
  id = id;
  origin = internal;
  kind = opening;
  status = processed;
  wallet_id = wallet_id;
  player_id = player_id;
  amount = amount;
  provider_id = "";
  external_transaction_id = "";
  idempotency_key = "";
  payload_hash = "";
  round_id = "";
  game_id = "";
  reference_external_id = "";
  reference_transaction_id = nil_uuid;
  failure_code = no_code;
  result_balance = amount;
  reference_attempts = pos 0;
  next_attempt_at = no_time;
  reference_deadline_at = no_time;
  correlation_id = correlation_id;
  created_at = now;
  updated_at = now;
  completed_at = now;
}

unfoldable pub new_opening : Uuid → Uuid → Uuid → Money → String → Instant → Result Transaction
new_opening id wallet_id player_id amount correlation_id now = do
  check_opening id wallet_id player_id amount correlation_id now
  ok (opening_transaction id wallet_id player_id amount correlation_id now)

-- `canSettle`
unfoldable pub can_settle : Instant → Transaction → Result (Unit {0})
can_settle now t = do
  refuse_if (is_unset now) (of_wagering WageringError.missing_timestamp)
  refuse_if (not (is_pending t.status) && not (is_pending_reference t.status))
      (of_wagering WageringError.transition_not_allowed)

-- The checks of `MarkProcessed`.
unfoldable pub check_processed : Money → Uuid → Instant → Transaction → Result (Unit {0})
unfolding can_settle
check_processed result_balance reference now t = do
  can_settle now t
  refuse_if
      (not (is_valid result_balance)
        || is_negative result_balance
        || not (currency_eq result_balance.currency t.amount.currency))
      (of_wagering WageringError.invalid_amount)
  refuse_if (is_reversal t.kind && is_nil reference) (of_wagering WageringError.reference_required)
  refuse_if
      (reference == t.id
        || (not (is_nil reference)
            && (forbids_reference t.kind || is_empty t.reference_external_id)))
      (of_wagering WageringError.reference_forbidden)

-- Its assignments.
unfoldable pub as_processed : Money → Uuid → Instant → Transaction → Transaction
as_processed result_balance reference now t = record t {
  status = processed;
  result_balance = result_balance;
  reference_transaction_id = if is_nil reference then t.reference_transaction_id else reference;
  completed_at = now;
  updated_at = now;
  next_attempt_at = no_time;
  reference_deadline_at = no_time;
}

-- `MarkProcessed`
unfoldable pub mark_processed :
    Money → Uuid → Instant → Transaction → Result (Unit {0}) × Transaction
mark_processed result_balance reference now t =
    after_checks (check_processed result_balance reference now t) t
      (as_processed result_balance reference now t)

-- The checks of `MarkRejected`.
unfoldable pub check_rejected : FailureCode → Money → Instant → Transaction → Result (Unit {0})
unfolding can_settle
check_rejected code result_balance now t = do
  can_settle now t
  refuse_if (not (is_failure_code code) || is_permanent code)
      (of_wagering WageringError.invalid_failure_code)
  refuse_if (not (is_valid result_balance) || is_negative result_balance)
      (of_wagering WageringError.invalid_amount)

-- Its assignments.
unfoldable pub as_rejected : FailureCode → Money → Instant → Transaction → Transaction
as_rejected code result_balance now t = record t {
  status = rejected;
  failure_code = code;
  result_balance = result_balance;
  completed_at = now;
  updated_at = now;
  next_attempt_at = no_time;
  reference_deadline_at = no_time;
}

-- `MarkRejected`
unfoldable pub mark_rejected :
    FailureCode → Money → Instant → Transaction → Result (Unit {0}) × Transaction
mark_rejected code result_balance now t =
    after_checks (check_rejected code result_balance now t) t
      (as_rejected code result_balance now t)

-- The checks of `MarkPendingReference`.
unfoldable pub check_pending_reference :
    Instant → Instant → Instant → Transaction → Result (Unit {0})
check_pending_reference next_attempt_at deadline_at now t = do
  refuse_if (is_unset now || is_unset next_attempt_at || is_unset deadline_at)
      (of_wagering WageringError.missing_timestamp)
  refuse_if (not (is_pending t.status)) (of_wagering WageringError.transition_not_allowed)
  refuse_if (not (is_reversal t.kind)) (of_wagering WageringError.invalid_kind)

-- Its assignments.
unfoldable pub as_pending_reference : Instant → Instant → Instant → Transaction → Transaction
as_pending_reference next_attempt_at deadline_at now t = record t {
  status = pending_reference;
  next_attempt_at = next_attempt_at;
  reference_deadline_at = deadline_at;
  reference_attempts = pos 0;
  updated_at = now;
}

-- `MarkPendingReference`
unfoldable pub mark_pending_reference :
    Instant → Instant → Instant → Transaction → Result (Unit {0}) × Transaction
mark_pending_reference next_attempt_at deadline_at now t =
    after_checks (check_pending_reference next_attempt_at deadline_at now t) t
      (as_pending_reference next_attempt_at deadline_at now t)

-- The checks of `Reschedule`.
unfoldable pub check_reschedule : Instant → Instant → Transaction → Result (Unit {0})
check_reschedule next_attempt_at now t = do
  refuse_if (is_unset now || is_unset next_attempt_at) (of_wagering WageringError.missing_timestamp)
  refuse_if (not (is_pending_reference t.status)) (of_wagering WageringError.transition_not_allowed)

-- Its assignments.
unfoldable pub as_rescheduled : Instant → Instant → Transaction → Transaction
as_rescheduled next_attempt_at now t = record t {
  reference_attempts = wrap64 (t.reference_attempts +ℤ pos 1);
  next_attempt_at = next_attempt_at;
  updated_at = now;
}

-- `Reschedule`
unfoldable pub reschedule : Instant → Instant → Transaction → Result (Unit {0}) × Transaction
reschedule next_attempt_at now t =
    after_checks (check_reschedule next_attempt_at now t) t (as_rescheduled next_attempt_at now t)

-- The checks of `MarkFailed`.
unfoldable pub check_failed : Instant → Transaction → Result (Unit {0})
check_failed now t = do
  refuse_if (is_unset now) (of_wagering WageringError.missing_timestamp)
  refuse_if (not (is_pending_reference t.status)) (of_wagering WageringError.transition_not_allowed)

-- Its assignments.
unfoldable pub as_failed : Instant → Transaction → Transaction
as_failed now t = record t {
  status = failed;
  failure_code = permanent_failure;
  completed_at = now;
  updated_at = now;
  next_attempt_at = no_time;
  reference_deadline_at = no_time;
}

-- `MarkFailed`
unfoldable pub mark_failed : Instant → Transaction → Result (Unit {0}) × Transaction
mark_failed now t = after_checks (check_failed now t) t (as_failed now t)
