-- ===== src/Wagering/Decision.antt =====
-- What to do with an operation: internal/domain/wagering/decision.go. A pointer is an option.
pub mod Grounds
pub mod Rules
pub mod Amount
use wagering_wallet_service.Base.{
  ◌==◌, if◌then◌else◌, MoneyError, WageringError, Result, ◌>>=◌, ◌>>◌, refuse_if, of_money,
  of_wagering, ok, err, Uuid, nil_uuid, Instant, is_unset, before, pos, ltb_ℤ, is_empty, ◌⊎◌, inl,
  inr, Bool, true, false, not, ◌&&◌, ◌||◌, Option, none, some, str_eq,
}
use wagering_wallet_service.Money
use wagering_wallet_service.Money.{Money, no_money, currency_eq, equal}
use wagering_wallet_service.Wallet.{
  Wallet, Direction, debit, credit, unknown, owned_by, is_direction,
}
use wagering_wallet_service.Wagering.Kind.{
  Kind, bet, win, loss, refund, rollback, pending, pending_reference, rejected, failed, FailureCode,
  no_code, reference_not_found, reference_not_processed, reference_mismatch,
  reference_kind_not_allowed, already_reversed, currency_mismatch, wallet_player_mismatch,
  insufficient_funds, reversal_insufficient_funds, balance_limit_exceeded, is_bet,
}
use wagering_wallet_service.Wagering.Transaction.{Transaction}

-- The three outcomes; `none` is the zero value of `Decision{}`, which no successful call returns.
pub data Outcome : Type 0 where
  process_now reject_now wait_reference : Outcome

pub record Movement : Type 0 where
  pub direction : Direction
  pub amount : Money

-- The zero value `Movement{}`, and `Present`.
abbrev pub no_movement : Movement
no_movement = record { direction = unknown ""; amount = no_money }

abbrev pub is_present : Movement → Bool
is_present m = is_direction m.direction

pub record Decision : Type 0 where
  pub outcome : Outcome
  pub movement : Movement
  pub failure_code : FailureCode
  pub reference_id : Uuid

pub record Reference : Type 0 where
  pub transaction : Option Transaction
  pub already_reversed : Bool

abbrev pub process : Direction → Money → Uuid → Decision
process direction amount reference_id = record {
  outcome = process_now;
  movement = record { direction = direction; amount = amount };
  failure_code = no_code;
  reference_id = reference_id;
}

abbrev pub reject : FailureCode → Decision
reject code = record {
  outcome = reject_now;
  movement = no_movement;
  failure_code = code;
  reference_id = nil_uuid;
}

-- `Decision{Outcome: OutcomeProcess}` and `Decision{Outcome: OutcomeWaitReference}`
abbrev pub process_nothing : Decision
process_nothing = record {
  outcome = process_now;
  movement = no_movement;
  failure_code = no_code;
  reference_id = nil_uuid;
}

abbrev pub wait : Decision
wait = record {
  outcome = wait_reference;
  movement = no_movement;
  failure_code = no_code;
  reference_id = nil_uuid;
}

abbrev pub reversible : Kind → Kind → Bool
reversible refund bet = true
reversible rollback bet = true
reversible rollback win = true
reversible rollback refund = true
reversible _ _ = false

abbrev pub reversal_direction : Kind → Kind → Direction
reversal_direction refund _ = credit
reversal_direction _ bet = credit
reversal_direction _ _ = debit

unfoldable pub same_round : Transaction → Transaction → Bool
same_round operation original =
    str_eq operation.provider_id original.provider_id
    && operation.player_id == original.player_id
    && operation.wallet_id == original.wallet_id
    && str_eq operation.round_id original.round_id
    && currency_eq operation.amount.currency original.amount.currency

abbrev pub deadline_reached : Transaction → Instant → Bool
deadline_reached operation now =
    not (is_unset operation.reference_deadline_at)
    && not (before now operation.reference_deadline_at)

-- `reference == nil || reference.Transaction == nil`, or the transaction.
abbrev pub referenced : Option Reference → Option (Transaction × Bool)
referenced none = none
referenced (some r) = elim r.transaction [
  | none ↦ none
  | some original ↦ some (original, r.already_reversed)
]

-- The test of the balance before a debit: `Cmp`, then the code for a balance that is too small.
unfoldable pub decide_debit : Wallet → Transaction → FailureCode → Decision → Result Decision
decide_debit account operation code decision = do
  affordable ← Money.cmp account.balance operation.amount
  ok (if ltb_ℤ affordable (pos 0) then reject code else decision)

-- The test before a credit: only an overflow is a rejection.
unfoldable pub decide_credit : Wallet → Transaction → Decision → Result Decision
decide_credit account operation decision = elim (Money.add account.balance operation.amount) [
  | ok _ ↦ ok decision
  | err (of_money MoneyError.overflow) ↦ ok (reject balance_limit_exceeded)
  | err e ↦ err e
]

unfoldable pub decide_bet : Wallet → Transaction → Result Decision
unfolding decide_debit
decide_bet account operation =
    decide_debit account operation insufficient_funds (process debit operation.amount nil_uuid)

-- The reference of a win: its id, or the code of the rejection.
unfoldable pub resolve_win : Transaction → Option Reference → FailureCode ⊎ Uuid
unfolding same_round
resolve_win operation reference =
    if is_empty operation.reference_external_id then inr nil_uuid else elim (referenced reference) [
      | none ↦ inr nil_uuid
      | some (original, _) ↦
          if not (is_bet original.kind)
          then inl reference_kind_not_allowed
          else if not (same_round operation original)
          then inl reference_mismatch
          else inr original.id
    ]

unfoldable pub decide_win : Wallet → Transaction → Option Reference → Result Decision
unfolding resolve_win decide_credit
decide_win account operation reference = elim (resolve_win operation reference) [
  | inl code ↦ ok (reject code)
  | inr resolved ↦ decide_credit account operation (process credit operation.amount resolved)
]

-- The last test of a reversal, for the side that it moves.
unfoldable pub decide_side : Wallet → Transaction → Uuid → Direction → Result Decision
unfolding decide_debit decide_credit
decide_side account operation id debit =
    decide_debit account operation reversal_insufficient_funds (process debit operation.amount id)
decide_side account operation id direction =
    decide_credit account operation (process direction operation.amount id)

-- The end of `decideReversal`, for an original that is settled.
unfoldable pub decide_settled : Wallet → Transaction → Transaction → Bool → Result Decision
unfolding decide_side
decide_settled account operation original reversed =
    if not (reversible operation.kind original.kind)
    then ok (reject reference_kind_not_allowed)
    else if not (same_round operation original) || not (equal operation.amount original.amount)
    then ok (reject reference_mismatch)
    else if reversed
    then ok (reject already_reversed)
    else decide_side account operation original.id (reversal_direction operation.kind original.kind)

-- A reversal whose original is not there yet: wait for it until the deadline.
unfoldable pub wait_or_reject : Transaction → Instant → FailureCode → Result Decision
wait_or_reject operation now code =
    ok (if deadline_reached operation now then reject code else wait)

unfoldable pub decide_reversal : Wallet → Transaction → Option Reference → Instant → Result Decision
unfolding decide_settled wait_or_reject
decide_reversal account operation reference now = elim (referenced reference) [
  | none ↦ wait_or_reject operation now reference_not_found
  | some (original, reversed) ↦ elim original.status [
    | pending ↦ wait_or_reject operation now reference_not_processed
    | pending_reference ↦ wait_or_reject operation now reference_not_processed
    | rejected ↦ ok (reject reference_not_processed)
    | failed ↦ ok (reject reference_not_processed)
    | _ ↦ decide_settled account operation original reversed
  ]
]

-- The switch over the kind of the operation.
unfoldable pub decide_kind :
    Kind → Wallet → Transaction → Option Reference → Instant → Result Decision
unfolding decide_bet decide_win decide_reversal
decide_kind bet account operation reference now = decide_bet account operation
decide_kind win account operation reference now = decide_win account operation reference
decide_kind loss account operation reference now = ok process_nothing
decide_kind refund account operation reference now = decide_reversal account operation reference now
decide_kind rollback account operation reference now =
    decide_reversal account operation reference now
decide_kind _ account operation reference now = err (of_wagering WageringError.invalid_kind)

-- `Decide`
unfoldable pub decide :
    Option Wallet → Option Transaction → Option Reference → Instant → Result Decision
unfolding decide_kind
decide (some account) (some operation) reference now = do
  refuse_if (not (account.id == operation.wallet_id)) (of_wagering WageringError.missing_identifier)
  (if not (owned_by account operation.player_id)
      then ok (reject wallet_player_mismatch)
      else if not (currency_eq operation.amount.currency account.balance.currency)
      then ok (reject currency_mismatch)
      else decide_kind operation.kind account operation reference now)
decide _ _ _ _ = err (of_wagering WageringError.missing_identifier)
