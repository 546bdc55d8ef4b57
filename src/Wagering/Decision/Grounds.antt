-- ===== src/Wagering/Decision/Grounds.antt =====
-- The circumstances that justify each decision.
use wagering_wallet_service.Base.{
  ◌⊎◌, ◌==◌, Result, ok, Uuid, nil_uuid, is_nil, Instant, pos, ◌≤ℤ◌, ◌<ℤ◌, InInt64, in_int64, ◌+ℤ◌,
  is_empty, ◌≡◌, sym, ◌∙◌, ◌≢◌, Bool, true, false, Option, none, some, arith,
}
use wagering_wallet_service.Money.{currency_eq, is_valid, equal}
use wagering_wallet_service.Wallet.{Wallet, Direction, debit, credit}
use wagering_wallet_service.Wallet.Movement.{IsValid}
use wagering_wallet_service.Wagering.Kind.{
  is_bet, bet, win, loss, pending, pending_reference, rejected, failed, FailureCode,
  is_external_kind, is_reversal, is_loss, is_terminal, forbids_reference,
}
use wagering_wallet_service.Wagering.Transaction.{Transaction, check_external, check_amount_policy}
use wagering_wallet_service.Wagering.Snapshot.{command_of}
use wagering_wallet_service.Wagering.Snapshot.Stored.{IsStorable, snapshot_of}
use wagering_wallet_service.Wagering.Snapshot.Open.{IsOpen-IsStorable, validate_origin-external}
use wagering_wallet_service.Wagering.Decision.{
  already_reversed, reference_mismatch, reference_kind_not_allowed, reference_not_processed,
  reference_not_found, balance_limit_exceeded, reversal_insufficient_funds, wallet_player_mismatch,
  owned_by, Reference, Decision, process, reject, process_nothing, wait, reversible,
  reversal_direction, same_round, deadline_reached, referenced,
}

-- A balance and an operation that the use cases bring to `Decide`.
pub record Case (account : Wallet) (operation : Transaction) (reference : Option Reference)
    : Type 0 where
  pub wallet : IsValid account
  pub storable : IsStorable operation
  pub live : is_terminal operation.status ≡ false
  pub fits : InInt64 operation.amount.minor
  pub same_wallet : (account.id == operation.wallet_id) ≡ true
  -- The referenced operation has an id, and only the operation itself has its own.
  pub original :
      (t : Transaction) (reversed : Bool)
      → referenced reference ≡ some (t, reversed)
      → (is_nil t.id ≡ false) × ((t.id == operation.id) ≡ true → t ≡ operation)

-- What `NewExternal` made sure of.
pub record IsExternal (t : Transaction) : Type 0 where
  pub kind : is_external_kind t.kind ≡ true
  pub amount_known : is_valid t.amount ≡ true
  pub amount_positive : is_loss t.kind ≡ false → pos 0 <ℤ t.amount.minor
  pub required : is_reversal t.kind ≡ true → is_empty t.reference_external_id ≡ false
  pub allowed : forbids_reference t.kind ≡ true → is_empty t.reference_external_id ≡ true
  pub wallet_given : is_nil t.wallet_id ≡ false
  pub id_given : is_nil t.id ≡ false

IsExternal-checks :
    (t : Transaction)
    → check_external (command_of (snapshot_of t)) t.id t.created_at ≡ ok tt
    → IsExternal t
unfolding check_external check_amount_policy command_of snapshot_of
IsExternal-checks t h = ground arith

pub IsExternal-open : (t : Transaction) → IsStorable t → is_terminal t.status ≡ false → IsExternal t
unfolding snapshot_of
IsExternal-open t s live = IsExternal-checks t (
    sym (validate_origin-external (snapshot_of t) (IsOpen-IsStorable t s live).external) ∙ s.origin)

-- The reference that a processed operation is linked to: none, or the settled original.
pub data Linked (operation : Transaction) (reference : Option Reference) : Uuid → Type 0 where
  unlinked : is_reversal operation.kind ≡ false → Linked operation reference nil_uuid
  rewards :
      (t : Transaction) (reversed : Bool)
      → referenced reference ≡ some (t, reversed)
      → operation.kind ≡ win
      → t.kind ≡ bet
      → same_round operation t ≡ true
      → is_empty operation.reference_external_id ≡ false
      → Linked operation reference t.id
  reverses :
      (t : Transaction)
      → referenced reference ≡ some (t, false)
      → is_reversal operation.kind ≡ true
      → reversible operation.kind t.kind ≡ true
      → same_round operation t ≡ true
      → equal operation.amount t.amount ≡ true
      → t.status ≢ pending
      → t.status ≢ pending_reference
      → t.status ≢ rejected
      → t.status ≢ failed
      → Linked operation reference t.id

-- The side that the operation moves: a bet is paid, a win is received, a reversal does the opposite of
-- its original.
pub data Side (operation : Transaction) (reference : Option Reference) : Direction → Type 0 where
  pays : operation.kind ≡ bet → Side operation reference debit
  receives : operation.kind ≡ win → Side operation reference credit
  gives_back :
      (t : Transaction) (reversed : Bool)
      → referenced reference ≡ some (t, reversed)
      → is_reversal operation.kind ≡ true
      → Side operation reference (reversal_direction operation.kind t.kind)

-- The original of a reversal is missing, or is itself not settled yet.
pub data Unsettled (reference : Option Reference) : Type 0 where
  missing : referenced reference ≡ none → Unsettled reference
  still_pending :
      (t : Transaction) (reversed : Bool)
      → referenced reference ≡ some (t, reversed)
      → is_terminal t.status ≡ false
      → Unsettled reference

-- What each code of a rejection tells of the wallet, the operation and its reference.
pub data Reason (account : Wallet) (operation : Transaction) (reference : Option Reference)
    (now : Instant) : FailureCode → Type 0 where
  stranger :
      owned_by account operation.player_id ≡ false
      → Reason account operation reference now wallet_player_mismatch
  foreign :
      currency_eq operation.amount.currency account.balance.currency ≡ false
      → Reason account operation reference now FailureCode.currency_mismatch
  short_bet :
      operation.kind ≡ bet
      → account.balance.minor <ℤ operation.amount.minor
      → Reason account operation reference now FailureCode.insufficient_funds
  short_reversal :
      is_reversal operation.kind ≡ true
      → Side operation reference debit
      → account.balance.minor <ℤ operation.amount.minor
      → Reason account operation reference now reversal_insufficient_funds
  over_limit :
      Side operation reference credit
      → in_int64 (account.balance.minor +ℤ operation.amount.minor) ≡ false
      → Reason account operation reference now balance_limit_exceeded
  never_came :
      is_reversal operation.kind ≡ true
      → referenced reference ≡ none
      → deadline_reached operation now ≡ true
      → Reason account operation reference now reference_not_found
  never_settled :
      (t : Transaction) (reversed : Bool)
      → is_reversal operation.kind ≡ true
      → referenced reference ≡ some (t, reversed)
      → is_terminal t.status ≡ false
      → deadline_reached operation now ≡ true
      → Reason account operation reference now reference_not_processed
  not_processed :
      (t : Transaction) (reversed : Bool)
      → is_reversal operation.kind ≡ true
      → referenced reference ≡ some (t, reversed)
      → (t.status ≡ rejected) ⊎ (t.status ≡ failed)
      → Reason account operation reference now reference_not_processed
  rewards_other :
      (t : Transaction) (reversed : Bool)
      → operation.kind ≡ win
      → referenced reference ≡ some (t, reversed)
      → is_bet t.kind ≡ false
      → Reason account operation reference now reference_kind_not_allowed
  irreversible :
      (t : Transaction) (reversed : Bool)
      → is_reversal operation.kind ≡ true
      → referenced reference ≡ some (t, reversed)
      → reversible operation.kind t.kind ≡ false
      → Reason account operation reference now reference_kind_not_allowed
  other_round :
      (t : Transaction) (reversed : Bool)
      → referenced reference ≡ some (t, reversed)
      → same_round operation t ≡ false
      → Reason account operation reference now reference_mismatch
  other_amount :
      (t : Transaction) (reversed : Bool)
      → is_reversal operation.kind ≡ true
      → referenced reference ≡ some (t, reversed)
      → equal operation.amount t.amount ≡ false
      → Reason account operation reference now reference_mismatch
  reversed_before :
      (t : Transaction)
      → is_reversal operation.kind ≡ true
      → referenced reference ≡ some (t, true)
      → Reason account operation reference now already_reversed

-- The decisions, each with what justifies it.
pub data Grounded (account : Wallet) (operation : Transaction) (reference : Option Reference)
    (now : Instant) : Decision → Type 0 where
  nothing_to_move : operation.kind ≡ loss → Grounded account operation reference now process_nothing
  debits :
      (id : Uuid)
      → Side operation reference debit
      → Linked operation reference id
      → operation.amount.minor ≤ℤ account.balance.minor
      → owned_by account operation.player_id ≡ true
      → currency_eq operation.amount.currency account.balance.currency ≡ true
      → Grounded account operation reference now (process debit operation.amount id)
  credits :
      (id : Uuid)
      → Side operation reference credit
      → Linked operation reference id
      → in_int64 (account.balance.minor +ℤ operation.amount.minor) ≡ true
      → owned_by account operation.player_id ≡ true
      → currency_eq operation.amount.currency account.balance.currency ≡ true
      → Grounded account operation reference now (process credit operation.amount id)
  rejects :
      (code : FailureCode)
      → Reason account operation reference now code
      → Grounded account operation reference now (reject code)
  waits :
      is_reversal operation.kind ≡ true
      → Unsettled reference
      → deadline_reached operation now ≡ false
      → Grounded account operation reference now wait

-- `m` is a decision that is justified.
abbrev pub Justified : Wallet → Transaction → Option Reference → Instant → Result Decision → Type 0
Justified account operation reference now m =
    (d : Decision) × (m ≡ ok d) × Grounded account operation reference now d
