-- ===== src/Usecase/Events.antt =====
-- The events of a settlement, written to the outbox:
-- internal/application/usecase/settlement_events.go.
pub mod Keeps
use wagering_wallet_service.Base.{
  Result, Uuid, Instant, ℕ, String, Option, none, some, List, [], ◌∷◌,
}
use wagering_wallet_service.Money.{Money}
use wagering_wallet_service.Wallet.{LedgerEntry}
use wagering_wallet_service.Wagering.Kind.{Status, processed, rejected, pending_reference}
use wagering_wallet_service.Wagering.Transaction.{Transaction}
use wagering_wallet_service.Event.{
  Envelope, new_processed, new_rejected, new_balance_changed, new_pending_reference,
}
use wagering_wallet_service.Messaging.{new_outbox_event}
use wagering_wallet_service.Store.{Tx, ◌>>=◌, ◌>>◌, return, pure_result, new_id}
use wagering_wallet_service.Store.Outbox

module _ (uuid_text : Uuid → String) (marshal : Envelope → Result (List ℕ)) (ids : ℕ → Uuid) where
  -- The second envelope of a processed operation, for one that moved the balance.
  unfoldable pub movement_envelopes : Transaction → Option LedgerEntry → Tx (List Envelope)
  movement_envelopes operation none = return []
  movement_envelopes operation (some entry) = do
    key ← new_id ids
    changed ← pure_result (new_balance_changed uuid_text key operation entry)
    return (changed ∷ [])

  -- The envelopes, by the status of the operation.
  unfoldable pub envelopes_for :
      Status → Transaction → Option LedgerEntry → Money → Tx (List Envelope)
  unfolding movement_envelopes
  envelopes_for processed operation entry balance = do
    key ← new_id ids
    settled ← pure_result (new_processed uuid_text key operation balance)
    rest ← movement_envelopes operation entry
    return (settled ∷ rest)
  envelopes_for rejected operation entry balance = do
    key ← new_id ids
    refused ← pure_result (new_rejected uuid_text key operation balance)
    return (refused ∷ [])
  envelopes_for pending_reference operation entry balance = do
    key ← new_id ids
    parked ← pure_result (new_pending_reference uuid_text key operation)
    return (parked ∷ [])
  envelopes_for _ operation entry balance = return []

  -- The loop over the envelopes.
  unfoldable pub append_all : Uuid → Instant → List Envelope → Tx (Unit {0})
  append_all wallet_id now [] = return tt
  append_all wallet_id now (envelope ∷ envelopes) =
      let rest = append_all wallet_id now envelopes in
      do
        outbox_event ← pure_result (new_outbox_event uuid_text marshal envelope wallet_id now)
        Outbox.append outbox_event
        rest

  -- `appendSettlementEvents`
  unfoldable pub append_settlement_events :
      Instant → Transaction → Option LedgerEntry → Money → Tx (Unit {0})
  unfolding envelopes_for append_all
  append_settlement_events now operation entry balance = do
    envelopes ← envelopes_for operation.status operation entry balance
    append_all operation.wallet_id now envelopes
