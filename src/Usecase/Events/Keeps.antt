-- ===== src/Usecase/Events/Keeps.antt =====
-- The events of a settlement do not touch the books.
use wagering_wallet_service.Base.{
  Result, Uuid, Instant, ℕ, String, Option, none, some, List, [], ◌∷◌,
}
use wagering_wallet_service.Money.{Money}
use wagering_wallet_service.Wallet.{LedgerEntry}
use wagering_wallet_service.Wagering.Kind.{
  Status, pending, processed, rejected, failed, pending_reference,
}
use wagering_wallet_service.Wagering.Transaction.{Transaction}
use wagering_wallet_service.Event.{
  Envelope, new_processed, new_rejected, new_balance_changed, new_pending_reference,
}
use wagering_wallet_service.Store.{◌>>=◌, return, pure_result, new_id}
use wagering_wallet_service.Store.Triple.{
  Keeps, bind-Keeps, return-Keeps, pure_result-Keeps, new_id-Keeps,
}
use wagering_wallet_service.Store.Books.{Sound}
use wagering_wallet_service.Store.Statements.{outbox-Sound}
use wagering_wallet_service.Usecase.Events.{
  movement_envelopes, envelopes_for, append_all, append_settlement_events,
}

module _ (uuid_text : Uuid → String) (marshal : Envelope → Result (List ℕ)) (ids : ℕ → Uuid) where
  movement_envelopes-Keeps :
      (operation : Transaction) (entry : Option LedgerEntry)
      → Keeps Sound (movement_envelopes uuid_text marshal ids operation entry)
  unfolding movement_envelopes
  movement_envelopes-Keeps operation none = return-Keeps []
  movement_envelopes-Keeps operation (some entry) =
      bind-Keeps {m = new_id ids}
        {f = λ key. do
          changed ← pure_result (new_balance_changed uuid_text key operation entry)
          return (changed ∷ [])}
        (new_id-Keeps ids) (λ key. bind-Keeps (pure_result-Keeps _) (λ changed. return-Keeps _))

  envelopes_for-Keeps :
      (status : Status) (operation : Transaction) (entry : Option LedgerEntry) (balance : Money)
      → Keeps Sound (envelopes_for uuid_text marshal ids status operation entry balance)
  unfolding envelopes_for
  envelopes_for-Keeps processed operation entry balance =
      bind-Keeps {m = new_id ids}
        {f = λ key. do
          settled ← pure_result (new_processed uuid_text key operation balance)
          rest ← movement_envelopes uuid_text marshal ids operation entry
          return (settled ∷ rest)}
        (new_id-Keeps ids)
        (λ key. bind-Keeps (pure_result-Keeps _) (λ settled.
          bind-Keeps (movement_envelopes-Keeps operation entry) (λ rest. return-Keeps _)))
  envelopes_for-Keeps rejected operation entry balance =
      bind-Keeps {m = new_id ids}
        {f = λ key. do
          refused ← pure_result (new_rejected uuid_text key operation balance)
          return (refused ∷ [])}
        (new_id-Keeps ids) (λ key. bind-Keeps (pure_result-Keeps _) (λ refused. return-Keeps _))
  envelopes_for-Keeps pending_reference operation entry balance =
      bind-Keeps {m = new_id ids}
        {f = λ key. do
          parked ← pure_result (new_pending_reference uuid_text key operation)
          return (parked ∷ [])}
        (new_id-Keeps ids) (λ key. bind-Keeps (pure_result-Keeps _) (λ parked. return-Keeps _))
  envelopes_for-Keeps pending operation entry balance = return-Keeps []
  envelopes_for-Keeps failed operation entry balance = return-Keeps []
  envelopes_for-Keeps (Status.other text) operation entry balance = return-Keeps []

  append_all-Keeps :
      (wallet_id : Uuid) (now : Instant) (envelopes : List Envelope)
      → Keeps Sound (append_all uuid_text marshal ids wallet_id now envelopes)
  unfolding append_all
  append_all-Keeps wallet_id now [] = return-Keeps tt
  append_all-Keeps wallet_id now (envelope ∷ envelopes) =
      bind-Keeps (pure_result-Keeps _)
        (λ e. bind-Keeps (outbox-Sound e) (λ _. append_all-Keeps wallet_id now envelopes))

  pub append_settlement_events-Keeps :
      (now : Instant) (operation : Transaction) (entry : Option LedgerEntry) (balance : Money)
      → Keeps Sound (append_settlement_events uuid_text marshal ids now operation entry balance)
  unfolding append_settlement_events
  append_settlement_events-Keeps now operation entry balance =
      bind-Keeps (envelopes_for-Keeps operation.status operation entry balance)
        (append_all-Keeps operation.wallet_id now)
