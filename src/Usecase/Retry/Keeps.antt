-- ===== src/Usecase/Retry/Keeps.antt =====
-- A retry, and the giving up of an operation, keep the books sound.
use wagering_wallet_service.Base.{
  Bool-cases, Result, no_pending_work, ok, Uuid, Instant, All, InInt64, ℕ, String, ◌≡◌, inl, inr,
  true, false, Option, none, some, List, [], ◌∷◌,
}
use wagering_wallet_service.Wallet.{Wallet}
use wagering_wallet_service.Wagering.Kind.{is_pending_reference}
use wagering_wallet_service.Wagering.Transaction.{Transaction}
use wagering_wallet_service.Wagering.Decision.{
  Decision, Outcome, process_now, reject_now, wait_reference, decide,
}
use wagering_wallet_service.Event.{Envelope}
use wagering_wallet_service.Store.{Session, ◌>>=◌, ◌>>◌, return, pure_result}
use wagering_wallet_service.Store.Triple.{
  Triple, Keeps, bind-Triple, bind-Keeps, return-Keeps, fail-Keeps, pure_result-Keeps, query-Keeps,
}
use wagering_wallet_service.Store.Claims.{claim-Triple}
use wagering_wallet_service.Store.Books.{Sound, HasAmount}
use wagering_wallet_service.Store.Statements.{Found, update-Sound, wake-Sound}
use wagering_wallet_service.Store.Wallets
use wagering_wallet_service.Store.Transactions
use wagering_wallet_service.Usecase.Settlement.{retried_reference, apply_as}
use wagering_wallet_service.Usecase.Settlement.Keeps.{
  apply_as-Settles, decided-Triple, locked-Triple, retried_reference-Keeps,
}
use wagering_wallet_service.Usecase.Events.{append_settlement_events}
use wagering_wallet_service.Usecase.Events.Keeps.{append_settlement_events-Keeps}
use wagering_wallet_service.Usecase.Retry.{
  ReferenceSettings, reschedule, settle, settle_or_wait, retry_operation, retry_first, attempt,
  give_up_on, give_up,
}

reschedule-Keeps :
    (settings : ReferenceSettings) (now : Instant) (operation : Transaction)
    → Keeps Sound (reschedule settings now operation)
unfolding reschedule
reschedule-Keeps settings now operation =
    bind-Keeps (pure_result-Keeps _) (λ waiting. update-Sound waiting.1)

module _ (uuid_text : Uuid → String) (marshal : Envelope → Result (List ℕ)) (ids : ℕ → Uuid)
    (settings : ReferenceSettings) where
  settle-Triple :
      (now : Instant) (decision : Decision) (account : Wallet) (operation : Transaction)
      → InInt64 decision.movement.amount.minor
      → Triple
          (λ s. Sound s.store × Found account.id account s.store)
          (settle uuid_text marshal ids settings now decision account operation)
          (λ _ s. Sound s.store)
  unfolding settle
  settle-Triple now decision account operation fits =
      bind-Triple (λ _ s. Sound s.store)
        (apply_as ids decision.outcome now decision account operation)
        (λ settled. do
          Transactions.update settled.operation
          append_settlement_events uuid_text marshal ids now settled.operation settled.entry
              settled.account.balance
          awakened ←
              Transactions.wake_up_waiting_for operation.provider_id
                operation.external_transaction_id now
          return tt)
        (apply_as-Settles ids now decision account operation fits decision.outcome)
        (λ settled.
          (bind-Keeps (update-Sound settled.operation) (λ _.
            bind-Keeps
              (append_settlement_events-Keeps uuid_text marshal ids now settled.operation
                settled.entry settled.account.balance)
              (λ _.
                bind-Keeps (wake-Sound operation.provider_id operation.external_transaction_id now)
                  (λ awakened. return-Keeps tt)))).kept)

  settle_or_wait-Triple :
      (outcome : Outcome) (now : Instant) (decision : Decision) (account : Wallet)
      (operation : Transaction)
      → InInt64 decision.movement.amount.minor
      → Triple
          (λ s. Sound s.store × Found account.id account s.store)
          (settle_or_wait uuid_text marshal ids settings outcome now decision account operation)
          (λ _ s. Sound s.store)
  unfolding settle_or_wait
  settle_or_wait-Triple wait_reference now decision account operation fits s (sound, found) =
      (reschedule-Keeps settings now operation).kept s sound
  settle_or_wait-Triple process_now now decision account operation fits s p =
      settle-Triple now decision account operation fits s p
  settle_or_wait-Triple reject_now now decision account operation fits s p =
      settle-Triple now decision account operation fits s p

  retry_operation-Keeps :
      (now : Instant) (operation : Transaction)
      → HasAmount operation
      → Keeps Sound (retry_operation uuid_text marshal ids settings now operation)
  unfolding retry_operation
  retry_operation-Keeps now operation fits = record {
    kept =
        bind-Triple (λ w s. Sound s.store × Found w.id w s.store)
          (Wallets.find_for_update operation.wallet_id)
          (λ account. do
            reference ← retried_reference operation
            decision ← pure_result (decide (some account) (some operation) reference now)
            settle_or_wait uuid_text marshal ids settings decision.outcome now decision account
                operation
            return operation.id)
          (locked-Triple operation.wallet_id)
          (λ account.
            bind-Triple (λ _ s. Sound s.store × Found account.id account s.store)
              (retried_reference operation)
              (λ reference. do
                decision ← pure_result (decide (some account) (some operation) reference now)
                settle_or_wait uuid_text marshal ids settings decision.outcome now decision account
                    operation
                return operation.id)
              (retried_reference-Keeps (λ store. Sound store × Found account.id account store)
                operation).kept
              (λ reference.
                bind-Triple
                  (λ d s.
                    InInt64 d.movement.amount.minor
                    × (Sound s.store × Found account.id account s.store))
                  (pure_result (decide (some account) (some operation) reference now))
                  (λ decision. do
                    settle_or_wait uuid_text marshal ids settings decision.outcome now decision
                        account operation
                    return operation.id)
                  (decided-Triple (λ s. Sound s.store × Found account.id account s.store) account
                    operation reference now fits)
                  (λ decision s (moves, p).
                    bind-Triple (λ _ s. Sound s.store)
                      (settle_or_wait uuid_text marshal ids settings decision.outcome now decision
                        account operation)
                      (λ _. return operation.id)
                      (settle_or_wait-Triple decision.outcome now decision account operation moves)
                      (λ _. (return-Keeps operation.id).kept) s p)));
  }

  retry_first-Keeps :
      (now : Instant) (claimed : List Transaction)
      → All HasAmount claimed
      → Keeps Sound (retry_first uuid_text marshal ids settings now claimed)
  retry_first-Keeps now [] amounts = fail-Keeps no_pending_work
  retry_first-Keeps now (operation ∷ _) (fits, _) = retry_operation-Keeps now operation fits

  -- An attempt that succeeds, whether it settles the operation or lets it wait, leaves the books
  -- sound when they were sound.
  pub attempt-Sound :
      (now : Instant) (s : Session) {claimed : Uuid} {s' : Session}
      → Sound s.store
      → attempt uuid_text marshal ids settings now s ≡ ok (claimed, s')
      → Sound s'.store
  unfolding attempt
  attempt-Sound now s {claimed} {s'} sound h =
      bind-Triple (λ ts s. All HasAmount ts × Sound s.store) (Transactions.claim_due_pending now 1)
        (retry_first uuid_text marshal ids settings now) (claim-Triple now 1)
        (λ ts s (amounts, sound). (retry_first-Keeps now ts amounts).kept s sound) s sound claimed
        s' h

give_up_on-Keeps : (now : Instant) (found : Option Transaction) → Keeps Sound (give_up_on now found)
unfolding give_up_on
give_up_on-Keeps now none = return-Keeps false
give_up_on-Keeps now (some operation) = elim (Bool-cases (is_pending_reference operation.status)) [
  | inl waiting ↦ rw waiting (
      bind-Keeps (pure_result-Keeps _)
        (λ failed. bind-Keeps (update-Sound failed.1) (λ _. return-Keeps true)))
  | inr settled ↦ rw settled (return-Keeps false)
]

-- Giving up an operation leaves the books sound when they were sound.
pub give_up-Keeps :
    (transaction_id : Uuid) (now : Instant) → Keeps Sound (give_up transaction_id now)
unfolding give_up
give_up-Keeps transaction_id now = bind-Keeps (query-Keeps _) (give_up_on-Keeps now)
