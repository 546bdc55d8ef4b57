-- ===== src/Store/Statements.antt =====
-- Statements that keep the books.
use mathlib.Core.Path.{subst}
use wagering_wallet_service.Base.{
  if◌then◌else◌, Bool-cases, Option-cases, Result, Result-cases, ok, Uuid, Instant, find, any,
  update_where, update_where-All, ℤ, is_empty, String, ◌≡◌, ap, ◌∙◌, inl, inr, false, ◌||◌, some,
  ◌∷◌, arith,
}
use wagering_wallet_service.Wallet
use wagering_wallet_service.Wallet.{Wallet, LedgerEntry}
use wagering_wallet_service.Wagering.Transaction.{Transaction}
use wagering_wallet_service.Messaging.{InboxMessage, InboxOutcome, OutboxEvent}
use wagering_wallet_service.Store.{Store, Session, execute}
use wagering_wallet_service.Store.Triple.{Triple, Keeps, execute-Keeps}
use wagering_wallet_service.Store.Books.{Sound, HasAmount}
use wagering_wallet_service.Store.Wallets
use wagering_wallet_service.Store.Ledger
use wagering_wallet_service.Store.Transactions
use wagering_wallet_service.Store.Inbox
use wagering_wallet_service.Store.Outbox

-- What a statement that succeeded did.
pub execute-ok {ℓ} :
    {A : Type ℓ} (f : Store → Result (A × Store)) (s : Session) {a : A} {s' : Session}
    → execute f s ≡ ok (a, s')
    → (f s.store ≡ ok (a, s'.store)) × (s'.drawn ≡ s.drawn)
execute-ok f s h = elim (Result-cases (f s.store)) [
  | inl ((b, store), done) ↦ (ground (arith, h, done), ground (arith, h, done))
  | inr (e, failed) ↦ absurd (ground (arith, h, failed))
]

pub append_in-ok :
    (new : LedgerEntry) (store : Store) {a : Unit {0}} {store' : Store}
    → Ledger.append_in new store ≡ ok (a, store')
    → (any (Ledger.collides new) store.ledger ≡ false)
      × (store' ≡ record store { ledger = new ∷ store.ledger })
unfolding Ledger.append_in
append_in-ok new store h = elim (Bool-cases (any (Ledger.collides new) store.ledger)) [
  | inl there ↦ absurd (ground (arith, h, there))
  | inr free ↦ (free, ground (arith, h, free))
]

pub update_in-ok :
    (updated : Wallet) (expected : ℤ) (store : Store) {a : Unit {0}} {store' : Store}
    → Wallets.update_in updated expected store ≡ ok (a, store')
    → store' ≡ record store {
      wallets =
          update_where
            (Wallets.at_version updated.id expected)
            (Wallets.with_balance updated)
            store.wallets;
    }
unfolding Wallets.update_in
update_in-ok updated expected store h =
    elim (Bool-cases (any (Wallets.at_version updated.id expected) store.wallets)) [
      | inl there ↦ ground (arith, h, there)
      | inr gone ↦ absurd (ground (arith, h, gone))
    ]

pub insert-Sound : (new : Transaction) → HasAmount new → Keeps Sound (Transactions.insert new)
unfolding Transactions.insert_in
insert-Sound new amount = execute-Keeps (Transactions.insert_in new) (λ store a store' sound h.
    subst Sound {x = if a then record store { transactions = new ∷ store.transactions } else store}
      {y = store'} (ground (arith, h))
      (elim (Bool-cases a) [
        | inl added ↦ rw added (sound.0, (amount, sound.1))
        | inr there ↦ rw there sound
      ]))

pub update-Sound : (updated : Transaction) → Keeps Sound (Transactions.update updated)
unfolding Transactions.update_in
update-Sound updated = execute-Keeps (Transactions.update_in updated) (λ store a store' sound h.
    subst Sound
      {x = record store {
        transactions =
            update_where (Transactions.has_id updated.id) (Transactions.with_state_of updated)
              store.transactions;
      }}
      {y = store'} (ground (arith, h))
      (
        sound.0,
        update_where-All HasAmount (Transactions.has_id updated.id)
            (Transactions.with_state_of updated) store.transactions sound.1 (λ x found fits. fits),
      ))

pub outbox-Sound : (new : OutboxEvent) → Keeps Sound (Outbox.append new)
unfolding Outbox.append_in
outbox-Sound new = execute-Keeps (Outbox.append_in new) (λ store a store' sound h.
    subst Sound {x = record store { outbox = Outbox.row_of new ∷ store.outbox }} {y = store'}
      (ground (arith, h)) sound)

pub complete-Sound :
    (consumer message : String) (outcome : InboxOutcome) (id : Uuid) (completed_at : Instant)
    → Keeps Sound (Inbox.complete consumer message outcome id completed_at)
unfolding Inbox.complete_in
complete-Sound consumer message outcome id completed_at =
    execute-Keeps (Inbox.complete_in consumer message outcome id completed_at)
      (λ store a store' sound h.
        subst Sound
          {x = record store {
            inbox =
                update_where (Inbox.is_message consumer message)
                  (Inbox.completed_with outcome id completed_at) store.inbox;
          }}
          {y = store'} (ground (arith, h)) sound)

pub message-Sound : (new : InboxMessage) → Keeps Sound (Inbox.insert new)
unfolding Inbox.insert_in
message-Sound new = execute-Keeps (Inbox.insert_in new) (λ store a store' sound h.
    subst Sound {x = if a then record store { inbox = new ∷ store.inbox } else store} {y = store'}
      (ground (arith, h))
      (elim (Bool-cases a) [ inl added ↦ rw added sound | inr there ↦ rw there sound ]))

pub wake-Sound :
    (provider_id external_id : String) (now : Instant)
    → Keeps Sound (Transactions.wake_up_waiting_for provider_id external_id now)
unfolding Transactions.wake_in
wake-Sound provider_id external_id now =
    execute-Keeps (Transactions.wake_in provider_id external_id now) (λ store a store' sound h.
      subst Sound
        {x = if is_empty provider_id || is_empty external_id then store else record store {
          transactions =
              update_where (Transactions.waits_for provider_id external_id now)
                (Transactions.woken now) store.transactions;
        }}
        {y = store'} (ground (arith, h))
        (elim (Bool-cases (is_empty provider_id || is_empty external_id)) [
          | inl nothing ↦ rw nothing sound
          | inr waiting ↦ rw waiting (
            sound.0,
            update_where-All HasAmount (Transactions.waits_for provider_id external_id now)
                (Transactions.woken now) store.transactions sound.1 (λ x found fits. fits),
          )
        ]))

-- `Rehydrate` answers the row that it read.
rehydrate-same : (row w : Wallet) → Wallet.rehydrate row ≡ ok w → w ≡ row
unfolding Wallet.rehydrate
rehydrate-same row w h = ground (arith, h)

-- The wallet that is answered is the row with its id.
abbrev pub Found : Uuid → Wallet → Store → Type 0
Found id w store = find (Wallets.has_id id) store.wallets ≡ some w

find_one-Found :
    (id : Uuid) (store : Store) (w : Wallet)
    → Wallets.find_one (Wallets.has_id id) store ≡ ok (some w)
    → Found id w store
unfolding Wallets.find_one
find_one-Found id store w h = elim (Option-cases (find (Wallets.has_id id) store.wallets)) [
  | inl gone ↦ absurd (ground (arith, h, gone))
  | inr (row, there) ↦ elim (Result-cases (Wallet.rehydrate row)) [
    | inl (read, done) ↦ ground (arith, h, there, done, rehydrate-same row read done)
    | inr (e, failed) ↦ absurd (ground (arith, h, there, failed))
  ]
]

pub find_for_update-Found :
    (I : Store → Type 0) (id : Uuid)
    → Triple (λ s. I s.store) (Wallets.find_for_update id) (λ w s. I s.store × Found id w s.store)
find_for_update-Found I id s i w s' h =
    elim (Result-cases (Wallets.find_one (Wallets.has_id id) s.store)) [
      | inl (found, done) ↦ elim (Option-cases found) [
        | inl gone ↦ absurd (ground (arith, h, done, gone))
        | inr (row, there) ↦
            let same : s ≡ s' = ground (arith, h, done, there) in
            let answered : row ≡ w = ground (arith, h, done, there) in
            subst (λ (t : Session). I t.store × Found id w t.store) same
              (i, find_one-Found id s.store w (done ∙ ap ok (there ∙ ap some answered)))
      ]
      | inr (e, failed) ↦ absurd (ground (arith, h, failed))
    ]
