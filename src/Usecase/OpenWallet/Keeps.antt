-- ===== src/Usecase/OpenWallet/Keeps.antt =====
-- The opening of a wallet keeps the books sound.
use mathlib.Core.Path.{subst}
use wagering_wallet_service.Base.{
  if◌then◌else◌, Bool-cases, Result, Result-cases, ok, Uuid, Instant, any, All, InInt64, ℕ, ◌+◌,
  String, ◌≡◌, sym, inl, inr, false, Option, none, some, List, [], ◌∷◌, ◌++◌, arith,
}
use wagering_wallet_service.Wallet.{Wallet, LedgerEntry, open_wallet}
use wagering_wallet_service.Wagering.Transaction.{
  Transaction, new_opening, check_opening, opening_transaction,
}
use wagering_wallet_service.Event.{Envelope}
use wagering_wallet_service.Reconcile.History.{first_entries}
use wagering_wallet_service.Store.{Store, Session, pure_result}
use wagering_wallet_service.Store.Triple.{Triple, bind-ok, return-Keeps, pure_result-ok}
use wagering_wallet_service.Store.Books.{Sound, HasAmount, Booked, open_wallet-Booked}
use wagering_wallet_service.Store.Statements.{execute-ok, append_in-ok}
use wagering_wallet_service.Store.Wallets
use wagering_wallet_service.Store.Ledger
use wagering_wallet_service.Store.Transactions
use wagering_wallet_service.Usecase.Events.Keeps.{append_settlement_events-Keeps}
use wagering_wallet_service.Usecase.OpenWallet.{
  OpenWalletInput, record_opening_balance, create_wallet,
}

-- The books are sound but for the entries, which are still to be written.
abbrev SoundWith : List LedgerEntry → Store → Type 0
SoundWith entries store =
    Booked store.wallets (entries ++ store.ledger) × All HasAmount store.transactions

create_in-SoundWith :
    (w : Wallet) (entries : List LedgerEntry) (store : Store) {a : Unit {0}} {store' : Store}
    → (any (Wallets.has_id w.id) store.wallets ≡ false
        → Booked (w ∷ store.wallets) (entries ++ store.ledger))
    → Sound store
    → Wallets.create_in w store ≡ ok (a, store')
    → SoundWith entries store'
unfolding Wallets.create_in
create_in-SoundWith w entries store {store' = store'} opens (booked, amounts) h =
    elim (Bool-cases (any (Wallets.has_id w.id) store.wallets)) [
      | inl taken ↦ absurd (ground (arith, h, taken))
      | inr free ↦
          elim (Bool-cases (any (Wallets.of_player w.player_id w.balance.currency) store.wallets)) [
            | inl owned ↦ absurd (ground (arith, h, free, owned))
            | inr none_yet ↦
                subst (SoundWith entries) {x = record store { wallets = w ∷ store.wallets }}
                  {y = store'} (ground (arith, h, free, none_yet)) (opens free, amounts)
          ]
    ]

append-Triple :
    (e : LedgerEntry)
    → Triple (λ s. SoundWith (e ∷ []) s.store) (Ledger.append e) (λ _ s. Sound s.store)
append-Triple e s sound a s' h =
    subst Sound (sym (append_in-ok e s.store (execute-ok (Ledger.append_in e) s h).0).1) sound

opening-HasAmount :
    (opening_id : Uuid) (created : Wallet) (input : OpenWalletInput) (now : Instant)
    (t : Transaction)
    → InInt64 input.initial_balance.minor
    → new_opening opening_id created.id input.player_id input.initial_balance input.correlation_id
        now
      ≡ ok t
    → HasAmount t
unfolding new_opening opening_transaction
opening-HasAmount opening_id created input now t fits h =
    elim (Result-cases (
      check_opening opening_id created.id input.player_id input.initial_balance input.correlation_id
        now)) [
          | inl (u, passed) ↦ ground (arith, h, passed, fits)
          | inr (e, refused) ↦ absurd (ground (arith, h, refused))
        ]

insert-SoundWith :
    (entries : List LedgerEntry) (new : Transaction)
    → HasAmount new
    → Triple
        (λ s. SoundWith entries s.store)
        (Transactions.insert new)
        (λ _ s. SoundWith entries s.store)
unfolding Transactions.insert_in
insert-SoundWith entries new amount s (booked, amounts) a s' h =
    let (done, _) = execute-ok (Transactions.insert_in new) s h in
    subst (SoundWith entries)
      {x = if a then record s.store { transactions = new ∷ s.store.transactions } else s.store}
      {y = s'.store} (ground (arith, done))
      (elim (Bool-cases a) [
        | inl added ↦ rw added (booked, (amount, amounts))
        | inr there ↦ rw there (booked, amounts)
      ])

module _ (uuid_text : Uuid → String) (marshal : Envelope → Result (List ℕ)) (ids : ℕ → Uuid) where
  record-Triple :
      (input : OpenWalletInput) (opening_id : Uuid) (now : Instant) (created : Wallet)
      (entry : Option LedgerEntry)
      → InInt64 input.initial_balance.minor
      → Triple
          (λ s. SoundWith (first_entries entry) s.store)
          (record_opening_balance uuid_text marshal ids input opening_id now created entry)
          (λ _ s. Sound s.store)
  unfolding record_opening_balance
  record-Triple input opening_id now created none fits s sound a s' h =
      (return-Keeps {I = Sound} tt).kept s sound a s' h
  record-Triple input opening_id now created (some entry) fits s sound a s' h =
      let (opening, s1, made, inserting) =
        bind-ok
          (pure_result (
            new_opening opening_id created.id input.player_id input.initial_balance
              input.correlation_id now))
          _ s h in
      let (opened, same) = pure_result-ok _ s made in
      let (_, s2, inserted, appending) = bind-ok (Transactions.insert opening) _ s1 inserting in
      let (_, s3, appended, announcing) = bind-ok (Ledger.append entry) _ s2 appending in
      let amount = opening-HasAmount opening_id created input now opening fits opened in
      (append_settlement_events-Keeps uuid_text marshal ids now opening (some entry)
          created.balance).kept
        s3
        (append-Triple entry s2
          (insert-SoundWith (entry ∷ []) opening amount s1
            (subst (λ (t : Session). SoundWith (entry ∷ []) t.store) same sound) _ s2 inserted)
          _ s3 appended)
        a s' announcing

  -- An opening with an int64 balance that succeeds leaves the books sound when they were sound.
  pub create_wallet-Sound :
      (input : OpenWalletInput) (opening_id : Uuid) (now : Instant) (s : Session) {w : Wallet}
      {s' : Session}
      → InInt64 input.initial_balance.minor
      → Sound s.store
      → create_wallet uuid_text marshal ids input opening_id now s ≡ ok (w, s')
      → Sound s'.store
  unfolding create_wallet
  create_wallet-Sound input opening_id now s {w} {s'} fits sound h =
      let s0 : Session = record s { drawn = (s.drawn + 1) + 1 } in
      let wallet_id = ids s.drawn in
      let key = ids (s.drawn + 1) in
      let ((created, entry), s1, opened, creating) =
        bind-ok
          (pure_result
            (open_wallet wallet_id input.player_id input.initial_balance opening_id key now))
          _ s0 h in
      let (done, same) = pure_result-ok _ s0 opened in
      let (_, s2, written, recording) = bind-ok (Wallets.create created) _ s1 creating in
      let (_, s3, recorded, ending) =
        bind-ok (record_opening_balance uuid_text marshal ids input opening_id now created entry) _
          s2 recording in
      let start : Sound s1.store = subst (λ (t : Session). Sound t.store) same sound in
      let opens : any (Wallets.has_id created.id) s1.store.wallets ≡ false
          → Booked (created ∷ s1.store.wallets) (first_entries entry ++ s1.store.ledger) =
        λ free.
          open_wallet-Booked wallet_id input.player_id input.initial_balance opening_id key now
            s1.store.wallets s1.store.ledger created entry start.0 free fits done in
      (return-Keeps {I = Sound} created).kept s3
        (record-Triple input opening_id now created entry fits s2
          (create_in-SoundWith created (first_entries entry) s1.store opens start
            (execute-ok (Wallets.create_in created) s1 written).0)
          _ s3 recorded)
        w s' ending
