-- ===== src/Usecase/Settlement/Keeps.antt =====
-- The settlement keeps the books.
use wagering_wallet_service.Base.{
  if◌then◌else◌, ◌∙◌, sym, ap, Duration, ℤ, InInt64, ◌+◌, update_where, ℕ, ◌∷◌, Bool-cases, Result,
  err, ok, Uuid, Instant, any, is_empty, ◌≡◌, inl, inr, Bool, true, false, Option, none, some,
  arith,
}
use wagering_wallet_service.Money.{Money}
use wagering_wallet_service.Wallet.{
  Wallet, LedgerEntry, Direction, debit, credit, unknown, move, debit_wallet, credit_wallet,
}
use wagering_wallet_service.Wagering.Transaction.{Transaction}
use wagering_wallet_service.Wagering.Kind.{is_reversal}
use wagering_wallet_service.Store.{pure_result, Session, Store}
use wagering_wallet_service.Store.Triple.{bind-ok, Keeps, bind-Keeps, query-Keeps, return-Keeps}
use wagering_wallet_service.Store.Transactions
use wagering_wallet_service.Store.Triple.{pure_result-ok}
use wagering_wallet_service.Wagering.Decision.{decide}
use wagering_wallet_service.Wagering.Decision.Amount.{decide-MovesInt64, MovesInt64}
use wagering_wallet_service.Store.Statements.{find_for_update-Found}
use wagering_wallet_service.Base.{find-some-test}
use mathlib.Core.Path.{subst}
use wagering_wallet_service.Store.Books.{Sound, move-Booked}
use wagering_wallet_service.Store.Statements.{execute-ok, append_in-ok, update_in-ok, Found}
use wagering_wallet_service.Wagering.Decision.{
  Outcome, process_now, reject_now, wait_reference, is_present,
}
use wagering_wallet_service.Usecase.Settlement.{
  Reference, settle_processed, settle_as, apply_as, unmoved,
}
use wagering_wallet_service.Wagering.Transaction.{mark_rejected, mark_pending_reference}
use wagering_wallet_service.Store.{Tx}
use wagering_wallet_service.Store.Triple.{Triple}
use wagering_wallet_service.Store.Wallets
use wagering_wallet_service.Store.Ledger
use wagering_wallet_service.Usecase.Movement.{with_state, chosen_move}
use wagering_wallet_service.Usecase.Settlement.{
  mark_processed, Settled, Decision, apply_movement, reference_to, resolve_reference,
  retried_reference,
}

with_state-ok :
    {A S : Type 0} (call : Result A × S) {a : A} {state : S}
    → with_state call ≡ ok (a, state)
    → call ≡ (ok a, state)
with_state-ok (ok answer, state) h = ground (arith, h)
with_state-ok (err failure, state) h = absurd (ground (arith, h))

-- A successful call of the chosen method is a movement.
chosen_move-move :
    (d : Direction) (operation : Uuid) (amount : Money) (key : Uuid) (now : Instant) (w : Wallet)
    {e : LedgerEntry} {w' : Wallet}
    → with_state (chosen_move d operation amount key now w) ≡ ok (e, w')
    → (side : Direction) × (move side operation amount key now w ≡ (ok e, w'))
unfolding chosen_move debit_wallet credit_wallet
chosen_move-move debit operation amount key now w h = (debit, with_state-ok _ h)
chosen_move-move credit operation amount key now w h = (credit, with_state-ok _ h)
chosen_move-move (unknown text) operation amount key now w h = (credit, with_state-ok _ h)

module _ (I : Store → Type 0) where
  reference_to-Keeps :
      (looks : Bool) (found : Option Transaction) → Keeps I (reference_to looks found)
  unfolding reference_to
  reference_to-Keeps looks none = return-Keeps none
  reference_to-Keeps false (some original) = return-Keeps _
  reference_to-Keeps true (some original) = query-Keeps (λ store. ok (
      some (record {
        transaction = some original;
        already_reversed = any (Transactions.reverses original.id) store.transactions;
      })))

  pub resolve_reference-Keeps : (operation : Transaction) → Keeps I (resolve_reference operation)
  unfolding resolve_reference
  resolve_reference-Keeps operation = elim (Bool-cases (is_empty operation.reference_external_id)) [
    | inl unset ↦ rw unset (return-Keeps none)
    | inr given ↦ rw given (
        bind-Keeps (query-Keeps _)
          (λ original. reference_to-Keeps (is_reversal operation.kind) original))
  ]

  pub retried_reference-Keeps : (operation : Transaction) → Keeps I (retried_reference operation)
  unfolding retried_reference
  retried_reference-Keeps operation =
      bind-Keeps (query-Keeps _) (λ original. reference_to-Keeps true original)

-- The tables after a movement that wrote its entry and the row of its wallet.
abbrev store_after : ℤ → Wallet → LedgerEntry → Store → Store
store_after version w' e store = record store {
  wallets = update_where (Wallets.at_version w'.id version) (Wallets.with_balance w') store.wallets;
  ledger = e ∷ store.ledger;
}

record MovedBy (now : Instant) (account : Wallet) (amount : Money) (s s' : Session) : Type 0 where
  side : Direction
  operation : Uuid
  key : Uuid
  e : LedgerEntry
  w' : Wallet
  done : move side operation amount key now account ≡ (ok e, w')
  after : s'.store ≡ store_after account.version w' e s.store

steps-after :
    (version : ℤ) (w' : Wallet) (e : LedgerEntry) (s0 s1 s2 s3 s4 s' : Session)
    → s0 ≡ s1
    → Ledger.append e s1 ≡ ok (tt, s2)
    → Wallets.update w' version s2 ≡ ok (tt, s3)
    → s3 ≡ s4
    → s4 ≡ s'
    → s'.store ≡ store_after version w' e s0.store
steps-after version w' e s0 s1 s2 s3 s4 s' start appended updated marked last =
    let added = append_in-ok e s1.store (execute-ok (Ledger.append_in e) s1 appended).0 in
    let written =
      update_in-ok w' version s2.store (execute-ok (Wallets.update_in w' version) s2 updated).0 in
    ap (λ (t : Session). t.store) (sym last ∙ sym marked)
    ∙ written
    ∙ ap
        (λ (st : Store). record st {
          wallets =
              update_where (Wallets.at_version w'.id version) (Wallets.with_balance w') st.wallets;
        })
        (added.1 ∙ ap (λ (t : Session). record t.store { ledger = e ∷ t.store.ledger }) (sym start))

apply_movement-MovedBy :
    (ids : ℕ → Uuid) (now : Instant) (decision : Decision) (account : Wallet)
    (operation : Transaction) (s : Session) {r : Settled} {s' : Session}
    → apply_movement ids now decision account operation s ≡ ok (r, s')
    → MovedBy now account decision.movement.amount s s'
unfolding apply_movement
apply_movement-MovedBy ids now decision account operation s {r} {s'} h =
    let d = decision.movement in
    let key = ids s.drawn in
    let s0 : Session = record s { drawn = s.drawn + 1 } in
    let ((e, w'), s1, moving, appending) =
      bind-ok
        (pure_result (with_state (chosen_move d.direction operation.id d.amount key now account))) _
        s0 h in
    let (_, s2, appended, updating) = bind-ok (Ledger.append e) _ s1 appending in
    let (_, s3, updated, settling) = bind-ok (Wallets.update w' account.version) _ s2 updating in
    let ((_, settled), s4, marked, ended) =
      bind-ok
        (pure_result (with_state (mark_processed w'.balance decision.reference_id now operation))) _
        s3 settling in
    let (chosen, same1) = pure_result-ok _ s0 moving in
    let (_, same4) = pure_result-ok _ s3 marked in
    let (side, moved) = chosen_move-move d.direction operation.id d.amount key now account chosen in
    record {
      side = side;
      operation = operation.id;
      key = key;
      e = e;
      w' = w';
      done = moved;
      after =
          steps-after account.version w' e s0 s1 s2 s3 s4 s' same1 appended updated same4
            (ground (arith, ended));
    }

-- On sound books, a movement of a wallet that was found keeps them sound.
MovedBy-Sound :
    (now : Instant) (account : Wallet) (amount : Money) (s s' : Session)
    → InInt64 amount.minor
    → Sound s.store
    → Found account.id account s.store
    → MovedBy now account amount s s'
    → Sound s'.store
MovedBy-Sound now account amount s s' fits (booked, amounts) found m = subst Sound (sym m.after) (
  move-Booked m.side m.operation amount m.key now s.store.wallets s.store.ledger account m.w' m.e
      booked found fits m.done,
  amounts,
)

-- A settlement of a wallet that was found on sound books, which leaves them sound.
abbrev pub Settles : Wallet → Tx Settled → Type 0
Settles account m =
    Triple (λ s. Sound s.store × Found account.id account s.store) m (λ _ s. Sound s.store)

unmoved-Settles : (account : Wallet) (m : Result Settled) → Settles account (pure_result m)
unmoved-Settles account m s (sound, found) a s' h =
    subst (λ (t : Session). Sound t.store) (pure_result-ok m s h).1 sound

if-Settles :
    (account : Wallet) (b : Bool) (m n : Tx Settled)
    → Settles account m
    → Settles account n
    → Settles account (if b then m else n)
if-Settles account true m n first second = first
if-Settles account false m n first second = second

module _ (ids : ℕ → Uuid) (now : Instant) (decision : Decision) (account : Wallet)
    (operation : Transaction) (fits : InInt64 decision.movement.amount.minor) where
  settle_processed-Settles : Settles account (settle_processed ids now decision account operation)
  unfolding settle_processed
  settle_processed-Settles =
      if-Settles account (is_present decision.movement)
        (apply_movement ids now decision account operation)
        (pure_result
          (unmoved account (mark_processed account.balance decision.reference_id now operation)))
        (λ s (sound, found) a s' h.
          MovedBy-Sound now account decision.movement.amount s s' fits sound found
            (apply_movement-MovedBy ids now decision account operation s h))
        (unmoved-Settles account
          (unmoved account (mark_processed account.balance decision.reference_id now operation)))

  pub settle_as-Settles :
      (outcome : Outcome) (backoff ttl : Duration)
      → Settles account (settle_as ids outcome backoff ttl now decision account operation)
  unfolding settle_as
  settle_as-Settles reject_now backoff ttl =
      unmoved-Settles account
        (unmoved account (mark_rejected decision.failure_code account.balance now operation))
  settle_as-Settles wait_reference backoff ttl = unmoved-Settles account (
      unmoved account
        (mark_pending_reference (now + backoff) (operation.created_at + ttl) now operation))
  settle_as-Settles process_now backoff ttl = settle_processed-Settles

  pub apply_as-Settles :
      (outcome : Outcome) → Settles account (apply_as ids outcome now decision account operation)
  unfolding apply_as
  apply_as-Settles reject_now =
      unmoved-Settles account
        (unmoved account (mark_rejected decision.failure_code account.balance now operation))
  apply_as-Settles wait_reference = settle_processed-Settles
  apply_as-Settles process_now = settle_processed-Settles

-- A decision on an int64 amount moves an int64 amount.
pub decided-Triple :
    (P : Session → Type 0) (account : Wallet) (operation : Transaction)
    (reference : Option Reference) (now : Instant)
    → InInt64 operation.amount.minor
    → Triple P
        (pure_result (decide (some account) (some operation) reference now))
        (λ d s. InInt64 d.movement.amount.minor × P s)
decided-Triple P account operation reference now fits s p d s' h =
    let (decided, same) = pure_result-ok _ s h in
    (
      subst MovesInt64 decided (decide-MovesInt64 account operation fits reference now),
      subst P same p,
    )

-- The wallet that was locked is the one with its own id.
pub locked-Triple :
    (id : Uuid)
    → Triple
        (λ s. Sound s.store)
        (Wallets.find_for_update id)
        (λ w s. Sound s.store × Found w.id w s.store)
locked-Triple id s sound w s' h =
    let (still, found) = find_for_update-Found Sound id s sound w s' h in
    let own : id ≡ w.id =
      ground (arith, find-some-test (Wallets.has_id id) s'.store.wallets found) in
    (still, subst (λ k. Found k w s'.store) own found)
