-- ===== src/Store/Transactions.antt =====
-- repositories/wager_transaction_repository_sql.go. NULL equals nothing, so the empty text, which
-- stands for NULL, never matches. The unique constraints of the table are written out.
use wagering_wallet_service.Base.{
  ltb, leb, ◌==◌, if◌then◌else◌, WalletError, WageringError, Result, of_wallet, of_wagering,
  database, err, ok, Uuid, is_nil, Instant, find, any, select, update_where, count_where, take,
  is_empty, ℕ, String, Bool, true, false, not, ◌&&◌, ◌||◌, Option, none, some, List, [], ◌∷◌,
  str_eq,
}
use wagering_wallet_service.Wagering.Kind.{
  is_opening, is_reversal, is_processed, is_pending_reference,
}
use wagering_wallet_service.Wagering.Transaction.{Transaction}
use wagering_wallet_service.Wagering.Snapshot
use wagering_wallet_service.Wagering.Snapshot.Stored.{snapshot_of}
use wagering_wallet_service.Store.{Store, Tx, execute, query}
use wagering_wallet_service.Store.Wallets

-- `column = value` on a text that may be NULL.
abbrev pub column_eq : String → String → Bool
column_eq column value = not (is_empty column) && str_eq column value

abbrev pub has_id : Uuid → Transaction → Bool
has_id id t = t.id == id

abbrev pub by_key : String → String → Transaction → Bool
by_key provider_id key t = column_eq t.provider_id provider_id && column_eq t.idempotency_key key

abbrev pub by_external_id : String → String → Transaction → Bool
by_external_id provider_id external_id t =
    column_eq t.provider_id provider_id && column_eq t.external_transaction_id external_id

abbrev pub reverses : Uuid → Transaction → Bool
reverses original t =
    not (is_nil t.reference_transaction_id)
    && t.reference_transaction_id == original
    && is_reversal t.kind
    && is_processed t.status

-- The unique constraints that a new row may run into.
abbrev pub collides : Transaction → Transaction → Bool
collides new t =
    has_id new.id t
    || by_key new.provider_id new.idempotency_key t
    || by_external_id new.provider_id new.external_transaction_id t
    || (is_opening new.kind && is_opening t.kind && t.wallet_id == new.wallet_id)

unfoldable pub insert_in : Transaction → Store → Result (Bool × Store)
insert_in new store =
    if any (collides new) store.transactions
    then ok (false, store)
    else if any (Wallets.has_id new.wallet_id) store.wallets
    then ok (true, record store { transactions = new ∷ store.transactions })
    else err (of_wallet WalletError.not_found)

-- `Insert`, `ON CONFLICT DO NOTHING`
abbrev pub insert : Transaction → Tx Bool
insert new = execute (insert_in new)

-- The columns that `Update` sets.
abbrev pub with_state_of : Transaction → Transaction → Transaction
with_state_of updated row = record row {
  status = updated.status;
  failure_code = updated.failure_code;
  result_balance = updated.result_balance;
  reference_transaction_id = updated.reference_transaction_id;
  reference_attempts = updated.reference_attempts;
  next_attempt_at = updated.next_attempt_at;
  reference_deadline_at = updated.reference_deadline_at;
  completed_at = updated.completed_at;
  updated_at = updated.updated_at;
}

-- The unique index on successful reversals.
abbrev pub reversed_by_other : Transaction → Transaction → Bool
reversed_by_other updated t =
    reverses updated.reference_transaction_id updated
    && not (has_id updated.id t)
    && reverses updated.reference_transaction_id t

unfoldable pub update_in : Transaction → Store → Result (Unit {0} × Store)
update_in updated store =
    if not (any (has_id updated.id) store.transactions)
    then err (of_wagering WageringError.not_found)
    else if any (reversed_by_other updated) store.transactions
    then err database
    else ok (
      tt,
      record store {
        transactions = update_where (has_id updated.id) (with_state_of updated) store.transactions;
      },
    )

-- `Update`
abbrev pub update : Transaction → Tx (Unit {0})
update updated = execute (update_in updated)

-- `findOne`: the scanned row passes `wagering.Rehydrate`.
abbrev pub scan : Transaction → Result Transaction
scan row = Snapshot.rehydrate (snapshot_of row)

unfoldable pub find_one : (Transaction → Bool) → Store → Result (Option Transaction)
find_one condition store = elim (find condition store.transactions) [
  | none ↦ ok none
  | some row ↦ elim (scan row) [ err failure ↦ err failure | ok t ↦ ok (some t) ]
]

-- `FindByID`, `FindByIDForUpdate`, `FindByIdempotencyKey` and `FindByExternalID`
abbrev pub find_by_id : Uuid → Tx (Option Transaction)
find_by_id id = query (find_one (has_id id))

abbrev pub find_by_id_for_update : Uuid → Tx (Option Transaction)
find_by_id_for_update id = query (find_one (has_id id))

abbrev pub find_by_idempotency_key : String → String → Tx (Option Transaction)
find_by_idempotency_key provider_id key = query (find_one (by_key provider_id key))

abbrev pub find_by_external_id : String → String → Tx (Option Transaction)
find_by_external_id provider_id external_id =
    query (find_one (by_external_id provider_id external_id))

-- `HasSuccessfulReversal`
abbrev pub has_successful_reversal : Uuid → Tx Bool
has_successful_reversal original = query (λ store. ok (any (reverses original) store.transactions))

-- `CountPending`
abbrev pub count_pending : Tx ℕ
count_pending =
    query (λ store. ok (count_where (λ t. is_pending_reference t.status) store.transactions))

abbrev pub is_due : Instant → Transaction → Bool
is_due now t = is_pending_reference t.status && leb t.next_attempt_at now

-- `ORDER BY t.next_attempt_at, t.id`
abbrev pub comes_before : Transaction → Transaction → Bool
comes_before t u =
    ltb t.next_attempt_at u.next_attempt_at
    || (t.next_attempt_at == u.next_attempt_at && leb t.id u.id)

unfoldable pub insert_ordered : Transaction → List Transaction → List Transaction
insert_ordered t [] = t ∷ []
insert_ordered t (u ∷ us) =
    let rest = insert_ordered t us in if comes_before t u then t ∷ u ∷ us else u ∷ rest

unfoldable pub ordered : List Transaction → List Transaction
unfolding insert_ordered
ordered [] = []
ordered (t ∷ ts) = insert_ordered t (ordered ts)

unfoldable pub scan_all : List Transaction → Result (List Transaction)
scan_all [] = ok []
scan_all (row ∷ rows) =
    let rest = scan_all rows in
    elim (scan row) [
      | err failure ↦ err failure
      | ok t ↦ elim rest [ err failure ↦ err failure | ok ts ↦ ok (t ∷ ts) ]
    ]

-- `ClaimDuePending`; no other transaction holds a lock, so `SKIP LOCKED` skips nothing.
unfoldable pub due_in : Instant → ℕ → Store → Result (List Transaction)
unfolding ordered scan_all
due_in now limit store = scan_all (take limit (ordered (select (is_due now) store.transactions)))

abbrev pub claim_due_pending : Instant → ℕ → Tx (List Transaction)
claim_due_pending now limit = query (due_in now limit)

abbrev pub waits_for : String → String → Instant → Transaction → Bool
waits_for provider_id external_id now t =
    is_pending_reference t.status
    && column_eq t.provider_id provider_id
    && column_eq t.reference_external_id external_id
    && ltb now t.next_attempt_at

abbrev pub woken : Instant → Transaction → Transaction
woken now t = record t { next_attempt_at = now; updated_at = now }

unfoldable pub wake_in : String → String → Instant → Store → Result (ℕ × Store)
wake_in provider_id external_id now store =
    if is_empty provider_id || is_empty external_id
    then ok (0, store)
    else ok (
      count_where (waits_for provider_id external_id now) store.transactions,
      record store {
        transactions =
            update_where (waits_for provider_id external_id now) (woken now) store.transactions;
      },
    )

-- `WakeUpWaitingFor`
abbrev pub wake_up_waiting_for : String → String → Instant → Tx ℕ
wake_up_waiting_for provider_id external_id now = execute (wake_in provider_id external_id now)
