-- ===== src/Store/Inbox.antt =====
-- repositories/inbox_repository_sql.go
use wagering_wallet_service.Base.{
  if◌then◌else◌, MessagingError, Result, of_messaging, err, ok, Uuid, Instant, find, any,
  update_where, String, Bool, true, false, ◌&&◌, Option, none, some, ◌∷◌, str_eq,
}
use wagering_wallet_service.Messaging.{InboxMessage, InboxOutcome, rehydrate_inbox_message}
use wagering_wallet_service.Store.{Store, Tx, execute, query}

abbrev pub is_message : String → String → InboxMessage → Bool
is_message consumer message m = str_eq m.consumer_name consumer && str_eq m.message_id message

unfoldable pub insert_in : InboxMessage → Store → Result (Bool × Store)
insert_in new store =
    if any (is_message new.consumer_name new.message_id) store.inbox
    then ok (false, store)
    else ok (true, record store { inbox = new ∷ store.inbox })

-- `Insert`, `ON CONFLICT DO NOTHING`
abbrev pub insert : InboxMessage → Tx Bool
insert new = execute (insert_in new)

unfoldable pub find_in : String → String → Store → Result (Option InboxMessage)
find_in consumer message store = elim (find (is_message consumer message) store.inbox) [
  | none ↦ ok none
  | some row ↦ elim (rehydrate_inbox_message row) [ err failure ↦ err failure | ok m ↦ ok (some m) ]
]

-- `Find`
abbrev pub find_message : String → String → Tx (Option InboxMessage)
find_message consumer message = query (find_in consumer message)

abbrev pub completed_with : InboxOutcome → Uuid → Instant → InboxMessage → InboxMessage
completed_with outcome transaction_id completed_at m = record m {
  outcome = outcome;
  transaction_id = transaction_id;
  completed_at = completed_at;
}

unfoldable pub complete_in :
    String → String → InboxOutcome → Uuid → Instant → Store → Result (Unit {0} × Store)
complete_in consumer message outcome transaction_id completed_at store =
    if any (is_message consumer message) store.inbox
    then ok (
      tt,
      record store {
        inbox =
            update_where (is_message consumer message)
              (completed_with outcome transaction_id completed_at) store.inbox;
      },
    )
    else err (of_messaging MessagingError.missing_field)

-- `Complete`
abbrev pub complete : String → String → InboxOutcome → Uuid → Instant → Tx (Unit {0})
complete consumer message outcome transaction_id completed_at =
    execute (complete_in consumer message outcome transaction_id completed_at)
