-- ===== src/Store/Outbox.antt =====
-- repositories/outbox_repository_sql.go. `clock_timestamp()` is an argument of the statements that
-- read it.
pub mod Leases
pub mod Life
use wagering_wallet_service.Base.{
  ltb, leb, ◌==◌, if◌then◌else◌, Result, database, err, ok, Uuid, Instant, no_time, is_unset,
  Duration, any, select, update_where, count_where, take, pos, ltb_ℤ, eqb_ℤ, ◌+ℤ◌, is_empty, ℕ,
  zero, suc, ◌+◌, String, Bool, not, ◌&&◌, ◌||◌, List, [], ◌∷◌, map, str_eq,
}
use wagering_wallet_service.Messaging.{
  OutboxEvent, OutboxSnapshot, Receipt, rehydrate_outbox_event, is_published,
}
use wagering_wallet_service.Store.{Store, Tx, execute, query}

abbrev pub has_id : Uuid → OutboxEvent → Bool
has_id id e = e.id == id

-- The columns that `Append` writes; the others have their defaults.
abbrev pub row_of : OutboxEvent → OutboxEvent
row_of e = record e {
  attempts = pos 0;
  locked_by = "";
  locked_until = no_time;
  last_error = "";
  published_at = no_time;
}

unfoldable pub append_in : OutboxEvent → Store → Result (Unit {0} × Store)
append_in new store =
    if any (has_id new.id) store.outbox
    then err database
    else ok (tt, record store { outbox = row_of new ∷ store.outbox })

-- `Append`
abbrev pub append : OutboxEvent → Tx (Unit {0})
append new = execute (append_in new)

-- What a claim may take: due, not published, under no lease.
abbrev pub is_claimable : Instant → OutboxEvent → Bool
is_claimable now e =
    not (is_published e)
    && leb e.next_attempt_at now
    && (is_unset e.locked_until || ltb e.locked_until now)

-- `ORDER BY next_attempt_at, id`
abbrev pub comes_before : OutboxEvent → OutboxEvent → Bool
comes_before e f =
    ltb e.next_attempt_at f.next_attempt_at
    || (e.next_attempt_at == f.next_attempt_at && leb e.id f.id)

unfoldable pub insert_ordered : OutboxEvent → List OutboxEvent → List OutboxEvent
insert_ordered e [] = e ∷ []
insert_ordered e (f ∷ fs) =
    let rest = insert_ordered e fs in if comes_before e f then e ∷ f ∷ fs else f ∷ rest

unfoldable pub ordered : List OutboxEvent → List OutboxEvent
unfolding insert_ordered
ordered [] = []
ordered (e ∷ es) = insert_ordered e (ordered es)

unfoldable pub chosen : Instant → ℕ → List OutboxEvent → List OutboxEvent
unfolding ordered
chosen now limit rows = take limit (ordered (select (is_claimable now) rows))

abbrev pub leased : String → Instant → OutboxEvent → OutboxEvent
leased owner until e = record e {
  locked_by = owner;
  locked_until = until;
  attempts = e.attempts +ℤ pos 1;
}

-- `attempts` is a 32-bit column.
abbrev pub max_attempts : ℕ
max_attempts = 2147483647

abbrev pub is_exhausted : OutboxEvent → Bool
is_exhausted e = not (ltb_ℤ e.attempts (pos max_attempts))

abbrev pub is_among : List OutboxEvent → OutboxEvent → Bool
is_among rows e = any (has_id e.id) rows

-- `scanOutboxEvent`: the columns that are scanned.
abbrev pub snapshot_in : OutboxEvent → OutboxSnapshot
snapshot_in e = record {
  id = e.id;
  aggregate_type = e.aggregate_type;
  aggregate_id = e.aggregate_id;
  event_type = e.event_type;
  event_version = e.event_version;
  correlation_id = e.correlation_id;
  causation_id = e.causation_id;
  partition_key = e.partition_key;
  payload = e.payload;
  occurred_at = e.occurred_at;
  attempts = e.attempts;
  next_attempt_at = e.next_attempt_at;
  locked_by = e.locked_by;
  locked_until = e.locked_until;
  last_error = e.last_error;
  published_at = e.published_at;
}

unfoldable pub scan_all : List OutboxEvent → Result (List OutboxEvent)
scan_all [] = ok []
scan_all (row ∷ rows) =
    let rest = scan_all rows in
    elim (rehydrate_outbox_event (snapshot_in row)) [
      | err failure ↦ err failure
      | ok e ↦ elim rest [ err failure ↦ err failure | ok es ↦ ok (e ∷ es) ]
    ]

unfoldable pub claim_in :
    String → Instant → Duration → ℕ → Store → Result (List OutboxEvent × Store)
unfolding chosen scan_all
claim_in owner now lease limit store =
    let rows = chosen now limit store.outbox in
    let until = now + lease in
    if any is_exhausted rows
    then err database
    else elim (scan_all (map (leased owner until) rows)) [
      | err failure ↦ err failure
      | ok claimed ↦ ok (
        claimed,
        record store { outbox = update_where (is_among rows) (leased owner until) store.outbox },
      )
    ]

-- `Claim`
abbrev pub claim : String → Instant → Duration → ℕ → Tx (List OutboxEvent)
claim owner now lease limit = execute (claim_in owner now lease limit)

-- The row on which the receipt is still current.
abbrev pub is_current : Receipt → Instant → OutboxEvent → Bool
is_current r clock e =
    has_id r.id e
    && not (is_empty e.locked_by)
    && str_eq e.locked_by r.owner
    && eqb_ℤ e.attempts r.generation
    && not (is_published e)
    && not (is_unset e.locked_until)
    && ltb clock e.locked_until

abbrev pub published_row : Instant → OutboxEvent → OutboxEvent
published_row moment e = record e {
  published_at = moment;
  locked_by = "";
  locked_until = no_time;
  last_error = "";
}

abbrev pub failed_row : Instant → String → OutboxEvent → OutboxEvent
failed_row next_attempt_at reason e = record e {
  next_attempt_at = next_attempt_at;
  last_error = reason;
  locked_by = "";
  locked_until = no_time;
}

-- An update of the row on which the receipt is current; the answer says whether there is one.
unfoldable pub finish_in :
    (OutboxEvent → OutboxEvent) → Receipt → Instant → Store → Result (Bool × Store)
finish_in change r clock store = ok (
  any (is_current r clock) store.outbox,
  record store { outbox = update_where (is_current r clock) change store.outbox },
)

-- `MarkPublished`
abbrev pub mark_published : Receipt → Instant → Instant → Tx Bool
mark_published r moment clock = execute (finish_in (published_row moment) r clock)

-- `truncate`, of an ASCII text.
pub truncate : ℕ → String → String
truncate zero value = ""
truncate (suc limit) String.[] = ""
truncate (suc limit) (String.◌∷◌ c value) = String.◌∷◌ c (truncate limit value)

-- `MarkFailed`
abbrev pub mark_failed : Receipt → String → Instant → Instant → Tx Bool
mark_failed r reason next_attempt_at clock =
    execute (finish_in (failed_row next_attempt_at (truncate 1000 reason)) r clock)

-- `PendingStats`, its first column.
abbrev pub count_pending : Tx ℕ
count_pending = query (λ store. ok (count_where (λ e. not (is_published e)) store.outbox))
