-- ===== src/Store/Tests.antt =====
-- Runs of the unit of work on concrete bodies and fates, and a claim of the outbox.
use wagering_wallet_service.Base.{
  ◌⊎◌, ◌∷◌, ok, ℕ, zero, suc, ◌+◌, ◌<◌, ◌≡◌, refl, true, none, [], arith,
}
use wagering_wallet_service.Store.{Store, Session, Tx}
use wagering_wallet_service.Base.{pos, no_time, true, false, All, ◌+ℤ◌}
use wagering_wallet_service.Messaging.{OutboxEvent, rehydrate_outbox_event}
use wagering_wallet_service.Store.Outbox.{
  claim_in, chosen, ordered, insert_ordered, scan_all, is_among, is_claimable,
}
use wagering_wallet_service.Store.Outbox.Leases.{claim_in-Exclusive}
use wagering_wallet_service.Store.UnitOfWork.{
  all_answered, Fate, CommitFate, committed, unanswered, connection_lost, deadlock_detected,
  of_server, later_failed, do_work,
}
use wagering_wallet_service.Store.UnitOfWork.Atomic.{Atomic, do_work-Atomic}
use wagering_wallet_service.Store.UnitOfWork.Attempts.{Replayed, Ends, do_work-Attempts}
use wagering_wallet_service.Store.UnitOfWork.Conflicts.{
  Conflicted, deadlock, at_later, do_work-committed,
}

abbrev no_rows : Session
no_rows = record {
  store = record { wallets = []; transactions = []; ledger = []; outbox = []; inbox = [] };
  drawn = 0;
}

abbrev fate_of : CommitFate → Fate
fate_of commit = record {
  begin = none;
  timeouts = none;
  statement = all_answered;
  commit = commit;
  interrupted = none;
}

-- A deadlock in the first attempt, and then none.
abbrev fates : ℕ → Fate
fates zero = record (fate_of committed) { statement = later_failed (of_server deadlock_detected) }
fates (suc _) = fate_of committed

abbrev lost : ℕ → Fate
lost _ = fate_of (unanswered connection_lost true)

abbrev body : Tx ℕ
body s = ok (7, record s { drawn = s.drawn + 1 })

Atomic_example : Atomic body no_rows (do_work 3 lost body no_rows)
Atomic_example = do_work-Atomic 3 lost body no_rows

committed_example :
    do_work 3 fates body no_rows
    ≡ record { answer = ok 7; session = record no_rows { drawn = 1 }; applied = 1 }
committed_example =
    do_work-committed body no_rows (record no_rows { drawn = 1 }) 7 refl 3 fates 1 (omega arith)
      conflict (record { began = refl; timed = refl; answered = refl; commits = refl })
  where
    conflict : (i : ℕ) → i < 1 → Conflicted (fates i)
    conflict zero below = record {
      code = deadlock_detected;
      conflict = deadlock;
      where_met = at_later refl refl refl;
      waited = refl;
    }
    conflict (suc i) below = absurd (omega arith)

attempts_example :
    (last : ℕ) × ((last ≡ 0) ⊎ (last < 0))
    × ((i : ℕ) → i < last → Replayed (fates i) body no_rows)
    × Ends 0 last (fates last) body no_rows (do_work 0 fates body no_rows)
attempts_example = do_work-Attempts 0 fates body no_rows

abbrev due_row : OutboxEvent
due_row = record {
  id = 9;
  aggregate_type = "wallet";
  aggregate_id = 1;
  event_type = "WalletBalanceChanged";
  event_version = pos 1;
  correlation_id = "correlation";
  causation_id = "uuid";
  partition_key = "uuid";
  payload = 123 ∷ [];
  occurred_at = 30;
  attempts = pos 0;
  next_attempt_at = 30;
  locked_by = "";
  locked_until = no_time;
  last_error = "";
  published_at = no_time;
}

abbrev one_due : Store
one_due = record no_rows.store { outbox = due_row ∷ [] }

abbrev leased_row : OutboxEvent
leased_row = record due_row { attempts = pos 1; locked_by = "publisher"; locked_until = 60 }

claim_run :
    claim_in "publisher" 40 20 5 one_due
    ≡ ok (leased_row ∷ [], record one_due { outbox = leased_row ∷ [] })
unfolding claim_in chosen ordered insert_ordered scan_all rehydrate_outbox_event ◌+ℤ◌
claim_run = refl

claim_example :
    All (λ e. is_among (leased_row ∷ []) e ≡ true → is_claimable 60 e ≡ false) (leased_row ∷ [])
claim_example = claim_in-Exclusive "publisher" 40 60 20 5 one_due refl (omega arith) claim_run
