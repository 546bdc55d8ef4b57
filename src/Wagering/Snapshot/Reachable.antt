-- ===== src/Wagering/Snapshot/Reachable.antt =====
-- Every operation that the constructors and the transitions can make is stored and loaded unchanged.
use wagering_wallet_service.Base.{
  arith, Result, >>=-ok, after_checks, ok, err, Uuid, Instant, pos_part, max_int64, ◌<◌, String,
  ◌≡◌, refl,
}
use mathlib.Core.Path.{subst}
use wagering_wallet_service.Money.{Money}
use wagering_wallet_service.Wagering.Kind.{FailureCode}
use wagering_wallet_service.Wagering.Transaction.{
  Transaction, Command, new_external, check_external, external_transaction, new_opening,
  check_opening, opening_transaction, check_processed, as_processed, mark_processed, check_rejected,
  as_rejected, mark_rejected, check_pending_reference, as_pending_reference, mark_pending_reference,
  check_reschedule, as_rescheduled, reschedule, check_failed, as_failed, mark_failed,
}
use wagering_wallet_service.Wagering.Snapshot.{rehydrate}
use wagering_wallet_service.Wagering.Snapshot.Stored.{
  IsStorable, snapshot_of, rehydrate-snapshot_of,
}
use wagering_wallet_service.Wagering.Snapshot.Open.{IsOpen-IsStorable}
use wagering_wallet_service.Wagering.Snapshot.Settled.{
  check_processed-ok, as_processed-IsStorable, check_rejected-ok, as_rejected-IsStorable,
}
use wagering_wallet_service.Wagering.Snapshot.Waiting.{
  check_pending_reference-ok, as_pending_reference-IsStorable, check_reschedule-ok,
  as_rescheduled-IsStorable, check_failed-ok, as_failed-IsStorable,
}
use wagering_wallet_service.Wagering.Snapshot.Born.{
  external_transaction-IsStorable, opening_transaction-IsStorable,
}

-- What the constructors and any sequence of calls, those that fail included, can lead to. An
-- operation that is rescheduled has not used up the attempts that an int64 counts.
pub data Reachable : Transaction → Type 0 where
  external :
      (c : Command) (id : Uuid) (now : Instant) {t : Transaction}
      → new_external c id now ≡ ok t
      → Reachable t
  opened :
      (id wallet_id player_id : Uuid) (amount : Money) (correlation_id : String) (now : Instant)
      {t : Transaction}
      → new_opening id wallet_id player_id amount correlation_id now ≡ ok t
      → Reachable t
  marked_processed :
      (b : Money) (reference : Uuid) (now : Instant) (t : Transaction)
      → Reachable t
      → Reachable ((mark_processed b reference now t).1)
  marked_rejected :
      (code : FailureCode) (b : Money) (now : Instant) (t : Transaction)
      → Reachable t
      → Reachable ((mark_rejected code b now t).1)
  marked_pending_reference :
      (next deadline now : Instant) (t : Transaction)
      → Reachable t
      → Reachable ((mark_pending_reference next deadline now t).1)
  rescheduled :
      (next now : Instant) (t : Transaction)
      → Reachable t
      → pos_part t.reference_attempts < max_int64
      → Reachable ((reschedule next now t).1)
  marked_failed :
      (now : Instant) (t : Transaction) → Reachable t → Reachable ((mark_failed now t).1)

-- A method that checks first and assigns last keeps what both its outcomes have.
after_checks-keeps :
    (P : Transaction → Type 0) (checks : Result (Unit {0})) (t changed : Transaction)
    → P t
    → (checks ≡ ok tt → P changed)
    → P ((after_checks checks t changed).1)
after_checks-keeps P (ok tt) t changed kept holds = holds refl
after_checks-keeps P (err e) t changed kept holds = kept

new_external-IsStorable :
    (c : Command) (id : Uuid) (now : Instant) {t : Transaction}
    → new_external c id now ≡ ok t
    → IsStorable t
unfolding new_external
new_external-IsStorable c id now h =
    let (_, passed, made) =
      >>=-ok (check_external c id now) (λ _. ok (external_transaction c id now)) h in
    subst IsStorable (ground (arith, made)) (external_transaction-IsStorable c id now passed)

new_opening-IsStorable :
    (id wallet_id player_id : Uuid) (amount : Money) (correlation_id : String) (now : Instant)
    {t : Transaction}
    → new_opening id wallet_id player_id amount correlation_id now ≡ ok t
    → IsStorable t
unfolding new_opening
new_opening-IsStorable id wallet_id player_id amount correlation_id now h =
    let (_, passed, made) =
      >>=-ok (check_opening id wallet_id player_id amount correlation_id now)
        (λ _. ok (opening_transaction id wallet_id player_id amount correlation_id now)) h in
    subst IsStorable (ground (arith, made))
      (opening_transaction-IsStorable id wallet_id player_id amount correlation_id now passed)

-- Every reachable operation is storable.
pub Reachable-IsStorable : (t : Transaction) → Reachable t → IsStorable t
unfolding mark_processed mark_rejected mark_pending_reference reschedule mark_failed
Reachable-IsStorable _ (external c id now h) = new_external-IsStorable c id now h
Reachable-IsStorable _ (opened id wallet_id player_id amount correlation_id now h) =
    new_opening-IsStorable id wallet_id player_id amount correlation_id now h
Reachable-IsStorable _ (marked_processed b reference now t r) =
    let s = Reachable-IsStorable t r in
    after_checks-keeps IsStorable (check_processed b reference now t) t
      (as_processed b reference now t) s
      (λ h.
        let p = check_processed-ok b reference now t h in
        as_processed-IsStorable b reference now t s p (IsOpen-IsStorable t s p.live))
Reachable-IsStorable _ (marked_rejected code b now t r) =
    let s = Reachable-IsStorable t r in
    after_checks-keeps IsStorable (check_rejected code b now t) t (as_rejected code b now t) s (λ h.
      let p = check_rejected-ok code b now t h in
      as_rejected-IsStorable code b now t s p (IsOpen-IsStorable t s p.live))
Reachable-IsStorable _ (marked_pending_reference next deadline now t r) =
    let s = Reachable-IsStorable t r in
    after_checks-keeps IsStorable (check_pending_reference next deadline now t) t
      (as_pending_reference next deadline now t) s
      (λ h.
        let p = check_pending_reference-ok next deadline now t h in
        as_pending_reference-IsStorable next deadline now t s p (IsOpen-IsStorable t s p.live))
Reachable-IsStorable _ (rescheduled next now t r room) =
    let s = Reachable-IsStorable t r in
    after_checks-keeps IsStorable (check_reschedule next now t) t (as_rescheduled next now t) s
      (λ h.
        let p = check_reschedule-ok next now t h in
        as_rescheduled-IsStorable next now t s p (IsOpen-IsStorable t s p.live) room)
Reachable-IsStorable _ (marked_failed now t r) =
    let s = Reachable-IsStorable t r in
    after_checks-keeps IsStorable (check_failed now t) t (as_failed now t) s (λ h.
      let p = check_failed-ok now t h in
      as_failed-IsStorable now t s p (IsOpen-IsStorable t s p.live))

-- An operation that a constructor made and any calls changed, whether they succeeded or failed, with
-- attempts left whenever it was rescheduled, is loaded from its own snapshot exactly as it was stored.
pub rehydrate-Reachable : (t : Transaction) → Reachable t → rehydrate (snapshot_of t) ≡ ok t
rehydrate-Reachable t r = rehydrate-snapshot_of t (Reachable-IsStorable t r)
