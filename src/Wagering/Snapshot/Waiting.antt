-- ===== src/Wagering/Snapshot/Waiting.antt =====
-- `MarkPendingReference`, `Reschedule` and `MarkFailed` keep an operation storable.
use wagering_wallet_service.Base.{
  ok, Instant, is_unset, ℤ, pos, pos_part, ltb_ℤ, +ℤ_parts, max_int64, wrap64_self, parts_apart,
  ◌+ℤ◌, wrap64, ◌<◌, ◌≡◌, refl, sym, ◌∙◌, true, false, arith,
}
use wagering_wallet_service.Wagering.Kind.{
  is_terminal, is_pending, is_pending_reference, is_reversal,
}
use wagering_wallet_service.Wagering.Transaction.{
  Transaction, check_pending_reference, as_pending_reference, check_reschedule, as_rescheduled,
  check_failed, as_failed,
}
use wagering_wallet_service.Wagering.Snapshot.{command_of, validate_origin, validate_result}
use wagering_wallet_service.Wagering.Snapshot.Stored.{Shaped, Scheduled, IsStorable, snapshot_of}
use wagering_wallet_service.Wagering.Snapshot.Open.{IsOpen, validate_origin-external}

-- What the checks of `MarkPendingReference` let through.
pub record Waitable (next deadline now : Instant) (t : Transaction) : Type 0 where
  pub dated : is_unset now ≡ false
  pub next_given : is_unset next ≡ false
  pub deadline_given : is_unset deadline ≡ false
  pub fresh : is_pending t.status ≡ true
  pub live : is_terminal t.status ≡ false
  pub reversal : is_reversal t.kind ≡ true

pub check_pending_reference-ok :
    (next deadline now : Instant) (t : Transaction)
    → check_pending_reference next deadline now t ≡ ok tt
    → Waitable next deadline now t
unfolding check_pending_reference
check_pending_reference-ok next deadline now t h = ground arith

module _ (next deadline now : Instant) (t : Transaction) (h : IsStorable t)
    (p : Waitable next deadline now t) (o : IsOpen t) where
  waiting-Shaped : Shaped (as_pending_reference next deadline now t)
  unfolding as_pending_reference
  waiting-Shaped = record {
    id_given = h.shaped.id_given;
    wallet_given = h.shaped.wallet_given;
    player_given = h.shaped.player_given;
    origin_known = h.shaped.origin_known;
    kind_known = h.shaped.kind_known;
    status_known = refl;
    code_known = h.shaped.code_known;
    created = h.shaped.created;
    updated = p.dated;
  }

  waiting-Scheduled : Scheduled (as_pending_reference next deadline now t)
  unfolding as_pending_reference
  waiting-Scheduled = record {
    attempts = refl;
    not_self = h.scheduled.not_self;
    allowed = h.scheduled.allowed;
    completed = ground (arith, h.scheduled.completed, p.live);
    next_set = p.next_given;
    deadline_set = p.deadline_given;
    reversal = λ e. p.reversal;
  }

  waiting_origin : validate_origin (snapshot_of (as_pending_reference next deadline now t)) ≡ ok tt
  unfolding as_pending_reference snapshot_of command_of
  waiting_origin =
      validate_origin-external (snapshot_of (as_pending_reference next deadline now t)) o.external
      ∙ sym (validate_origin-external (snapshot_of t) o.external)
      ∙ h.origin

  waiting_result : validate_result (snapshot_of (as_pending_reference next deadline now t)) ≡ ok tt
  unfolding as_pending_reference snapshot_of validate_result
  waiting_result = ground (arith, o.no_failure, o.no_result, o.unresolved)

  pub as_pending_reference-IsStorable : IsStorable (as_pending_reference next deadline now t)
  as_pending_reference-IsStorable = record {
    shaped = waiting-Shaped;
    scheduled = waiting-Scheduled;
    origin = waiting_origin;
    result = waiting_result;
  }

-- What the checks of `Reschedule` let through, while the attempts can still be counted.
pub record Retriable (next now : Instant) (t : Transaction) : Type 0 where
  pub dated : is_unset now ≡ false
  pub next_given : is_unset next ≡ false
  pub waits : is_pending_reference t.status ≡ true
  pub live : is_terminal t.status ≡ false

pub check_reschedule-ok :
    (next now : Instant) (t : Transaction)
    → check_reschedule next now t ≡ ok tt
    → Retriable next now t
unfolding check_reschedule
check_reschedule-ok next now t h = ground arith

one_more :
    (n : ℤ)
    → ltb_ℤ n (pos 0) ≡ false
    → pos_part n < max_int64
    → ltb_ℤ (wrap64 (n +ℤ pos 1)) (pos 0) ≡ false
one_more n h room =
    ground
      (arith, +ℤ_parts n (pos 1), parts_apart n, parts_apart (n +ℤ pos 1), wrap64_self (n +ℤ pos 1))

module _ (next now : Instant) (t : Transaction) (h : IsStorable t) (p : Retriable next now t)
    (o : IsOpen t) (room : pos_part t.reference_attempts < max_int64) where
  rescheduled-Shaped : Shaped (as_rescheduled next now t)
  unfolding as_rescheduled
  rescheduled-Shaped = record {
    id_given = h.shaped.id_given;
    wallet_given = h.shaped.wallet_given;
    player_given = h.shaped.player_given;
    origin_known = h.shaped.origin_known;
    kind_known = h.shaped.kind_known;
    status_known = h.shaped.status_known;
    code_known = h.shaped.code_known;
    created = h.shaped.created;
    updated = p.dated;
  }

  rescheduled-Scheduled : Scheduled (as_rescheduled next now t)
  unfolding as_rescheduled
  rescheduled-Scheduled = record {
    attempts = one_more t.reference_attempts h.scheduled.attempts room;
    not_self = h.scheduled.not_self;
    allowed = h.scheduled.allowed;
    completed = h.scheduled.completed;
    next_set = rw (p.waits, p.next_given);
    deadline_set = h.scheduled.deadline_set;
    reversal = h.scheduled.reversal;
  }

  rescheduled_origin : validate_origin (snapshot_of (as_rescheduled next now t)) ≡ ok tt
  unfolding as_rescheduled snapshot_of command_of
  rescheduled_origin =
      validate_origin-external (snapshot_of (as_rescheduled next now t)) o.external
      ∙ sym (validate_origin-external (snapshot_of t) o.external)
      ∙ h.origin

  rescheduled_result : validate_result (snapshot_of (as_rescheduled next now t)) ≡ ok tt
  unfolding as_rescheduled snapshot_of validate_result
  rescheduled_result = ground (arith, p.waits, o.no_failure, o.no_result, o.unresolved)

  pub as_rescheduled-IsStorable : IsStorable (as_rescheduled next now t)
  as_rescheduled-IsStorable = record {
    shaped = rescheduled-Shaped;
    scheduled = rescheduled-Scheduled;
    origin = rescheduled_origin;
    result = rescheduled_result;
  }

-- What the checks of `MarkFailed` let through.
pub record Failing (now : Instant) (t : Transaction) : Type 0 where
  pub dated : is_unset now ≡ false
  pub waits : is_pending_reference t.status ≡ true
  pub live : is_terminal t.status ≡ false

pub check_failed-ok : (now : Instant) (t : Transaction) → check_failed now t ≡ ok tt → Failing now t
unfolding check_failed
check_failed-ok now t h = ground arith

module _ (now : Instant) (t : Transaction) (h : IsStorable t) (p : Failing now t)
    (o : IsOpen t) where
  failed-Shaped : Shaped (as_failed now t)
  unfolding as_failed
  failed-Shaped = record {
    id_given = h.shaped.id_given;
    wallet_given = h.shaped.wallet_given;
    player_given = h.shaped.player_given;
    origin_known = h.shaped.origin_known;
    kind_known = h.shaped.kind_known;
    status_known = refl;
    code_known = refl;
    created = h.shaped.created;
    updated = p.dated;
  }

  failed-Scheduled : Scheduled (as_failed now t)
  unfolding as_failed
  failed-Scheduled = record {
    attempts = h.scheduled.attempts;
    not_self = h.scheduled.not_self;
    allowed = h.scheduled.allowed;
    completed = p.dated;
    next_set = refl;
    deadline_set = refl;
    reversal = λ e. cc;
  }

  failed_origin : validate_origin (snapshot_of (as_failed now t)) ≡ ok tt
  unfolding as_failed snapshot_of command_of
  failed_origin =
      validate_origin-external (snapshot_of (as_failed now t)) o.external
      ∙ sym (validate_origin-external (snapshot_of t) o.external)
      ∙ h.origin

  failed_result : validate_result (snapshot_of (as_failed now t)) ≡ ok tt
  unfolding as_failed snapshot_of validate_result
  failed_result = rw (h.scheduled.reversal p.waits, o.no_result)

  pub as_failed-IsStorable : IsStorable (as_failed now t)
  as_failed-IsStorable = record {
    shaped = failed-Shaped;
    scheduled = failed-Scheduled;
    origin = failed_origin;
    result = failed_result;
  }
