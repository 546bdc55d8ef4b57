-- ===== src/Wagering/Snapshot/Settled.antt =====
-- `MarkProcessed` and `MarkRejected` keep an operation storable.
use wagering_wallet_service.Base.{
  ◌==◌, ok, Uuid, is_nil, Instant, is_unset, is_empty, ◌≡◌, refl, sym, ◌∙◌, true, false, not, ◌&&◌,
  ◌||◌, arith,
}
use wagering_wallet_service.Money.{Money, is_valid, is_negative, currency_eq}
use wagering_wallet_service.Wagering.Kind.{
  FailureCode, is_terminal, is_reversal, forbids_reference, is_failure_code, is_permanent,
}
use wagering_wallet_service.Wagering.Transaction.{
  Transaction, check_processed, as_processed, check_rejected, as_rejected,
}
use wagering_wallet_service.Wagering.Snapshot.{command_of, validate_origin, validate_result}
use wagering_wallet_service.Wagering.Snapshot.Stored.{Shaped, Scheduled, IsStorable, snapshot_of}
use wagering_wallet_service.Wagering.Snapshot.Open.{IsOpen, validate_origin-external}

-- What the checks of `MarkProcessed` let through.
pub record Processable (b : Money) (reference : Uuid) (now : Instant) (t : Transaction)
    : Type 0 where
  pub dated : is_unset now ≡ false
  pub live : is_terminal t.status ≡ false
  pub known : is_valid b ≡ true
  pub nonneg : is_negative b ≡ false
  pub same_currency : currency_eq b.currency t.amount.currency ≡ true
  pub resolved : (is_reversal t.kind && is_nil reference) ≡ false
  pub not_self : (reference == t.id) ≡ false
  pub allowed :
      (not (is_nil reference) && (forbids_reference t.kind || is_empty t.reference_external_id))
      ≡ false

pub check_processed-ok :
    (b : Money) (reference : Uuid) (now : Instant) (t : Transaction)
    → check_processed b reference now t ≡ ok tt
    → Processable b reference now t
unfolding check_processed
check_processed-ok b reference now t h = ground arith

module _ (b : Money) (reference : Uuid) (now : Instant) (t : Transaction) (h : IsStorable t)
    (p : Processable b reference now t) (o : IsOpen t) where
  processed-Shaped : Shaped (as_processed b reference now t)
  unfolding as_processed
  processed-Shaped = record {
    id_given = h.shaped.id_given;
    wallet_given = h.shaped.wallet_given;
    player_given = h.shaped.player_given;
    origin_known = h.shaped.origin_known;
    kind_known = h.shaped.kind_known;
    status_known = refl;
    code_known = h.shaped.code_known;
    created = h.shaped.created;
    updated = p.dated;
  }

  processed-Scheduled : Scheduled (as_processed b reference now t)
  unfolding as_processed
  processed-Scheduled = record {
    attempts = h.scheduled.attempts;
    not_self = ground (arith, h.scheduled.not_self, p.not_self);
    allowed = ground (arith, h.scheduled.allowed, p.allowed);
    completed = p.dated;
    next_set = refl;
    deadline_set = refl;
    reversal = λ e. cc;
  }

  processed_origin : validate_origin (snapshot_of (as_processed b reference now t)) ≡ ok tt
  unfolding as_processed snapshot_of command_of
  processed_origin =
      validate_origin-external (snapshot_of (as_processed b reference now t)) o.external
      ∙ sym (validate_origin-external (snapshot_of t) o.external)
      ∙ h.origin

  processed_result : validate_result (snapshot_of (as_processed b reference now t)) ≡ ok tt
  unfolding as_processed snapshot_of validate_result
  processed_result =
      ground (arith, p.known, p.nonneg, p.same_currency, p.resolved, o.no_failure, o.unresolved)

  pub as_processed-IsStorable : IsStorable (as_processed b reference now t)
  as_processed-IsStorable = record {
    shaped = processed-Shaped;
    scheduled = processed-Scheduled;
    origin = processed_origin;
    result = processed_result;
  }

-- What the checks of `MarkRejected` let through.
pub record Rejectable (code : FailureCode) (b : Money) (now : Instant) (t : Transaction)
    : Type 0 where
  pub dated : is_unset now ≡ false
  pub live : is_terminal t.status ≡ false
  pub code_known : is_failure_code code ≡ true
  pub temporary : is_permanent code ≡ false
  pub known : is_valid b ≡ true
  pub nonneg : is_negative b ≡ false

pub check_rejected-ok :
    (code : FailureCode) (b : Money) (now : Instant) (t : Transaction)
    → check_rejected code b now t ≡ ok tt
    → Rejectable code b now t
unfolding check_rejected
check_rejected-ok code b now t h = ground arith

module _ (code : FailureCode) (b : Money) (now : Instant) (t : Transaction) (h : IsStorable t)
    (p : Rejectable code b now t) (o : IsOpen t) where
  rejected-Shaped : Shaped (as_rejected code b now t)
  unfolding as_rejected
  rejected-Shaped = record {
    id_given = h.shaped.id_given;
    wallet_given = h.shaped.wallet_given;
    player_given = h.shaped.player_given;
    origin_known = h.shaped.origin_known;
    kind_known = h.shaped.kind_known;
    status_known = refl;
    code_known = ground (arith, p.code_known);
    created = h.shaped.created;
    updated = p.dated;
  }

  rejected-Scheduled : Scheduled (as_rejected code b now t)
  unfolding as_rejected
  rejected-Scheduled = record {
    attempts = h.scheduled.attempts;
    not_self = h.scheduled.not_self;
    allowed = h.scheduled.allowed;
    completed = p.dated;
    next_set = refl;
    deadline_set = refl;
    reversal = λ e. cc;
  }

  rejected_origin : validate_origin (snapshot_of (as_rejected code b now t)) ≡ ok tt
  unfolding as_rejected snapshot_of command_of
  rejected_origin =
      validate_origin-external (snapshot_of (as_rejected code b now t)) o.external
      ∙ sym (validate_origin-external (snapshot_of t) o.external)
      ∙ h.origin

  rejected_result : validate_result (snapshot_of (as_rejected code b now t)) ≡ ok tt
  unfolding as_rejected snapshot_of validate_result
  rejected_result = ground (arith, p.known, p.nonneg, p.code_known, p.temporary)

  pub as_rejected-IsStorable : IsStorable (as_rejected code b now t)
  as_rejected-IsStorable = record {
    shaped = rejected-Shaped;
    scheduled = rejected-Scheduled;
    origin = rejected_origin;
    result = rejected_result;
  }
