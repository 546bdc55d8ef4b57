-- ===== src/Wagering/Snapshot/Born.antt =====
-- A new operation is storable.
use wagering_wallet_service.Base.{ok, Uuid, Instant, String, ◌≡◌, refl, ◌∙◌, false, arith}
use wagering_wallet_service.Money.{Money}
use wagering_wallet_service.Money.Exact.{currency_eq_refl}
use wagering_wallet_service.Wagering.Kind.{is_opening}
use wagering_wallet_service.Wagering.Transaction.{
  Transaction, Command, check_external, external_transaction, check_opening, opening_transaction,
}
use wagering_wallet_service.Wagering.Snapshot.{command_of, validate_origin, validate_result}
use wagering_wallet_service.Wagering.Snapshot.Stored.{Shaped, Scheduled, IsStorable, snapshot_of}
use wagering_wallet_service.Wagering.Snapshot.Open.{validate_origin-external}

module _ (c : Command) (id : Uuid) (now : Instant) (h : check_external c id now ≡ ok tt) where
  external-Shaped : Shaped (external_transaction c id now)
  unfolding check_external external_transaction
  external-Shaped = ground arith

  external-Scheduled : Scheduled (external_transaction c id now)
  unfolding check_external external_transaction
  external-Scheduled = ground arith

  external_kind : is_opening c.kind ≡ false
  unfolding check_external
  external_kind = ground arith

  external_origin : validate_origin (snapshot_of (external_transaction c id now)) ≡ ok tt
  unfolding external_transaction snapshot_of command_of
  external_origin =
      validate_origin-external (snapshot_of (external_transaction c id now)) external_kind ∙ h

  external_result : validate_result (snapshot_of (external_transaction c id now)) ≡ ok tt
  unfolding external_transaction snapshot_of validate_result
  external_result = refl

  pub external_transaction-IsStorable : IsStorable (external_transaction c id now)
  external_transaction-IsStorable = record {
    shaped = external-Shaped;
    scheduled = external-Scheduled;
    origin = external_origin;
    result = external_result;
  }

module _ (id wallet_id player_id : Uuid) (amount : Money) (correlation_id : String) (now : Instant)
    (h : check_opening id wallet_id player_id amount correlation_id now ≡ ok tt) where
  abbrev first : Transaction
  first = opening_transaction id wallet_id player_id amount correlation_id now

  opening-Shaped : Shaped first
  unfolding check_opening opening_transaction
  opening-Shaped = ground arith

  opening-Scheduled : Scheduled first
  unfolding check_opening opening_transaction
  opening-Scheduled = ground arith

  opening_origin : validate_origin (snapshot_of first) ≡ ok tt
  unfolding opening_transaction snapshot_of validate_origin
  opening_origin = ground (arith, h, currency_eq_refl amount.currency)

  opening_result : validate_result (snapshot_of first) ≡ ok tt
  unfolding check_opening opening_transaction snapshot_of validate_result
  opening_result = ground (arith, currency_eq_refl amount.currency)

  pub opening_transaction-IsStorable : IsStorable first
  opening_transaction-IsStorable = record {
    shaped = opening-Shaped;
    scheduled = opening-Scheduled;
    origin = opening_origin;
    result = opening_result;
  }
