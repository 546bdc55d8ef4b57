-- ===== src/Event/Settled.antt =====
-- A settled operation can always be announced.
use wagering_wallet_service.Base.{
  Bool-cases, ok, Uuid, is_nil, Instant, is_unset, is_empty, is_blank, String, ◌≡◌, refl, sym, ap,
  ◌∙◌, ◌≢◌, inl, inr, true, false, not, none, some, [], ◌∷◌, arith, eq_iff,
}
use mathlib.Core.Path.{subst}
use wagering_wallet_service.Money.{Money}
use wagering_wallet_service.Wagering.Kind.{is_internal, is_terminal, is_pending_reference}
use wagering_wallet_service.Wagering.Transaction.{Transaction, check_external, check_opening}
use wagering_wallet_service.Wagering.Snapshot.{command_of, validate_origin}
use wagering_wallet_service.Wagering.Snapshot.Stored.{IsStorable, snapshot_of}
use wagering_wallet_service.Event.{
  core_of, metadata_of, wager_transaction, EventType, Payload, new_processed, new_rejected,
  new_pending_reference, operation_event,
}
use wagering_wallet_service.Event.Announced.{Describes, Made}

metadata_of-Describes : (t : Transaction) → Describes t (metadata_of t)
unfolding metadata_of
metadata_of-Describes t = record {
  provider = refl;
  external = refl;
  round = refl;
  game = refl;
  external_reference = elim (Bool-cases (is_empty t.reference_external_id)) [
    | inl empty ↦ rw empty (sym ((eq_iff t.reference_external_id "").0 empty))
    | inr given ↦ rw given refl
  ];
  reference = elim (Bool-cases (is_nil t.reference_transaction_id)) [
    | inl missing ↦ ground (arith, missing)
    | inr given ↦ rw given refl
  ];
}

blank_nothing : is_blank "" ≡ true
unfolding is_blank
blank_nothing = refl

true-false : true ≢ false
true-false h = cc

blank_empty : (s : String) → is_blank s ≡ false → is_empty s ≡ false
blank_empty s h = elim (Bool-cases (is_empty s)) [
  | inr full ↦ full
  | inl empty ↦ absurd (
      true-false
        (sym (subst (λ x. is_blank x ≡ true) (sym ((eq_iff s "").0 empty)) blank_nothing) ∙ h))
]

IsStorable-correlated : (t : Transaction) → IsStorable t → is_empty t.correlation_id ≡ false
unfolding validate_origin check_external check_opening command_of snapshot_of
IsStorable-correlated t s = ground (arith, s.origin, blank_empty t.correlation_id)

module _ (uuid_text : Uuid → String) (event_id : Uuid) (t : Transaction) (s : IsStorable t)
    (named : is_nil event_id ≡ false) where
  announced :
      (event_type : EventType) (at : Instant) (content : Payload)
      → is_unset at ≡ false
      → operation_event uuid_text event_type event_id t at content
        ≡ ok (record {
          event_id = event_id;
          event_type = event_type;
          aggregate_type = wager_transaction;
          aggregate_id = t.id;
          correlation_id = t.correlation_id;
          causation_id = uuid_text t.id;
          occurred_at = at;
          content = content;
        })
  unfolding operation_event
  announced event_type at content dated =
      rw (operation_event, named, s.shaped.id_given, IsStorable-correlated t s, dated) refl

  processed-Made :
      (balance : Money)
      → is_unset t.completed_at ≡ false
      → Made uuid_text event_id t
          (new_processed uuid_text event_id t balance)
          EventType.processed
          (is_internal t.origin)
          t.completed_at
          (some balance)
          none
          (t.completed_at ∷ [])
  unfolding new_processed core_of
  processed-Made balance dated = elim (Bool-cases (is_internal t.origin)) [
    | inl internal ↦ rw internal (
      _,
      announced EventType.processed t.completed_at _ dated,
      record {
        id = refl;
        typed = refl;
        on = refl;
        aggregate = refl;
        correlation = refl;
        causation = refl;
        occurred = refl;
        core = refl;
        provided = tt;
        balanced = refl;
        coded = refl;
        timed = refl;
      },
    )
    | inr external ↦ rw external (
      _,
      announced EventType.processed t.completed_at _ dated,
      record {
        id = refl;
        typed = refl;
        on = refl;
        aggregate = refl;
        correlation = refl;
        causation = refl;
        occurred = refl;
        core = refl;
        provided = metadata_of-Describes t;
        balanced = refl;
        coded = refl;
        timed = refl;
      },
    )
  ]

  -- Every storable operation can be announced, under an event id that is given: as processed or as
  -- rejected, at its completion, once it is terminal, and as waiting, at its last update, while it
  -- waits for its reference. The event is of that type, names the operation as its aggregate and its
  -- cause, and says whose it is, of what kind and amount, its provider and references unless it is an
  -- opening that is processed, and as the case may be the balance, the failure code and the times.
  pub new_event-IsStorable :
      (balance : Money)
      → (is_terminal t.status ≡ true
          → Made uuid_text event_id t
              (new_processed uuid_text event_id t balance)
              EventType.processed
              (is_internal t.origin)
              t.completed_at
              (some balance)
              none
              (t.completed_at ∷ [])
            × Made uuid_text event_id t
                (new_rejected uuid_text event_id t balance)
                EventType.rejected
                false
                t.completed_at
                (some balance)
                (some t.failure_code)
                (t.completed_at ∷ []))
        × (is_pending_reference t.status ≡ true
            → Made uuid_text event_id t
                (new_pending_reference uuid_text event_id t)
                EventType.pending_reference
                false
                t.updated_at
                none
                none
                (t.next_attempt_at ∷ t.reference_deadline_at ∷ []))
  unfolding new_rejected new_pending_reference core_of
  new_event-IsStorable balance = (
    λ terminal.
        let dated : is_unset t.completed_at ≡ false = s.scheduled.completed ∙ ap not terminal in
        (
          processed-Made balance dated,
          (
            _,
            announced EventType.rejected t.completed_at _ dated,
            record {
              id = refl;
              typed = refl;
              on = refl;
              aggregate = refl;
              correlation = refl;
              causation = refl;
              occurred = refl;
              core = refl;
              provided = metadata_of-Describes t;
              balanced = refl;
              coded = refl;
              timed = refl;
            },
          ),
        ),
    λ waiting. (
      _,
      announced EventType.pending_reference t.updated_at _ s.shaped.updated,
      record {
        id = refl;
        typed = refl;
        on = refl;
        aggregate = refl;
        correlation = refl;
        causation = refl;
        occurred = refl;
        core = refl;
        provided = metadata_of-Describes t;
        balanced = refl;
        coded = refl;
        timed = refl;
      },
    ),
  )
