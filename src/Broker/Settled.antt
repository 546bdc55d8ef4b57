-- ===== src/Broker/Settled.antt =====
-- The consumer, the listener and the use case together: what is true of a message that is gone.
use wagering_wallet_service.Broker.Kept.{
  dispatch-session, deletes, Justified, settled, parked, dispatch-Justified,
}
use wagering_wallet_service.Usecase.Process.Execute.{
  execute_process-error, execute_process-answer, execute_process,
}
use wagering_wallet_service.Broker.Consumer.{
  delivery_of, send_dead_letter, dispatch, DeadLetter, Consumer, Inbound, Circumstance, Call,
  ConsumerSettings,
}
use wagering_wallet_service.Usecase.Process.{ProcessSettings, run}
use wagering_wallet_service.Event.{Envelope}
use mathlib.Core.Path.{subst}
use wagering_wallet_service.Base.{
  some, RepositoryError, of_repository, Sum-cases, sym, ap, ◌∙◌, ◌∷◌, true, ◌++◌, false, ℤ, Instant,
  Bool-cases, Option-cases, Failure, Result, err, ok, Uuid, ℕ, String, ◌≡◌, refl, ◌≢◌, inl, inr,
  Bool, Option, List, arith,
}
use wagering_wallet_service.Store.{Session}
use wagering_wallet_service.Store.UnitOfWork.{Fate, Outcome}
use wagering_wallet_service.Usecase.Input.{ProcessWagerInput, ProcessWagerResult}
use wagering_wallet_service.Doors.{TagResult}
use wagering_wallet_service.Doors.Message.{WagerMessage, Document}
use wagering_wallet_service.Broker.Listener.{
  rejection, reason_text, Reason, Handled, Message, accepted, is_commit_unknown, rejection_reason,
  refused_with, answer_to, input_of, handle,
}

refused_with-apart : (e : Failure) → refused_with e ≢ accepted
unfolding refused_with
refused_with-apart e h = elim (Bool-cases (is_commit_unknown e)) [
  | inl unknown ↦ ground (arith, h, unknown)
  | inr known ↦ elim (Option-cases (rejection_reason e)) [
    | inl free ↦ ground (arith, h, known, free)
    | inr (reason, found) ↦ ground (arith, h, known, found)
  ]
]

answer_to-accepted :
    (m : Result ProcessWagerResult) → answer_to m ≡ accepted → (r : ProcessWagerResult) × (m ≡ ok r)
answer_to-accepted (ok r) h = (r, refl)
answer_to-accepted (err e) h = absurd (refused_with-apart e h)

refused_with-rejection :
    (e : Failure) {reason : Reason}
    → refused_with e ≡ rejection reason
    → (is_commit_unknown e ≡ false) × (rejection_reason e ≡ some reason)
unfolding refused_with
refused_with-rejection e h = elim (Bool-cases (is_commit_unknown e)) [
  | inl unknown ↦ absurd (ground (arith, h, unknown))
  | inr known ↦ elim (Option-cases (rejection_reason e)) [
    | inl free ↦ absurd (ground (arith, h, known, free))
    | inr (reason, found) ↦ (known, ground (arith, h, known, found))
  ]
]

answer_to-rejection :
    (m : Result ProcessWagerResult) {reason : Reason}
    → answer_to m ≡ rejection reason
    → (e : Failure) × (m ≡ err e)
      × (is_commit_unknown e ≡ false)
      × (rejection_reason e ≡ some reason)
answer_to-rejection (ok r) h = absurd (ground (arith, h))
answer_to-rejection (err e) h =
    let (known, found) = refused_with-rejection e h in (e, refl, known, found)

known-apart :
    (e : Failure)
    → is_commit_unknown e ≡ false
    → e ≢ of_repository RepositoryError.commit_outcome_unknown
known-apart e known h = absurd (ground (arith, known, h))

module _ (read_json : List ℕ → Document) (tags : WagerMessage → TagResult)
    (is_timestamp : String → Bool) (parse_uuid : String → Option Uuid)
    (hash_bytes : List ℕ → String) where
  module _ (process : ProcessWagerInput → Session → Outcome ProcessWagerResult) where
    handle-accepted :
        (m : Message) (s : Session)
        → (handle read_json tags is_timestamp parse_uuid hash_bytes process m s).0 ≡ accepted
        → (input : ProcessWagerInput) × (input_of read_json tags is_timestamp parse_uuid hash_bytes
              m
            ≡ inr input)
          × (r : ProcessWagerResult) × ((process input s).answer ≡ ok r)
          × ((handle read_json tags is_timestamp parse_uuid hash_bytes process m s).1
              ≡ (process input s).session)
    unfolding handle
    handle-accepted m s h =
        elim (Sum-cases (input_of read_json tags is_timestamp parse_uuid hash_bytes m)) [
          | inl (reason, turned_away) ↦ absurd (ground (arith, h, turned_away))
          | inr (input, read) ↦
              let (r, answered) =
                answer_to-accepted (process input s).answer (ground (arith, h, read)) in
              (input, read, r, answered, ground (arith, read))
        ]

  module _ (uuid_text : Uuid → String) (marshal : Envelope → Result (List ℕ)) (ids : ℕ → Uuid)
      (process_settings : ProcessSettings) (tag_problems : ProcessWagerInput → List String)
      (hash : ProcessWagerInput → Result String) (retry_attempts : ℕ) (fates : ℕ → Fate)
      (received_at now : Instant) where
    -- The listener on the use case.
    abbrev pub wager_listener : Message → Session → Handled × Session
    wager_listener = handle read_json tags is_timestamp parse_uuid hash_bytes (λ input s.
        execute_process uuid_text marshal ids process_settings tag_problems hash retry_attempts
          fates input received_at now s)

    -- Why the message is refused: no input is made of it, or its processing fails with an error that
    -- stands for the reason.
    pub data Rejected (m : Message) (before : Session) (reason : Reason) : Type 0 where
      turned_away :
          input_of read_json tags is_timestamp parse_uuid hash_bytes m ≡ inl reason
          → Rejected m before reason
      refused :
          (input : ProcessWagerInput) (e : Failure)
          → input_of read_json tags is_timestamp parse_uuid hash_bytes m ≡ inr input
          → (execute_process uuid_text marshal ids process_settings tag_problems hash retry_attempts
              fates input received_at now before).answer
            ≡ err e
          → rejection_reason e ≡ some reason
          → Rejected m before reason

    -- The processing of the message is committed, or a letter with its body and the reason why it is
    -- refused is taken and the database is as it was.
    pub data NotLost (m : Message) (before after : Session) (calls : List Call) : Type 0 where
      committed :
          (input : ProcessWagerInput) (payload_hash : String) (r : ProcessWagerResult)
          → input_of read_json tags is_timestamp parse_uuid hash_bytes m ≡ inr input
          → hash input ≡ ok payload_hash
          → run uuid_text marshal ids process_settings input payload_hash received_at now before
            ≡ ok (r, after)
          → NotLost m before after calls
      dead_lettered :
          (reason : Reason) (letter : DeadLetter) (earlier later : List Call)
          → Rejected m before reason
          → after ≡ before
          → letter.body ≡ m.body
          → letter.reason ≡ reason_text reason
          → calls ≡ later ++ send_dead_letter letter true ∷ earlier
          → NotLost m before after calls

    handle-rejection :
        (m : Message) (s : Session) {reason : Reason}
        → (wager_listener m s).0 ≡ rejection reason
        → Rejected m s reason × ((wager_listener m s).1 ≡ s)
    unfolding handle
    handle-rejection m s {reason} h =
        elim (Sum-cases (input_of read_json tags is_timestamp parse_uuid hash_bytes m)) [
          | inl (other, away) ↦ (turned_away (ground (arith, h, away)), ground (arith, away))
          | inr (input, read) ↦
              let work =
                execute_process uuid_text marshal ids process_settings tag_problems hash
                  retry_attempts fates input received_at now s in
              let answered : answer_to work.answer ≡ rejection reason = ground (arith, h, read) in
              let (e, failed, known, found) = answer_to-rejection work.answer answered in
              (
                refused input e read failed found,
                elim (execute_process-error uuid_text marshal ids process_settings tag_problems hash
                    retry_attempts fates input received_at now s failed) [
                      | inl unknown ↦ absurd (known-apart e known unknown)
                      | inr same ↦ ground (arith, read, same)
                    ],
              )
        ]

    Justified-NotLost :
        (m : Message) (s : Session) (calls : List Call)
        → Justified (wager_listener m s).0 m.body calls
        → NotLost m s (wager_listener m s).1 calls
    Justified-NotLost m s calls (settled h) =
        let (input, read, r, answered, left) =
          handle-accepted
            (λ input s.
              execute_process uuid_text marshal ids process_settings tag_problems hash
                retry_attempts fates input received_at now s)
            m s h in
        let (payload_hash, hashed, ran) =
          execute_process-answer uuid_text marshal ids process_settings tag_problems hash
            retry_attempts fates input received_at now s answered in
        committed input payload_hash r read hashed (ran ∙ ap (λ t. ok (r, t)) (sym left))
    Justified-NotLost m s calls (parked reason letter before after h body because sent) =
        let (why, same) = handle-rejection m s h in
        dead_lettered reason letter before after why same body because sent

    module _ (atoi : String → Option ℤ) (settings : ConsumerSettings) (source : String → String)
        (dead_letter_id : String → String → String → Option String) where
      -- When a dispatch deletes a message from its queue, the processing of the message is committed and
      -- is what the dispatch leaves in the database; or the message was refused, the dead letter queue
      -- took a letter with its body and the reason of the refusal, and the dispatch leaves the database
      -- as it was; so it is whatever the broker, the context and the database answer.
      pub dispatch-NotLost :
          (c : Circumstance) (queue : String) (m : Inbound) (s : Consumer) (session : Session)
          → deletes s ≡ false
          → deletes
              (dispatch atoi settings source dead_letter_id wager_listener c queue m s session).0
            ≡ true
          → NotLost
              (delivery_of atoi m)
              session
              (dispatch atoi settings source dead_letter_id wager_listener c queue m s session).1
              (dispatch atoi settings source dead_letter_id wager_listener c queue m s
                session).0.calls
      dispatch-NotLost c queue m s session clean h =
          let done =
            dispatch atoi settings source dead_letter_id wager_listener c queue m s session in
          subst (λ after. NotLost (delivery_of atoi m) session after done.0.calls)
            (sym (
              dispatch-session atoi settings source dead_letter_id wager_listener c queue m s
                session clean h))
            (Justified-NotLost (delivery_of atoi m) session done.0.calls (
              dispatch-Justified atoi settings source dead_letter_id wager_listener c queue m s
                session clean h))
