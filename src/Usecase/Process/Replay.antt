-- ===== src/Usecase/Process/Replay.antt =====
-- A command that was handled before.
use wagering_wallet_service.Base.{
  if◌then◌else◌, Bool-cases, Option-cases, Result, Result-cases, idempotency_conflict, err, ok,
  Uuid, Instant, find, any, any-find-none, ℕ, ◌+◌, String, ◌≡◌, refl, ap, ◌∙◌, inl, inr, Bool, true,
  false, Option, none, some, List, [], ◌∷◌, arith, str_eq,
}
use wagering_wallet_service.Wagering.Transaction.{
  Transaction, new_external, check_external, external_transaction,
}
use wagering_wallet_service.Event.{Envelope}
use wagering_wallet_service.Base.{ap, ◌∙◌}
use wagering_wallet_service.Store.{Store, Session, Tx, ◌>>=◌, pure_result, execute}
use wagering_wallet_service.Store.Transactions
use wagering_wallet_service.Usecase.Input.{
  ProcessWagerInput, ProcessWagerResult, from_queue, wager_command, wager_result,
}
use wagering_wallet_service.Usecase.Process.{
  ProcessSettings, complete_inbox, replay_with, replay, settle_inserted, process_unhandled,
  unless_handled, register_when_queued, run,
}

any-some :
    (p : Transaction → Bool) (ts : List Transaction) {t : Transaction}
    → find p ts ≡ some t
    → any p ts ≡ true
any-some p ts found = elim (Bool-cases (any p ts)) [
  | inl there ↦ there
  | inr gone ↦ absurd (ground (arith, found, any-find-none p ts gone))
]

any-implied :
    (p q : Transaction → Bool) (ts : List Transaction)
    → ((t : Transaction) → p t ≡ true → q t ≡ true)
    → any p ts ≡ true
    → any q ts ≡ true
any-implied p q [] implies h = h
any-implied p q (t ∷ ts) implies h = elim (Bool-cases (p t)) [
  | inl here ↦ ground (arith, implies t here)
  | inr other ↦ ground (arith, h, other, any-implied p q ts implies)
]

find_one-any :
    (p : Transaction → Bool) (store : Store) (t : Transaction)
    → Transactions.find_one p store ≡ ok (some t)
    → any p store.transactions ≡ true
unfolding Transactions.find_one
find_one-any p store t h = elim (Option-cases (find p store.transactions)) [
  | inl gone ↦ absurd (ground (arith, h, gone))
  | inr (row, there) ↦ any-some p store.transactions there
]

-- The operation of a command has its provider and its key.
same_key :
    (input : ProcessWagerInput) (payload_hash : String) (key : Uuid) (now : Instant)
    (t : Transaction)
    → new_external (wager_command input payload_hash) key now ≡ ok t
    → (t.provider_id ≡ input.provider_id) × (t.idempotency_key ≡ input.idempotency_key)
unfolding new_external external_transaction
same_key input payload_hash key now t h =
    elim (Result-cases (check_external (wager_command input payload_hash) key now)) [
      | inl (u, passed) ↦ (ground (arith, h, passed), ground (arith, h, passed))
      | inr (e, refused) ↦ absurd (ground (arith, h, refused))
    ]

insert-known :
    (new t : Transaction) (store : Store)
    → Transactions.find_one (Transactions.by_key new.provider_id new.idempotency_key) store
      ≡ ok (some t)
    → Transactions.insert_in new store ≡ ok (false, store)
unfolding Transactions.insert_in
insert-known new t store h =
    rw
      (any-implied (Transactions.by_key new.provider_id new.idempotency_key)
        (Transactions.collides new) store.transactions (λ u matches. ground (arith, matches))
        (find_one-any (Transactions.by_key new.provider_id new.idempotency_key) store t h))
      refl

-- The next step of a sequence whose first step succeeded.
bind-step {ℓ κ} :
    {A : Type ℓ} {B : Type κ} (m : Tx A) (f : A → Tx B) (s : Session) {a : A} {s' : Session}
    → m s ≡ ok (a, s')
    → (m >>= f) s ≡ f a s'
bind-step m f s h = rw (◌>>=◌, h) refl

execute-step {ℓ} :
    {A : Type ℓ} (f : Store → Result (A × Store)) (s : Session) {a : A}
    → f s.store ≡ ok (a, s.store)
    → execute f s ≡ ok (a, s)
execute-step f s h = rw (execute, h) refl

-- What a command that did not come from a queue answers when its key was used before: the stored
-- outcome for the same payload, and a conflict for another. Nothing is written.
module _ (uuid_text : Uuid → String) (marshal : Envelope → Result (List ℕ)) (ids : ℕ → Uuid)
    (settings : ProcessSettings) (input : ProcessWagerInput) (payload_hash : String)
    (received_at now : Instant) (s : Session) (operation t : Transaction)
    (direct : from_queue input ≡ false)
    (made : new_external (wager_command input payload_hash) (ids s.drawn) now ≡ ok operation)
    (known : Transactions.find_one
        (Transactions.by_key input.provider_id input.idempotency_key)
        s.store
      ≡ ok (some t)) where
  abbrev answer : Result (ProcessWagerResult × Session)
  answer =
      if str_eq t.payload_hash payload_hash
      then ok (wager_result t true, record s { drawn = s.drawn + 1 })
      else err (idempotency_conflict t.id)

  abbrev drawn_one : Session
  drawn_one = record s { drawn = s.drawn + 1 }

  replay_with-answer : replay_with input payload_hash now (some t) drawn_one ≡ answer
  unfolding replay_with complete_inbox
  replay_with-answer = elim (Bool-cases (str_eq t.payload_hash payload_hash)) [
    | inl same ↦ rw same (rw direct refl)
    | inr other ↦ rw other refl
  ]

  replay-answer : replay input payload_hash now drawn_one ≡ answer
  unfolding replay
  replay-answer =
      bind-step (Transactions.find_by_idempotency_key input.provider_id input.idempotency_key)
        (replay_with input payload_hash now) drawn_one
        (ap (λ (m : Result (Option Transaction)). pure_result m drawn_one) known)
      ∙ replay_with-answer

  unregistered : register_when_queued input received_at s ≡ ok (none, s)
  unfolding register_when_queued
  unregistered = rw direct refl

  inserted_before : Transactions.insert_in operation s.store ≡ ok (false, s.store)
  inserted_before =
      let (provider, key) = same_key input payload_hash (ids s.drawn) now operation made in
      insert-known operation t s.store (rw (provider, key) known)

  insert-answer : Transactions.insert operation drawn_one ≡ ok (false, drawn_one)
  insert-answer = execute-step (Transactions.insert_in operation) drawn_one inserted_before

  process-answer :
      process_unhandled uuid_text marshal ids settings input payload_hash now s ≡ answer
  unfolding process_unhandled settle_inserted
  process-answer =
      bind-step (pure_result (new_external (wager_command input payload_hash) (ids s.drawn) now))
        (λ operation. do
          inserted ← Transactions.insert operation
          settle_inserted uuid_text marshal ids settings input payload_hash now operation inserted)
        drawn_one (ap (λ (m : Result Transaction). pure_result m drawn_one) made)
      ∙ bind-step (Transactions.insert operation)
          (settle_inserted uuid_text marshal ids settings input payload_hash now operation)
          drawn_one insert-answer
      ∙ replay-answer

  -- A valid command that did not come from a queue and whose idempotency key was used before answers
  -- the stored outcome, marked as a replay, when its payload has the stored hash, and otherwise the
  -- conflict with the stored operation; either way it writes nothing.
  pub run-replay : run uuid_text marshal ids settings input payload_hash received_at now s ≡ (
      if str_eq t.payload_hash payload_hash
      then ok (wager_result t true, record s { drawn = s.drawn + 1 })
      else err (idempotency_conflict t.id))
  unfolding run
  run-replay =
      bind-step (register_when_queued input received_at)
        (unless_handled uuid_text marshal ids settings input payload_hash now) s unregistered
      ∙ process-answer
