-- ===== src/Broker/Kept.antt =====
-- No message is lost: one that is deleted was settled, or is in the dead letter queue.
use wagering_wallet_service.Base.{
  Bool-cases, Option-cases, any, ℤ, ltb_ℤ, ℕ, String, ◌≡◌, refl, sym, ap, ◌∙◌, inl, inr, Bool, true,
  false, Option, List, [], ◌∷◌, ◌++◌, arith,
}
use mathlib.Core.Path.{subst}
use wagering_wallet_service.Store.{Session}
use wagering_wallet_service.Broker.Listener.{
  Message, Reason, reason_text, Handled, accepted, unknown_outcome, rejection, other_error,
}
use wagering_wallet_service.Broker.Consumer.{
  ConsumerSettings, receive_count, Inbound, DeadLetter, Call, delete_message, send_dead_letter,
  Consumer, Circumstance, tally, enter, message_received, delivery_of, dispatch, acknowledge,
  dead_letter, dead_letter_of, retry_later,
}

abbrev pub is_deletion : Call → Bool
is_deletion (delete_message _ _) = true
is_deletion _ = false

abbrev pub deletes : Consumer → Bool
deletes s = any is_deletion s.calls

-- Why a message may be deleted: the listener accepted it, or rejected it for a reason and a letter
-- with its body was taken.
pub data Justified (answer : Handled) (body : List ℕ) (calls : List Call) : Type 0 where
  settled : answer ≡ accepted → Justified answer body calls
  parked :
      (reason : Reason) (letter : DeadLetter) (before after : List Call)
      → answer ≡ rejection reason
      → letter.body ≡ body
      → letter.reason ≡ reason_text reason
      → calls ≡ after ++ send_dead_letter letter true ∷ before
      → Justified answer body calls

module _ (atoi : String → Option ℤ) (settings : ConsumerSettings) (source : String → String)
    (dead_letter_id : String → String → String → Option String) where
  retry_later-deletes :
      (queue : String) (m : Inbound) (s : Consumer)
      → deletes (retry_later atoi settings source dead_letter_id queue m s) ≡ deletes s
  unfolding retry_later
  retry_later-deletes queue m s =
      elim (Bool-cases (ltb_ℤ (receive_count atoi m) settings.max_receive_count)) [
        | inl few ↦ rw few refl
        | inr many ↦ rw many refl
      ]

  dead_letter-Justified :
      (taken : Bool) (queue : String) (m : Inbound) (reason : Reason) (s : Consumer)
      → deletes s ≡ false
      → deletes (dead_letter atoi settings source dead_letter_id taken queue m reason s) ≡ true
      → Justified
          (rejection reason)
          m.body
          (dead_letter atoi settings source dead_letter_id taken queue m reason s).calls
  unfolding dead_letter
  dead_letter-Justified taken queue m reason s clean h =
      elim (Option-cases (dead_letter_id (source queue) m.message_id (reason_text reason))) [
        | inl unnamed ↦ absurd (ground (arith, clean, h, unnamed))
        | inr (id, named) ↦ elim (Bool-cases taken) [
          | inr lost ↦ absurd (ground (arith, clean, h, named, lost))
          | inl kept ↦
              parked reason (dead_letter_of atoi settings source dead_letter_id m id reason) s.calls
                (delete_message queue m.receipt_handle ∷ []) refl refl refl
                (ground (arith, named, kept))
        ]
      ]

  acknowledge-Justified :
      (taken : Bool) (queue : String) (m : Inbound) (answer : Handled) (s : Consumer)
      → deletes s ≡ false
      → deletes (acknowledge atoi settings source dead_letter_id taken queue m answer s) ≡ true
      → Justified answer m.body
          (acknowledge atoi settings source dead_letter_id taken queue m answer s).calls
  unfolding acknowledge
  acknowledge-Justified taken queue m accepted s clean h = settled refl
  acknowledge-Justified taken queue m (unknown_outcome e) s clean h =
      absurd (ground (arith, clean, h))
  acknowledge-Justified taken queue m (rejection reason) s clean h =
      dead_letter-Justified taken queue m reason s clean h
  acknowledge-Justified taken queue m (other_error e) s clean h =
      absurd (ground (arith, clean, h, retry_later-deletes queue m s))

  dispatch-calls :
      (listen : Message → Session → Handled × Session) (c : Circumstance) (queue : String)
      (m : Inbound) (s : Consumer) (session : Session)
      → s.releasing ≡ false
      → c.ended_after_handle ≡ false
      → (dispatch atoi settings source dead_letter_id listen c queue m s session).0.calls
        ≡ (acknowledge atoi settings source dead_letter_id c.takes_dead_letter queue m
            (listen (delivery_of atoi m) session).0
            (tally message_received (enter queue m s))).calls
  unfolding dispatch
  dispatch-calls listen c queue m s session working live = elim (Bool-cases c.ended_at_return) [
    | inl ended ↦ rw (dispatch, working, live, ended) refl
    | inr open_still ↦ rw (dispatch, working, live, open_still) refl
  ]

  -- A dispatch that deletes the message has one of the two reasons.
  pub dispatch-Justified :
      (listen : Message → Session → Handled × Session) (c : Circumstance) (queue : String)
      (m : Inbound) (s : Consumer) (session : Session)
      → deletes s ≡ false
      → deletes (dispatch atoi settings source dead_letter_id listen c queue m s session).0 ≡ true
      → Justified
          (listen (delivery_of atoi m) session).0
          m.body
          (dispatch atoi settings source dead_letter_id listen c queue m s session).0.calls
  unfolding dispatch
  dispatch-Justified listen c queue m s session clean h = elim (Bool-cases s.releasing) [
    | inl released ↦ absurd (ground (arith, clean, h, released))
    | inr working ↦ elim (Bool-cases c.ended_after_handle) [
      | inl ended ↦ absurd (ground (arith, clean, h, working, ended))
      | inr live ↦
          let answer = (listen (delivery_of atoi m) session).0 in
          let entered = tally message_received (enter queue m s) in
          let same = dispatch-calls listen c queue m s session working live in
          subst (Justified answer m.body) (sym same) (
            acknowledge-Justified c.takes_dead_letter queue m answer entered clean
              (sym (ap (any is_deletion) same) ∙ h))
    ]
  ]

  -- Such a dispatch leaves what the listener left.
  pub dispatch-session :
      (listen : Message → Session → Handled × Session) (c : Circumstance) (queue : String)
      (m : Inbound) (s : Consumer) (session : Session)
      → deletes s ≡ false
      → deletes (dispatch atoi settings source dead_letter_id listen c queue m s session).0 ≡ true
      → (dispatch atoi settings source dead_letter_id listen c queue m s session).1
        ≡ (listen (delivery_of atoi m) session).1
  unfolding dispatch
  dispatch-session listen c queue m s session clean h = elim (Bool-cases s.releasing) [
    | inl released ↦ absurd (ground (arith, clean, h, released))
    | inr working ↦ rw (dispatch, working) refl
  ]
