-- ===== src/Broker/Consumer.antt =====
-- The consumer of the queues: internal/infrastructure/sqs/consumer.go. What the broker answers to each
-- call is an argument, and so are the parser of numbers, the identity of a dead letter and the
-- listener; the mutex makes the goroutines take turns, and one delivery is dispatched at a time.
use wagering_wallet_service.Base.{
  if◌then◌else◌, find, ℤ, pos, negsuc, ltb_ℤ, ◌-ℤ◌, is_empty, ℕ, ◌+◌, ◌/◌, String, ◌⊎◌, inl, inr,
  Bool, true, false, not, ◌||◌, Option, none, some, List, [], ◌∷◌, str_eq,
}
use wagering_wallet_service.Store.{Session}
use wagering_wallet_service.Usecase.Backoff.{backoff}
use wagering_wallet_service.Broker.Listener.{
  Message, attribute_in, Reason, reason_text, Handled, accepted, unknown_outcome, rejection,
  other_error,
}

-- `ConsumerSettings`, of which the model reads these.
pub record ConsumerSettings : Type 0 where
  pub backoff_base : ℤ  -- time.Duration
  pub backoff_max : ℤ  -- time.Duration
  pub max_receive_count : ℤ  -- int

-- A message as the broker delivers it; a nil text is the empty one.
pub record Inbound : Type 0 where
  pub message_id : String
  pub receipt_handle : String
  pub body : List ℕ
  pub system : List (String × String)
  pub attributes : List (String × String)

-- `delivery`
pub record Delivery : Type 0 where
  pub queue : String
  pub message : Inbound

pub record DeadLetter : Type 0 where
  pub body : List ℕ
  pub group_id : String
  pub deduplication_id : String
  pub reason : String
  pub original_message_id : String
  pub receive_count : ℤ

-- What is asked of the broker, by the queue and the handle of a message.
pub data Call : Type 0 where
  delete_message : String → String → Call
  change_visibility : String → String → ℤ → Call
  send_dead_letter : DeadLetter → Bool → Call

pub data Counted : Type 0 where
  message_received message_retried : Counted
  message_dead_lettered : String → Counted

-- The state of a consumer and what it did, the newest first.
pub record Consumer : Type 0 where
  pub in_flight : List (String × Delivery)
  pub releasing : Bool
  pub calls : List Call
  pub counted : List Counted

-- What a dispatch meets: whether its context has ended after the listener and at the end, and whether
-- the broker accepts a dead letter.
pub record Circumstance : Type 0 where
  pub ended_after_handle : Bool
  pub ended_at_return : Bool
  pub takes_dead_letter : Bool

abbrev pub call : Call → Consumer → Consumer
call c s = record s { calls = c ∷ s.calls }

abbrev pub tally : Counted → Consumer → Consumer
tally c s = record s { counted = c ∷ s.counted }

-- `int32(delay.Seconds())`, of a delay of less than 2 ^ 23 seconds.
abbrev pub whole_seconds : ℤ → ℤ
whole_seconds (pos n) = pos (n / 1000000000)
whole_seconds (negsuc n) = pos 0 -ℤ pos ((n + 1) / 1000000000)

abbrev pub without : String → List (String × Delivery) → List (String × Delivery)
without key [] = []
without key ((k, d) ∷ rest) = if str_eq k key then without key rest else (k, d) ∷ without key rest

-- `release`
abbrev pub release : Delivery → Consumer → Consumer
release d s = call (change_visibility d.queue d.message.receipt_handle (pos 0)) s

-- `remove`
abbrev pub remove : String → Inbound → Consumer → Consumer
remove queue m s = call (delete_message queue m.receipt_handle) s

-- `groupOf`
abbrev pub group_of : Inbound → String
group_of m =
    let group = attribute_in m.system "MessageGroupId" in
    if is_empty group then m.message_id else group

-- The deferred function of `dispatch`.
abbrev pub leave : Bool → String → Consumer → Consumer
leave ended key s = if ended then s else record s { in_flight = without key s.in_flight }

abbrev pub enter : String → Inbound → Consumer → Consumer
enter queue m s = record s {
  in_flight =
      (m.receipt_handle, record { queue = queue; message = m })
      ∷ without m.receipt_handle s.in_flight;
}

module _ (atoi : String → Option ℤ) where
  -- `receiveCount`; `Atoi` refuses the empty text, which stands for a missing one.
  unfoldable pub receive_count : Inbound → ℤ
  receive_count m = elim (atoi (attribute_in m.system "ApproximateReceiveCount")) [
    | none ↦ pos 1
    | some value ↦ if ltb_ℤ value (pos 1) then pos 1 else value
  ]

  -- `deliveryOf`
  abbrev pub delivery_of : Inbound → Message
  delivery_of m = record {
    broker_id = m.message_id;
    body = m.body;
    group_id = group_of m;
    receive_count = receive_count m;
    attributes = m.attributes;
  }

  module _ (settings : ConsumerSettings) (source : String → String)
      (dead_letter_id : String → String → String → Option String) where
    -- The delay of `retryLater`.
    unfoldable pub retry_delay : Inbound → ℤ
    unfolding receive_count backoff
    retry_delay m = backoff settings.backoff_base settings.backoff_max (receive_count m -ℤ pos 1)

    -- `retryLater`
    unfoldable pub retry_later : String → Inbound → Consumer → Consumer
    unfolding retry_delay
    retry_later queue m s =
        let warned =
          if ltb_ℤ (receive_count m) settings.max_receive_count
          then s
          else tally (message_dead_lettered "RETRIES_EXHAUSTED") s in
        call (change_visibility queue m.receipt_handle (whole_seconds (retry_delay m)))
          (tally message_retried warned)

    abbrev pub dead_letter_of : Inbound → String → Reason → DeadLetter
    dead_letter_of m deduplication_id reason = record {
      body = m.body;
      group_id = group_of m;
      deduplication_id = deduplication_id;
      reason = reason_text reason;
      original_message_id = m.message_id;
      receive_count = receive_count m;
    }

    -- `deadLetter`
    unfoldable pub dead_letter : Bool → String → Inbound → Reason → Consumer → Consumer
    unfolding receive_count
    dead_letter taken queue m reason s =
        elim (dead_letter_id (source queue) m.message_id (reason_text reason)) [
          | none ↦ s
          | some id ↦
              let asked = call (send_dead_letter (dead_letter_of m id reason) taken) s in
              if not taken
              then asked
              else remove queue m (tally (message_dead_lettered (reason_text reason)) asked)
        ]

    -- The end of `dispatch`: what the listener's answer asks of the broker.
    unfoldable pub acknowledge : Bool → String → Inbound → Handled → Consumer → Consumer
    unfolding retry_later dead_letter
    acknowledge taken queue m accepted s = remove queue m s
    acknowledge taken queue m (unknown_outcome _) s = s
    acknowledge taken queue m (rejection reason) s = dead_letter taken queue m reason s
    acknowledge taken queue m (other_error _) s = retry_later queue m s

    module _ (listen : Message → Session → Handled × Session) where
      -- `dispatch`, with the session that the listener leaves.
      unfoldable pub dispatch :
          Circumstance → String → Inbound → Consumer → Session → Consumer × Session
      unfolding receive_count acknowledge
      dispatch c queue m s session =
          if s.releasing
          then (release (record { queue = queue; message = m }) s, session)
          else let (answer, after) = listen (delivery_of m) session in
            let entered = tally message_received (enter queue m s) in
            let done =
              if c.ended_after_handle
              then entered
              else acknowledge c.takes_dead_letter queue m answer entered in
            (leave (c.ended_after_handle || c.ended_at_return) m.receipt_handle done, after)

-- The calls of `Stop` for what is in flight, when it does not drain in time.
abbrev pub release_all : List (String × Delivery) → Consumer → Consumer
release_all [] s = s
release_all ((_, d) ∷ rest) s = release_all rest (release d s)

-- `Stop`; it is told whether the consumer stopped before the time to drain was over.
unfoldable pub stop : Bool → Consumer → Consumer
stop true s = s
stop false s = release_all s.in_flight (record s { releasing = true })

-- A listener, by its name and the queue that it watches.
pub record Route : Type 0 where
  pub name : String
  pub watching : String

-- The errors of `NewConsumer`: a listener that watches no queue, and two that watch the same.
pub data RouteError : Type 0 where
  watches_nothing : String → RouteError
  watch_the_same : String → String → RouteError

abbrev pub taken_by : String → List Route → Option Route
taken_by queue routes = find (λ r. str_eq r.watching queue) routes

-- `routes[target.Watching()] = target`, in a map that is kept in the order of its first insertions.
unfoldable pub put_route : Route → List Route → List Route
put_route target [] = target ∷ []
put_route target (r ∷ rest) =
    let others = put_route target rest in
    if str_eq r.watching target.watching then target ∷ rest else r ∷ others

-- `NewConsumer`, its routes.
unfoldable pub add_routes : List Route → List Route → RouteError ⊎ List Route
unfolding put_route
add_routes routes [] = inr routes
add_routes routes (target ∷ rest) =
    let added = add_routes (put_route target routes) rest in
    if is_empty target.watching
    then inl (watches_nothing target.name)
    else elim (taken_by target.watching routes) [
      | some existing ↦ inl (watch_the_same existing.name target.name)
      | none ↦ added
    ]

unfoldable pub routes_of : List Route → RouteError ⊎ List Route
unfolding add_routes
routes_of listeners = add_routes [] listeners
