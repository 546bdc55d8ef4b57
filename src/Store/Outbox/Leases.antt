-- ===== src/Store/Outbox/Leases.antt =====
-- A claim leases its events: nobody else claims them before the lease ends.
use wagering_wallet_service.Base.{
  Bool-cases, Result-cases, ok, Instant, is_unset, Duration, any, update_where, All, all, ℕ, ◌+◌,
  ◌≤◌, String, ◌≡◌, refl, sym, ap, ◌∙◌, inl, inr, true, false, ◌||◌, List, [], ◌∷◌, map, arith,
}
use mathlib.Core.Path.{subst}
use wagering_wallet_service.Messaging.{OutboxEvent, rehydrate_outbox_event}
use wagering_wallet_service.Store.{Store}
use wagering_wallet_service.Store.Outbox.{
  has_id, is_claimable, chosen, leased, is_exhausted, is_among, scan_all, claim_in, snapshot_in,
}

scan-same : (row e : OutboxEvent) → rehydrate_outbox_event (snapshot_in row) ≡ ok e → e ≡ row
unfolding rehydrate_outbox_event
scan-same row e h = ground (arith, h)

-- The events that a claim answers are the rows that it read.
scan_all-same :
    (rows : List OutboxEvent) {es : List OutboxEvent} → scan_all rows ≡ ok es → es ≡ rows
unfolding scan_all
scan_all-same [] h = ground (arith, h)
scan_all-same (row ∷ rows) {es} h = elim (Result-cases (rehydrate_outbox_event (snapshot_in row))) [
  | inl (e, read) ↦ elim (Result-cases (scan_all rows)) [
    | inl (rest, done) ↦
        let whole : e ∷ rest ≡ es = ground (arith, h, read, done) in
        sym whole
        ∙ ap (λ x. x ∷ rest) (scan-same row e read)
        ∙ ap (λ xs. row ∷ xs) (scan_all-same rows done)
    | inr (f, refused) ↦ absurd (ground (arith, h, read, refused))
  ]
  | inr (f, refused) ↦ absurd (ground (arith, h, refused))
]

is_among-leased :
    (owner : String) (until : Instant) (rows : List OutboxEvent) (e : OutboxEvent)
    → is_among (map (leased owner until) rows) e ≡ is_among rows e
is_among-leased owner until [] e = refl
is_among-leased owner until (row ∷ rows) e =
    ap (λ b. has_id e.id row || b) (is_among-leased owner until rows e)

-- The table after a claim, row by row.
leased-Unclaimable :
    (owner : String) (now later : Instant) (lease : Duration) (rows table : List OutboxEvent)
    → is_unset now ≡ false
    → later ≤ now + lease
    → All
        (λ e. is_among rows e ≡ true → is_claimable later e ≡ false)
        (update_where (is_among rows) (leased owner (now + lease)) table)
leased-Unclaimable owner now later lease rows [] given early = tt
leased-Unclaimable owner now later lease rows (e ∷ table) given early = (
  elim (Bool-cases (is_among rows e)) [
    | inl taken ↦ rw taken (λ _. ground (arith, given, early))
    | inr left ↦ rw left (λ taken. absurd (ground (arith, left, taken)))
  ],
  leased-Unclaimable owner now later lease rows table given early,
)

pub claim_in-ok :
    (owner : String) (now : Instant) (lease : Duration) (limit : ℕ) (store : Store)
    {claimed : List OutboxEvent} {store' : Store}
    → claim_in owner now lease limit store ≡ ok (claimed, store')
    → (claimed ≡ map (leased owner (now + lease)) (chosen now limit store.outbox))
      × (store'.outbox
          ≡ update_where
              (is_among (chosen now limit store.outbox))
              (leased owner (now + lease))
              store.outbox)
unfolding claim_in
claim_in-ok owner now lease limit store {claimed} {store'} h =
    let rows = chosen now limit store.outbox in
    elim (Bool-cases (any is_exhausted rows)) [
      | inl exhausted ↦ absurd (ground (arith, h, exhausted))
      | inr room ↦ elim (Result-cases (scan_all (map (leased owner (now + lease)) rows))) [
        | inl (es, read) ↦ (
          ground (arith, h, room, read, scan_all-same (map (leased owner (now + lease)) rows) read),
          ground (arith, h, room, read),
        )
        | inr (e, refused) ↦ absurd (ground (arith, h, room, refused))
      ]
    ]

All-implied :
    (P Q : OutboxEvent → Type 0) (es : List OutboxEvent)
    → ((e : OutboxEvent) → P e → Q e)
    → All P es
    → All Q es
All-implied P Q [] implies all = tt
All-implied P Q (e ∷ es) implies (here, there) = (implies e here, All-implied P Q es implies there)

-- After a claim at a given time, no row of an event that it answered can be claimed at any time up to
-- the end of the lease.
pub claim_in-Exclusive :
    (owner : String) (now later : Instant) (lease : Duration) (limit : ℕ) (store : Store)
    {claimed : List OutboxEvent} {store' : Store}
    → is_unset now ≡ false
    → later ≤ now + lease
    → claim_in owner now lease limit store ≡ ok (claimed, store')
    → All (λ e. is_among claimed e ≡ true → is_claimable later e ≡ false) store'.outbox
claim_in-Exclusive owner now later lease limit store {claimed} {store'} given early h =
    let rows = chosen now limit store.outbox in
    let (answered, written) = claim_in-ok owner now lease limit store h in
    subst (All (λ e. is_among claimed e ≡ true → is_claimable later e ≡ false)) (sym written) (
      All-implied (λ e. is_among rows e ≡ true → is_claimable later e ≡ false)
        (λ e. is_among claimed e ≡ true → is_claimable later e ≡ false)
        (update_where (is_among rows) (leased owner (now + lease)) store.outbox)
        (λ e free taken. free (
          sym (ap (λ es. is_among es e) answered ∙ is_among-leased owner (now + lease) rows e)
          ∙ taken))
        (leased-Unclaimable owner now later lease rows store.outbox given early))
