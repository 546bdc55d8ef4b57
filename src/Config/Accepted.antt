-- ===== src/Config/Accepted.antt =====
-- What a configuration satisfies that `Load` accepts: `check` found nothing to reject.
use mathlib.Core.Path.{subst}
use wagering_wallet_service.Base.{
  if◌then◌else◌, Bool-cases, ℤ, pos, negsuc, pos_part, ◌≤ℤ◌, ◌<ℤ◌, +ℤ_parts, eq_of_parts, max_int64,
  wrap64_self, parts_apart, ◌+ℤ◌, wrap64, length, ℕ, ◌+◌, ◌^◌, ◌≤◌, ◌<◌, ◌≡◌, refl, inl, inr, Bool,
  true, false, List, [], ◌∷◌, arith,
}
use wagering_wallet_service.Config.Variables.{Problem, Environment, return, ◌>>=◌, ◌>>◌}
use wagering_wallet_service.Config.{
  Config, demand, fits, check, connection_budget, scheduled, one_if,
}
use wagering_wallet_service.Config.Load.{outcome, load, read_config}
use wagering_wallet_service.Config.Clean.{
  map-Clean, Clean, NotNegative, bind-Clean, return-Clean, reject_if-Clean,
}
use wagering_wallet_service.Config.Values.{IsRead, read_config-Clean}

-- The conditions between two settings, and the budget of connections as the code computes it.
pub record IsChecked (cfg : Config) : Type 0 where
  pub pool : cfg.database.min_conns ≤ℤ cfg.database.max_conns
  pub budget : fits (connection_budget cfg) ≡ true
  pub deadline : cfg.consumer.message_deadline <ℤ cfg.consumer.visibility
  pub consumer_delay : cfg.consumer.backoff_base ≤ℤ cfg.consumer.backoff_max
  pub outbox_delay : cfg.outbox.backoff_base ≤ℤ cfg.outbox.backoff_max
  pub reference_delay : cfg.reference.backoff_base ≤ℤ cfg.reference.backoff_max
  pub reference_life : cfg.reference.backoff_base <ℤ cfg.reference.ttl
  pub statement : cfg.database.lock_timeout <ℤ cfg.database.statement_timeout

check-Clean : (cfg : Config) → Clean (check cfg) (λ _. IsChecked cfg)
unfolding check
check-Clean cfg = bind-Clean (reject_if-Clean _ _ _) (λ _. bind-Clean (reject_if-Clean _ _ _) (λ _.
    bind-Clean (reject_if-Clean _ _ _) (λ _. bind-Clean (reject_if-Clean _ _ _) (λ _.
      bind-Clean (reject_if-Clean _ _ _) (λ _. bind-Clean (reject_if-Clean _ _ _) (λ _.
        bind-Clean (reject_if-Clean _ _ _) (λ _.
          map-Clean (reject_if-Clean _ _ _) (λ _ h g f e d c b a. record {
            pool = ground (arith, a);
            budget = ground (arith, b);
            deadline = ground (arith, c);
            consumer_delay = ground (arith, d);
            outbox_delay = ground (arith, e);
            reference_delay = ground (arith, f);
            reference_life = ground (arith, g);
            statement = ground (arith, h);
          }))))))))

outcome-inr :
    (read : Config × List Problem) {cfg : Config}
    → outcome read ≡ inr cfg
    → (read.1 ≡ []) × (read.0 ≡ cfg)
outcome-inr (cfg, []) h = (refl, ground (arith, h))
outcome-inr (cfg, problem ∷ more) h = absurd (ground (arith, h))

-- A configuration that `Load` accepts was read with no problem and passed every check.
pub load-IsChecked :
    (env : Environment) {cfg : Config} → load env ≡ inr cfg → IsRead env cfg × IsChecked cfg
unfolding load
load-IsChecked env {cfg} h =
    let read = (read_config env >>= λ cfg. check cfg >> return cfg) in
    let clean : Clean read (λ cfg. IsRead env cfg × IsChecked cfg) =
      bind-Clean (read_config-Clean env)
        (λ cfg. bind-Clean (check-Clean cfg) (λ _. return-Clean cfg (λ b a. (a, b)))) in
    let (clear, same) = outcome-inr (read []) h in
    subst (λ cfg. IsRead env cfg × IsChecked cfg) same (clean.answers [] clear)

wrap_add : (a b : ℕ) → a + b ≤ max_int64 → wrap64 (pos a +ℤ pos b) ≡ pos (a + b)
wrap_add a b h = ground (
  arith,
  wrap64_self (pos a +ℤ pos b),
  +ℤ_parts (pos a) (pos b),
  parts_apart (pos a +ℤ pos b),
  eq_of_parts (pos a +ℤ pos b) (pos (a + b)),
)

-- The demand is the exact sum when its parts are below 2 ^ 61.
demand_lem :
    (a b c d : ℕ) (size : ℤ)
    → a < 2 ^ 61
    → b < 2 ^ 61
    → c < 2 ^ 61
    → d < 2 ^ 61
    → demand (record {
      http_writes = pos a;
      consumer = pos b;
      jobs = pos c;
      reserved = pos d;
      pool_size = size;
    })
      ≡ pos (a + b + c + d)
unfolding demand
demand_lem a b c d size ha hb hc hd =
    rw
      (
        wrap_add a b (omega arith),
        wrap_add (a + b) c (omega arith),
        wrap_add (a + b + c) d (omega arith),
      )
      refl

-- A number of connections that the budget counts without a wrap.
abbrev IsCount : ℤ → Type 0
IsCount n = NotNegative n × (n <ℤ pos (2 ^ 61))

fits_lem :
    (a b c d size : ℤ)
    → IsCount a
    → IsCount b
    → IsCount c
    → IsCount d
    → fits (record { http_writes = a; consumer = b; jobs = c; reserved = d; pool_size = size })
      ≡ true
    → pos (pos_part a + pos_part b + pos_part c + pos_part d) ≤ℤ size
unfolding fits
fits_lem (pos a) (pos b) (pos c) (pos d) size ha hb hc hd h =
    ground (arith, h, demand_lem a b c d size)
fits_lem (negsuc a) b c d size ha hb hc hd h = absurd (ground (arith, ha))
fits_lem (pos a) (negsuc b) c d size ha hb hc hd h = absurd (ground (arith, hb))
fits_lem (pos a) (pos b) (negsuc c) d size ha hb hc hd h = absurd (ground (arith, hc))
fits_lem (pos a) (pos b) (pos c) (negsuc d) size ha hb hc hd h = absurd (ground (arith, hd))

-- The workers that run, which are none when the consumer is off.
abbrev pub running_workers : Config → ℤ
running_workers cfg = if cfg.consumer.enabled then cfg.consumer.workers else pos 0

running_workers-IsCount :
    (cfg : Config) → IsCount cfg.consumer.workers → IsCount (running_workers cfg)
running_workers-IsCount cfg h = elim (Bool-cases cfg.consumer.enabled) [
  | inl on ↦ rw on h
  | inr off ↦ rw off (omega arith, omega arith)
]

length-scheduled :
    (cfg : Config)
    → length (scheduled cfg) ≡ one_if cfg.outbox.enabled + one_if cfg.reference.enabled
length-scheduled cfg = ground arith

one_if-bound : (b : Bool) → one_if b ≤ 1
one_if-bound true = omega arith
one_if-bound false = omega arith

-- A configuration that Load accepts holds what each variable asks for, but for the two sizes of the
-- pool, and the conditions between them; and when its write limit, its workers and its reserve are
-- below 2 ^ 61, its pool has a connection for every write that is let in, every worker and every
-- job that runs, and the reserve.
pub load-IsAccepted :
    (env : Environment) {cfg : Config}
    → load env ≡ inr cfg
    → cfg.http.write_concurrency <ℤ pos (2 ^ 61)
    → cfg.consumer.workers <ℤ pos (2 ^ 61)
    → cfg.database.reserved <ℤ pos (2 ^ 61)
    → IsRead env cfg
      × IsChecked cfg
      × (pos (
            pos_part cfg.http.write_concurrency
            + pos_part (running_workers cfg)
            + length (scheduled cfg)
            + pos_part cfg.database.reserved)
          ≤ℤ cfg.database.max_conns)
load-IsAccepted env {cfg} h writes workers reserved =
    let (is_read, checked) = load-IsChecked env h in
    (
      is_read,
      checked,
      rw (length-scheduled cfg) (
          fits_lem _ _ (pos (one_if cfg.outbox.enabled + one_if cfg.reference.enabled)) _ _
            (omega (arith, is_read.http.1), writes)
            (running_workers-IsCount cfg (omega (arith, is_read.consumer.0), workers))
            (
              omega arith,
              omega (arith, one_if-bound cfg.outbox.enabled, one_if-bound cfg.reference.enabled),
            )
            (is_read.database.1, reserved) checked.budget),
    )
