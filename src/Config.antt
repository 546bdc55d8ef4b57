-- ===== src/Config.antt =====
-- The configuration of the service: internal/infrastructure/config/config.go and
-- connection_budget.go, with `scheduled` of internal/app/app.go. A number is an int64, a duration an
-- int64 of nanoseconds.
pub mod Variables
pub mod Load
pub mod Clean
pub mod Values
pub mod Accepted
mod Tests
use wagering_wallet_service.Base.{
  ltb, if◌then◌else◌, ℤ, pos, negsuc, ltb_ℤ, ◌+ℤ◌, wrap64, ℕ, ◌+◌, ◌-◌, ◌%◌, ◌^◌, Bool, true, false,
  not, List, [], ◌∷◌, ◌++◌,
}
use wagering_wallet_service.Config.Variables.{
  must_be_longer_than, must_not_be_shorter_than, must_be_shorter_than, is_smaller_than,
  must_not_exceed, ◌>>=◌, ◌>>◌, reject_if, Reader, ConnectionBudget,
}

pub record App : Type 0 where
  pub environment : List ℕ
  pub instance_id : List ℕ
  pub log_level : List ℕ
  pub shutdown_timeout : ℤ

pub record Http : Type 0 where
  pub addr : List ℕ
  pub write_concurrency : ℤ
  pub write_queue_wait : ℤ
  pub max_body_bytes : ℤ

pub record Database : Type 0 where
  pub url : List ℕ
  pub max_conns : ℤ
  pub min_conns : ℤ
  pub reserved : ℤ
  pub lock_timeout : ℤ
  pub statement_timeout : ℤ
  pub retry_attempts : ℤ

pub record Sqs : Type 0 where
  pub region : List ℕ
  pub endpoint : List ℕ
  pub access_key_id : List ℕ
  pub secret_key : List ℕ
  pub wager_queue_url : List ℕ
  pub wager_dlq_url : List ℕ
  pub events_queue : List ℕ

pub record Consumer : Type 0 where
  pub enabled : Bool
  pub workers : ℤ
  pub wait_time : ℤ
  pub visibility : ℤ
  pub message_deadline : ℤ
  pub backoff_base : ℤ
  pub backoff_max : ℤ
  pub max_receive_count : ℤ

pub record Outbox : Type 0 where
  pub enabled : Bool
  pub poll_interval : ℤ
  pub batch_size : ℤ
  pub lease : ℤ
  pub backoff_base : ℤ
  pub backoff_max : ℤ

pub record Reference : Type 0 where
  pub enabled : Bool
  pub poll_interval : ℤ
  pub batch_size : ℤ
  pub backoff_base : ℤ
  pub backoff_max : ℤ
  pub ttl : ℤ

pub record Oidc : Type 0 where
  pub issuer : List ℕ
  pub discovery_url : List ℕ
  pub jwks_url : List ℕ
  pub audience : List ℕ

pub record Config : Type 0 where
  pub app : App
  pub http : Http
  pub database : Database
  pub sqs : Sqs
  pub consumer : Consumer
  pub outbox : Outbox
  pub reference : Reference
  pub oidc : Oidc

-- The conversion `int32(n)` keeps the low 32 bits.
abbrev signed32 : ℕ → ℤ
signed32 w = if ltb w (2 ^ 31) then pos w else negsuc (2 ^ 32 - 1 - w)

unfoldable pub to_int32 : ℤ → ℤ
to_int32 (pos n) = signed32 (n % 2 ^ 32)
to_int32 (negsuc n) = signed32 (2 ^ 32 - 1 - n % 2 ^ 32)

abbrev pub one_if : Bool → ℕ
one_if true = 1
one_if false = 0

-- `ConnectionBudget`
abbrev pub connection_budget : Config → ConnectionBudget
connection_budget cfg = record {
  http_writes = cfg.http.write_concurrency;
  consumer = if cfg.consumer.enabled then cfg.consumer.workers else pos 0;
  jobs = pos (one_if cfg.outbox.enabled + one_if cfg.reference.enabled);
  reserved = cfg.database.reserved;
  pool_size = cfg.database.max_conns;
}

-- `Demand`; every `+` wraps round.
unfoldable pub demand : ConnectionBudget → ℤ
demand b = wrap64 (wrap64 (wrap64 (b.http_writes +ℤ b.consumer) +ℤ b.jobs) +ℤ b.reserved)

-- `Fits`
unfoldable pub fits : ConnectionBudget → Bool
unfolding demand
fits b = not (ltb_ℤ b.pool_size (demand b))

-- `check`
unfoldable pub check : Config → Reader (Unit {0})
unfolding fits
check cfg = do
  reject_if (ltb_ℤ cfg.database.max_conns cfg.database.min_conns) "DB_POOL_MIN_CONNS"
      (must_not_exceed "DB_POOL_MAX_CONNS")
  reject_if (not (fits (connection_budget cfg))) "DB_POOL_MAX_CONNS"
      (is_smaller_than (connection_budget cfg))
  reject_if (not (ltb_ℤ cfg.consumer.message_deadline cfg.consumer.visibility))
      "SQS_MESSAGE_DEADLINE" (must_be_shorter_than "SQS_VISIBILITY_TIMEOUT")
  reject_if (ltb_ℤ cfg.consumer.backoff_max cfg.consumer.backoff_base) "SQS_RETRY_BACKOFF_MAX"
      (must_not_be_shorter_than "SQS_RETRY_BACKOFF_BASE")
  reject_if (ltb_ℤ cfg.outbox.backoff_max cfg.outbox.backoff_base) "OUTBOX_BACKOFF_MAX"
      (must_not_be_shorter_than "OUTBOX_BACKOFF_BASE")
  reject_if (ltb_ℤ cfg.reference.backoff_max cfg.reference.backoff_base) "REFERENCE_BACKOFF_MAX"
      (must_not_be_shorter_than "REFERENCE_BACKOFF_BASE")
  reject_if (not (ltb_ℤ cfg.reference.backoff_base cfg.reference.ttl)) "REFERENCE_TTL"
      (must_be_longer_than "REFERENCE_BACKOFF_BASE")
  reject_if (not (ltb_ℤ cfg.database.lock_timeout cfg.database.statement_timeout))
      "DB_STATEMENT_TIMEOUT" (must_be_longer_than "DB_LOCK_TIMEOUT")

pub data Job : Type 0 where
  publish_outbox retry_pending_reference : ℤ → Job

abbrev pub job_if : Bool → Job → List Job
job_if true job = job ∷ []
job_if false job = []

-- `scheduled` of internal/app/app.go: a job is made of the interval between its runs.
abbrev pub scheduled : Config → List Job
scheduled cfg =
    job_if cfg.outbox.enabled (publish_outbox cfg.outbox.poll_interval)
    ++ job_if cfg.reference.enabled (retry_pending_reference cfg.reference.poll_interval)
