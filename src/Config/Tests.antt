-- ===== src/Config/Tests.antt =====
-- The configuration on concrete environments.
use wagering_wallet_service.Base.{
  ltb, leb, ◌==◌, if◌then◌else◌, Bool-cases, Option-cases, Sum-cases, ltb→lt, lt→ltb, ==→eq,
  MoneyError, WalletError, WageringError, MessagingError, RepositoryError, Failure, Result,
  refuse_if, refuse_if-ok, >>=-ok, Result-cases, after_checks, of_money, of_wallet, of_wagering,
  of_event, of_messaging, of_repository, idempotency_conflict, external_id_conflict,
  wallet_conflict, no_pending_work, cancelled, deadline_exceeded, database, invalid_input, err, ok,
  Uuid, nil_uuid, is_nil, Instant, no_time, is_unset, before, Duration, find, any, select,
  update_where, count_where, take, All, find-some-test, find-All, update_where-All,
  find-update_where, any-find-none, find-none-any, ℤ, pos, negsuc, pos_part, neg_part, ◌≤ℤ◌, ◌<ℤ◌,
  ltb_ℤ, eqb_ℤ, +ℤ_parts, -ℤ_parts, eq_of_parts, int_laws, max_int64, min_int64, InInt64, in_int64,
  wrap64_self, wrap64-InInt64, wrap64_above, wrap64_below, parts_apart, ◌+ℤ◌, ◌-ℤ◌, wrap64, codes,
  all, is_empty, is_digit, is_lower_hex, is_space, is_blank, is_payload_hash, ℕ, zero, suc, ◌+◌,
  ◌-◌, ◌*◌, ◌/◌, ◌%◌, ◌^◌, ◌≤◌, ◌<◌, String, ◌≡◌, refl, sym, ap, ◌∙◌, ◌≢◌, ◌↔◌, ◌⊎◌, inl, inr, Bool,
  true, false, not, ◌&&◌, ◌||◌, Option, none, some, List, [], ◌∷◌, ◌++◌, map, arith, str_eq, eq_iff,
  eq_refl, dec_lt, dec_le,
}
use wagering_wallet_service.Config.Variables.{Environment, Problem}
use wagering_wallet_service.Config.{scheduled, Config}
use wagering_wallet_service.Config.Load.{load, read_config}
use wagering_wallet_service.Config.Values.{IsRead}
use wagering_wallet_service.Config.Accepted.{IsChecked, load-IsAccepted}

abbrev value_in : List (String × List ℕ) → String → Option (List ℕ)
value_in [] key = none
value_in ((name, value) ∷ rest) key = if str_eq name key then some value else value_in rest key

-- The variables that have no default, and others.
abbrev environment_of : List (String × List ℕ) → Environment
environment_of others = record {
  lookup_env = value_in (
      others
      ++ (("SQS_WAGER_QUEUE_URL", codes " q ")
          ∷ ("SQS_WAGER_DLQ_URL", codes "d")
          ∷ ("SQS_EVENTS_QUEUE_URL", codes "e")
          ∷ []));
  parse_url = λ value. some (record { scheme = codes "http"; host = value });
  parse_duration = λ value. none;
  hostname = some (codes "host");
  pid = pos 7;
}

abbrev plain : Environment
plain = environment_of []

abbrev plain_config : Config
plain_config = (read_config plain []).0

plain_run : load plain ≡ inr plain_config
unfolding load wagering_wallet_service.Config.Variables.◌>>=◌
    wagering_wallet_service.Config.Variables.return
    wagering_wallet_service.Config.Variables.reject_if wagering_wallet_service.Base.wrap64
    wagering_wallet_service.Base.◌+ℤ◌
plain_run = refl

accepted_example : IsRead plain plain_config × IsChecked plain_config × (pos 20 ≤ℤ pos 20)
unfolding read_config wagering_wallet_service.Config.Variables.◌>>=◌
    wagering_wallet_service.Config.Variables.return
accepted_example = load-IsAccepted plain plain_run (omega arith) (omega arith) (omega arith)

-- Numbers of connections that an int32 does not hold are accepted as others.
abbrev large : Environment
large =
    environment_of
      (("DB_POOL_MAX_CONNS", codes "4294967316") ∷ ("DB_POOL_MIN_CONNS", codes "2147483648") ∷ [])

abbrev large_config : Config
large_config = (read_config large []).0

large_run : load large ≡ inr large_config
unfolding load wagering_wallet_service.Config.Variables.◌>>=◌
    wagering_wallet_service.Config.Variables.return
    wagering_wallet_service.Config.Variables.reject_if wrap64 ◌+ℤ◌
large_run = refl

large_pool :
    (large_config.database.max_conns ≡ pos 20)
    × (large_config.database.min_conns ≡ negsuc (2 ^ 31 - 1))
unfolding read_config wagering_wallet_service.Config.Variables.◌>>=◌
    wagering_wallet_service.Config.Variables.return
large_pool = (refl, refl)

abbrev keys_of : List Problem ⊎ Config → List String
keys_of (inl problems) = map (λ problem. problem.key) problems
keys_of (inr cfg) = []

refused_keys :
    keys_of (
      load (
        environment_of (
          ("DB_POOL_MAX_CONNS", codes "19")
          ∷ ("LOG_LEVEL", codes "trace")
          ∷ ("DB_POOL_RESERVED", codes "-1")
          ∷ [])))
    ≡ "LOG_LEVEL" ∷ "DB_POOL_RESERVED" ∷ "DB_POOL_MAX_CONNS" ∷ []
unfolding load wagering_wallet_service.Config.Variables.◌>>=◌
    wagering_wallet_service.Config.Variables.return
    wagering_wallet_service.Config.Variables.reject_if wrap64 ◌+ℤ◌ ◌-ℤ◌
refused_keys = refl
