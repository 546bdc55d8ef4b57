-- ===== src/Config/Values.antt =====
-- What a configuration satisfies that was read with no problem: each value is of the kind that its
-- variable asks for.
use wagering_wallet_service.Base.{◌≡◌, true, arith}
use wagering_wallet_service.Config.Variables.{Environment, is_one_of}
use wagering_wallet_service.Config.{
  Config, App, Http, Database, Sqs, Consumer, Outbox, Reference, Oidc,
}
use wagering_wallet_service.Config.Load.{
  read_config, log_levels, load_app, load_http, load_database, load_sqs, load_consumer, load_outbox,
  load_reference, load_oidc,
}
use wagering_wallet_service.Config.Clean.{
  Clean, Positive, NotNegative, IsText, IsLink, IsDsn, bind-Clean, return-Clean, text-Clean,
  one_of-Clean, link-Clean, dsn-Clean, count-Clean, number-Clean, duration-Clean, flag-Clean,
}

module _ (env : Environment) where
  abbrev pub IsApp : App → Type 0
  IsApp v =
      (IsText v.environment)
      × (IsText v.instance_id)
      × (is_one_of log_levels v.log_level ≡ true)
      × (Positive v.shutdown_timeout)

  load_app-Clean : Clean (load_app env) IsApp
  unfolding load_app
  load_app-Clean = bind-Clean (text-Clean env _ _) (λ _. bind-Clean (text-Clean env _ _) (λ _.
      bind-Clean (one_of-Clean env _ _ log_levels) (λ _.
        bind-Clean (duration-Clean env _ _ (omega arith))
          (λ _. return-Clean _ (λ d c b a. (a, b, c, d))))))

  abbrev pub IsHttp : Http → Type 0
  IsHttp v =
      (IsText v.addr)
      × (Positive v.write_concurrency)
      × (Positive v.write_queue_wait)
      × (Positive v.max_body_bytes)

  load_http-Clean : Clean (load_http env) IsHttp
  unfolding load_http
  load_http-Clean = bind-Clean (text-Clean env _ _) (λ _.
      bind-Clean (number-Clean env _ _ (omega arith)) (λ _.
        bind-Clean (duration-Clean env _ _ (omega arith)) (λ _.
          bind-Clean (number-Clean env _ _ (omega arith))
            (λ _. return-Clean _ (λ d c b a. (a, b, c, d))))))

  abbrev pub IsDatabase : Database → Type 0
  IsDatabase v =
      (IsDsn env v.url)
      × (NotNegative v.reserved)
      × (Positive v.lock_timeout)
      × (Positive v.statement_timeout)
      × (Positive v.retry_attempts)

  load_database-Clean : Clean (load_database env) IsDatabase
  unfolding load_database
  load_database-Clean = bind-Clean (dsn-Clean env _ _) (λ _.
      bind-Clean (number-Clean env _ _ (omega arith)) (λ _.
        bind-Clean (count-Clean env _ _ (omega arith)) (λ _.
          bind-Clean (count-Clean env _ _ (omega arith)) (λ _.
            bind-Clean (duration-Clean env _ _ (omega arith)) (λ _.
              bind-Clean (duration-Clean env _ _ (omega arith)) (λ _.
                bind-Clean (number-Clean env _ _ (omega arith))
                  (λ _. return-Clean _ (λ g f e d _ _ a. (a, d, e, f, g)))))))))

  abbrev pub IsSqs : Sqs → Type 0
  IsSqs v =
      (IsText v.region)
      × (IsLink env v.endpoint)
      × (IsText v.access_key_id)
      × (IsText v.secret_key)
      × (IsLink env v.wager_queue_url)
      × (IsLink env v.wager_dlq_url)
      × (IsLink env v.events_queue)

  load_sqs-Clean : Clean (load_sqs env) IsSqs
  unfolding load_sqs
  load_sqs-Clean = bind-Clean (text-Clean env _ _) (λ _. bind-Clean (link-Clean env _ _) (λ _.
      bind-Clean (text-Clean env _ _) (λ _. bind-Clean (text-Clean env _ _) (λ _.
        bind-Clean (link-Clean env _ _) (λ _. bind-Clean (link-Clean env _ _) (λ _.
          bind-Clean (link-Clean env _ _)
            (λ _. return-Clean _ (λ g f e d c b a. (a, b, c, d, e, f, g)))))))))

  abbrev pub IsConsumer : Consumer → Type 0
  IsConsumer v =
      (Positive v.workers)
      × (Positive v.wait_time)
      × (Positive v.visibility)
      × (Positive v.message_deadline)
      × (Positive v.backoff_base)
      × (Positive v.backoff_max)
      × (Positive v.max_receive_count)

  load_consumer-Clean : Clean (load_consumer env) IsConsumer
  unfolding load_consumer
  load_consumer-Clean = bind-Clean (flag-Clean env _ _) (λ _.
      bind-Clean (number-Clean env _ _ (omega arith)) (λ _.
        bind-Clean (duration-Clean env _ _ (omega arith)) (λ _.
          bind-Clean (duration-Clean env _ _ (omega arith)) (λ _.
            bind-Clean (duration-Clean env _ _ (omega arith)) (λ _.
              bind-Clean (duration-Clean env _ _ (omega arith)) (λ _.
                bind-Clean (duration-Clean env _ _ (omega arith)) (λ _.
                  bind-Clean (number-Clean env _ _ (omega arith))
                    (λ _. return-Clean _ (λ h g f e d c b _. (b, c, d, e, f, g, h))))))))))

  abbrev pub IsOutbox : Outbox → Type 0
  IsOutbox v =
      (Positive v.poll_interval)
      × (Positive v.batch_size)
      × (Positive v.lease)
      × (Positive v.backoff_base)
      × (Positive v.backoff_max)

  load_outbox-Clean : Clean (load_outbox env) IsOutbox
  unfolding load_outbox
  load_outbox-Clean = bind-Clean (flag-Clean env _ _) (λ _.
      bind-Clean (duration-Clean env _ _ (omega arith)) (λ _.
        bind-Clean (number-Clean env _ _ (omega arith)) (λ _.
          bind-Clean (duration-Clean env _ _ (omega arith)) (λ _.
            bind-Clean (duration-Clean env _ _ (omega arith)) (λ _.
              bind-Clean (duration-Clean env _ _ (omega arith))
                (λ _. return-Clean _ (λ f e d c b _. (b, c, d, e, f))))))))

  abbrev pub IsReference : Reference → Type 0
  IsReference v =
      (Positive v.poll_interval)
      × (Positive v.batch_size)
      × (Positive v.backoff_base)
      × (Positive v.backoff_max)
      × (Positive v.ttl)

  load_reference-Clean : Clean (load_reference env) IsReference
  unfolding load_reference
  load_reference-Clean = bind-Clean (flag-Clean env _ _) (λ _.
      bind-Clean (duration-Clean env _ _ (omega arith)) (λ _.
        bind-Clean (number-Clean env _ _ (omega arith)) (λ _.
          bind-Clean (duration-Clean env _ _ (omega arith)) (λ _.
            bind-Clean (duration-Clean env _ _ (omega arith)) (λ _.
              bind-Clean (duration-Clean env _ _ (omega arith))
                (λ _. return-Clean _ (λ f e d c b _. (b, c, d, e, f))))))))

  abbrev pub IsOidc : Oidc → Type 0
  IsOidc v =
      (IsLink env v.issuer)
      × (IsLink env v.discovery_url)
      × (IsLink env v.jwks_url)
      × (IsText v.audience)

  load_oidc-Clean : Clean (load_oidc env) IsOidc
  unfolding load_oidc
  load_oidc-Clean = bind-Clean (link-Clean env _ _) (λ _. bind-Clean (link-Clean env _ _) (λ _.
      bind-Clean (link-Clean env _ _)
        (λ _. bind-Clean (text-Clean env _ _) (λ _. return-Clean _ (λ d c b a. (a, b, c, d))))))

  pub record IsRead (cfg : Config) : Type 0 where
    pub app : IsApp cfg.app
    pub http : IsHttp cfg.http
    pub database : IsDatabase cfg.database
    pub sqs : IsSqs cfg.sqs
    pub consumer : IsConsumer cfg.consumer
    pub outbox : IsOutbox cfg.outbox
    pub reference : IsReference cfg.reference
    pub oidc : IsOidc cfg.oidc

  pub read_config-Clean : Clean (read_config env) IsRead
  unfolding read_config
  read_config-Clean = bind-Clean load_app-Clean (λ _. bind-Clean load_http-Clean (λ _.
      bind-Clean load_database-Clean (λ _. bind-Clean load_sqs-Clean (λ _.
        bind-Clean load_consumer-Clean (λ _. bind-Clean load_outbox-Clean (λ _.
          bind-Clean load_reference-Clean (λ _. bind-Clean load_oidc-Clean (λ _.
            return-Clean _ (λ h g f e d c b a. record {
              app = a;
              http = b;
              database = c;
              sqs = d;
              consumer = e;
              outbox = f;
              reference = g;
              oidc = h;
            })))))))))
