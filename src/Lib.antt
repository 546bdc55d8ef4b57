-- ===== src/Lib.antt =====
-- A wallet service for wagering. Commands place bets, pay wins and reverse earlier operations; each
-- of them is an operation with a life cycle, is decided against a player's wallet, and when it
-- moves money leaves an entry in the wallet's ledger. Reconciliation compares the stored balance
-- with the ledger.
--
--   Base       text, int64 numbers, identifiers, instants, errors and results that all parts share
--   Money      internal/domain/money/money.go. Money/Decimal is `Parse` and `String`
--   Wallet     internal/domain/wallet/wallet.go and ledger.go: the aggregate and its entries
--   Wagering   internal/domain/wagering: Kind (kind.go), Transaction and Snapshot (transaction.go),
--              Decision (decision.go)
--   Reconcile  the query `Totals` of postgres/repositories/ledger_repository_sql.go, and the mapper and
--              use case of the reconciliation
--   Event      internal/domain/event: envelopes and payloads
--   Messaging  internal/domain/messaging: the rows of the outbox and the inbox
--   Store      internal/infrastructure/postgres: the tables and, in a child each, the statements of the
--              repositories (wallet, wager_transaction, ledger, outbox, inbox _repository_sql.go);
--              UnitOfWork (unit_of_work.go and errors_sql.go) with Atomic, Attempts and Conflicts on what
--              it makes of the database's answers; Outbox/Life on the rows of the outbox; Triple, Books,
--              Statements, Claims and Reconciled are the rules for bodies and the invariant of the tables
--   Usecase    internal/application/usecase: Backoff (backoff.go), Movement and Settlement
--              (financial_movement.go), Input (the inputs of internal/application/dto and their
--              mappers), Events (settlement_events.go), Process (process_wager_transaction.go), Retry
--              (retry_pending_reference.go), OpenWallet (open_wallet.go), LedgerPage
--              (list_wallet_ledger.go and its mapper), Publish (publish_outbox.go), Find (find_wallet.go
--              and find_wager_transaction.go); a child Keeps says what the
--              use case does to the tables, and Scenario runs the use cases one after the other
--   Doors      what the queue and HTTP send to the use cases: the collection of problems
--              (internal/application/dto/validation), Message (dto/message and its mapper), Request
--              (internal/infrastructure/http/request.go), Payload (internal/application/idempotency)
--   Broker     internal/infrastructure/sqs: Listener (sqs/listener), Consumer (consumer.go); Kept and
--              Settled follow a message to its end, Release and Routes are about Stop and NewConsumer
--   Http       internal/infrastructure/http: Problems (problem.go and the failures of handlers.go), Access
--              (middleware.go and auth/verifier.go), Cursor, Answers (dto.go), Handlers (handlers.go and
--              the routes of server.go)
--   Config     internal/infrastructure/config: Variables (the reader of config.go), Load, the checks and the
--              budget of connections; the jobs of internal/app/app.go
--
-- A method on a pointer is a function on the state that returns its result and the state after the
-- call. An error is a constructor of `Failure`, one for each sentinel value. int64 and int are
-- integers with the wrap-around written out where the code adds or negates; the theorems say which
-- operands must be in the range. A `uuid.UUID` is a number, 0 being `uuid.Nil`; a `time.Time` is a
-- number of nanoseconds, 0 being the zero value; a text is a string, and a list of bytes where the
-- code reads characters. The decimal printer has fuel for 20 digits, which a uint64 never exceeds.
--
-- A body of a unit of work is a function from a session, the tables and the number of identifiers
-- drawn, to a result and the session after it; an error drops what the body did. A use case is its
-- body, and the processing, the retry, the opening, the publisher and the reading use cases also
-- their `Execute`, on the unit of work and the answers of the database. One runs at a time, as the
-- row locks make those that meet on a wallet or an operation do, and an identifier that a rolled-
-- back body drew is drawn again. A row is the value that the repository writes and scans, so NULL
-- is the empty text, the zero instant, `uuid.Nil` or the zero amount. The loop of the unit of work
-- recurses on the attempts that the setting allows; the loop of the retry has fuel for one round
-- more than the size of a batch, which is enough, since every round that goes on counts one
-- operation.
--
-- Parameters are the text of a uuid and its parser, the JSON of an envelope, of a message and of
-- the document that is hashed, SHA-256 and base64, the readings of the clock, the identifiers, the
-- problems that a validation library reads off struct tags, the environment and what the packages
-- url and time read in it, the verification of a token, what the notifier and the broker answer,
-- and what the database answers to each attempt of a unit of work.
--
-- Not modelled: SQL triggers and CHECK constraints, waiting for locks, a panic of a body, the
-- polling loop of the consumer and its goroutines. The container that wires the parts, the
-- scheduler of the jobs, logging, metrics, health and the servers are input and output.
pub mod Base
pub mod Money
pub mod Wallet
pub mod Reconcile
pub mod Wagering
pub mod Event
pub mod Messaging
pub mod Usecase
pub mod Doors
pub mod Broker
pub mod Config
pub mod Http
pub mod Store
