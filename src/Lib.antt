-- ===== src/Lib.antt =====
-- Verification of the product service of the marketplace simulator.
--
-- The program keeps the products of a shop, with how many there are and how many are reserved. A
-- gRPC service (internal/app) takes calls through a chain of interceptors, checks them and hands
-- them to use cases (internal/usecases). Those read products through a repository, which may be
-- one that looks into Redis first (internal/infra/cache), change copies of them, and write them
-- back in one transaction (internal/infra/database) together with reservations and two outboxes:
-- one of product events, one of products whose cache entry is out of date. Background jobs
-- (internal/jobs) empty the outboxes into Kafka and Redis and release reservations that have
-- expired.
--
-- The files:
-- - Common.antt, Common/: names of the libraries, Boolean tests, lists, Go maps with number keys,
--   and signed integers over the native numbers.
-- - Models.antt, Errors.antt, Events.antt: internal/models and the contracts of api_internal,
--   internal/errors, internal/services; Events/Digits.antt: the texts of SKUs.
-- - Store/World.antt: the state (`World`: the tables of migrations/, the sequences, what Redis
--   holds, the messages of the writes to Kafka that returned no error), what the service relies
--   on (`Platform`), and the monad of calls `M`. Store/Products.antt, Store/Reservations.antt,
--   Store/Outbox.antt, Store/Transactor.antt: internal/infra/database. Each repository method is
--   a function of the method's name in snake case. Store/Products/: what an update has done.
--   Store/Outbox/: the two outboxes, and what their queries give.
-- - Usecases/Repository.antt: maps of product pointers, and the loops that fill the outboxes.
--   Usecases/Product.antt: `get_product` and `increase_count`. Usecases/Reservation/Reserve.antt
--   and Settle.antt: `reserve`, `release`, `confirm`, each cut into the code before, in and after
--   its transaction. Usecases/Reads.antt, Usecases/Atomic.antt, Usecases/Outboxes.antt,
--   Usecases/Skus.antt, Usecases/KeptSkus.antt, Usecases/Built.antt, Usecases/Told.antt and the
--   other files of Usecases/Reservation and Usecases/Product: the proofs.
-- - Cache/Redis.antt, Cache/Repository.antt: internal/infra/cache; Cache/Redis/Stored.antt,
--   Cache/Repository/Freshness.antt: proofs.
-- - Kafka.antt: internal/infra/kafka. Jobs/: internal/jobs, a tick of each job, and
--   Jobs/Loops.antt, the loops between the ticks. Jobs/Kept.antt, Jobs/HandedOver.antt,
--   Jobs/HandingOver.antt, Jobs/Drained.antt, Jobs/Refreshed.antt, Jobs/CacheTick.antt,
--   Jobs/Expired.antt, Jobs/Monitored.antt, Jobs/Failures.antt, Jobs/Retries.antt and
--   Jobs/Loops/: proofs.
-- - Config.antt: internal/infra/config. Etcd.antt, Etcd/Watching.antt and Etcd/Restart.antt:
--   internal/infra/etcd. App.antt: what internal/app/app.go decides at the start and while it
--   runs; App/Limits.antt, App/Started.antt: proofs.
-- - Grpc/Service.antt: the methods of internal/app/grpc.go; Grpc/Requests.antt: proofs.
--   Middleware/Chain.antt: internal/app/middleware, in the order of internal/app/app.go;
--   Middleware/Laws.antt: proofs.
-- - History/: the service as a relation of steps, a step being a call of a method, a tick of a
--   job or that time passes (History/Steps.antt), with the invariant of its tables
--   (History/Stocked.antt) and that it is kept (History/Changes.antt, History/Untouched.antt,
--   History/Calls.antt, History/Reached.antt) and what a reader is told (History/Answers.antt).
-- - Tests.antt, Tests/Serving.antt, Tests/Running.antt, Tests/Cached.antt: runs on concrete data.
--
-- Choices:
-- - A SQL statement is read as a function on tables that are lists of rows. A call of the driver
--   fails where the platform says so, a query may deliver only the first of its rows, and a
--   transaction that does not commit restores the tables. A COMMIT that fails counts as rolled
--   back: nothing is said of one that was carried out although its answer was lost. Transaction
--   ids, identities and UUIDs are counters that do not wrap.
-- - Calls run one after another. What other calls do between the reads of Reserve and its
--   transaction is covered by stating the transaction on other tables than those that were read.
-- - Go maps keep the order of insertion, and the order of a `range` is a parameter. A `uint32`
--   wraps at 2^32. `uint64`, `int64` and `float64` values are kept as bit patterns, and the
--   program does no arithmetic on them. The decimal text of a `uint64`, which the program has
--   from strconv, is computed on fuel 20, the number of digits of the largest one.
-- - A loop of a job is a function of its rounds: the configuration that a round reads, and
--   whether its select finds the context done. Durations are nanoseconds, parsed by a parameter.
--   A history has the methods and jobs with Redis switched off, one step after another; what a
--   fault, a configuration or a batch size may be is open in each step.
-- - The client of etcd and YAML are parameters, and a call of etcd that fails may have been
--   carried out or not. Of golang.org/x/time/rate there are the limit and the burst that the
--   program sets.
-- - What the broker of Kafka does with a message is not modelled: the producer sets no
--   RequiredAcks, so a write that returns no error has not been acknowledged. The properties say
--   which messages were in such writes.
-- - A goroutine that writes to the cache is a record that the write is due. Redis entries do not
--   expire. `fmt.Sprintf`, encoding/json and the clients of PostgreSQL, Redis and Kafka are
--   parameters.
--
-- Not modelled: construction of the clients, servers and routes (internal/app/app.go,
-- cmd/server), the reading of the configuration file, the Prometheus collectors, tracing, the
-- text of logged bodies, and the generated protocol code.
pub mod Common
pub mod Config
pub mod Models
pub mod Errors
pub mod Store
pub mod Events
pub mod Usecases
pub mod Grpc
pub mod Middleware
pub mod Cache
pub mod Kafka
pub mod Jobs
pub mod Etcd
pub mod App
pub mod History
pub mod Tests
