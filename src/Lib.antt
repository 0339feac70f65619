-- ===== src/Lib.antt =====
-- MeiliBridge copies changes of a PostgreSQL database into Meilisearch indexes. A source reads the
-- replication stream, the pipeline orchestrator gathers the events of a task into batches, and a
-- destination writes them. In at-least-once mode a batch goes through a deduplicator, a transactional
-- checkpoint and a two-phase commit coordinator, so that a task resumes at the position that it
-- committed last. Circuit breakers guard the calls of external services.
--
-- The files and what they model:
--   Prelude           helpers: Boolean tests and machine additions on numbers, the equality
--                     interface, lists, association lists for hash maps, results.
--   Breaker           src/recovery/circuit_breaker.rs: CircuitBreaker (is_allowed, record_success,
--                     record_failure, set_state, call); Breaker/Manager is CircuitBreakerManager.
--                     A run of `Op`s is what concurrent requests do, one lock at a time.
--   Dedup             src/delivery/deduplication.rs: EventDeduplicator; the queue is a list with the
--                     oldest key first, the set an association list of keys and counts.
--   Models            src/models: positions, checkpoints and events.
--   Delivery/Storage  src/checkpoint/storage.rs: the trait as a record of operations with laws, and the
--                     store in memory as an instance of it.
--   Delivery/Checkpoint  src/delivery/checkpoint.rs: TransactionalCheckpoint over any such store.
--   Delivery/TwoPhase    src/delivery/transaction.rs: TwoPhaseCommit as a state machine.
--   Delivery/Coordinator src/delivery/transaction.rs: TransactionCoordinator, over the two above.
--   Delivery/Manager     src/delivery/mod.rs: AtLeastOnceManager.
--   Delivery/Keys        src/pipeline/at_least_once_helpers.rs.
--   Delivery/Batch       src/pipeline/orchestrator.rs: process_batch_with_at_least_once, from the
--                     caller's vector of events to the replies of the destination.
--   Pgoutput          src/source/postgres/pgoutput.rs: the messages, with Pgoutput/Bytes (the crate
--                     byteorder as an interface), Pgoutput/Read (reads from a cursor),
--                     Pgoutput/Parse (the parsers) and Pgoutput/Message (parse_message).
--                     Pgoutput/Encode is the format of the messages as an encoder.
--   Memory            src/pipeline/memory_monitor.rs: MemoryMonitor, with its 64-bit counters.
--   Config            src/config: the parts of the configuration that the other files read.
--   Tasks             src/sync/task_manager.rs: SyncTaskManager, a command or a report at a time.
--   Cdc               src/pipeline/cdc_coordinator.rs: CdcCoordinator, an event or a call at a time;
--                     Cdc/Routing and Cdc/Pausing are about its deliveries.
--   Dlq               src/dlq/mod.rs: InMemoryDlqStorage and, in Dlq/Queue, DeadLetterQueue.
--   DeadLetter        src/recovery/dead_letter.rs: MemoryDeadLetterStorage and what DeadLetterQueue does
--                     with it.
--   Filters           src/pipeline/filter.rs: EventFilter, with JSON values as an interface; Filters/Holds and
--                     Filters/Passes say what the conditions and the filter mean. Filters/SoftDelete is
--                     src/pipeline/soft_delete.rs.
--   Validation        src/config/validation.rs: ConfigValidator; Validation/Fields is its check against the
--                     schema, and Validation/Checks the calculus of the passes over a report.
--   Retry             src/error.rs and src/error/retry.rs: with_retry; Retry/Backoff is src/recovery/retry.rs.
--   Checkpoints       src/checkpoint/manager.rs: CheckpointManager, over the interface of Delivery/Storage.
--                     Checkpoints/Latest is its refinement of a table of the latest checkpoints.
--   Mapper            src/pipeline/mapper.rs: FieldMapper, with JSON values as an interface of Mapper/Nested.
--   StatementCache    src/source/postgres/statement_cache.rs: StatementCache.
--   ErrorHandler      src/recovery/error_handler.rs: ErrorHandler.
--
-- State is passed explicitly: an operation takes the state last or first, as its method takes self,
-- and returns the result with the state it leaves. Errors are values of Prelude/Result, and `?` is
-- its bind. Counters wrap at their width, as in a release build. Time is a number of ticks
-- (nanoseconds in the clean-ups), and generated ids, replies and times are arguments.
--
-- Recursion is on lists and numbers throughout, but for the loop over an update in
-- Pgoutput/Parse, which takes the number of bytes that are left as its fuel: each round
-- passes a byte; the retry loops, which take max_retries + 1 rounds; and the loop over the evictions in
-- DeadLetter, which takes two rounds where the store has room for an entry.
--
-- Not modelled: logging and metrics; the order of a hash map's entries (an association list stands
-- for a map, and a loop over a map visits it in the order of the list); tasks interrupted in the
-- middle of a method; duplicate_rate and compare_lsn of the deduplicator; the error rate of
-- ErrorHandler; the Redis stores; the transformer; adaptive batching, backpressure, and parallel and
-- streaming processing; the rest of the orchestrator, the loading of the configuration, the HTTP API,
-- the health checks and the calls of PostgreSQL and Meilisearch. JSON values (serde_json)
-- are the parameters Delivery/Keys.Json, Filters.JsonValues and Mapper/Nested.MappedValues, or a type V
-- of which nothing is asked; numbers in floating point, among them the factors of the delays, are
-- arguments.
mod Prelude
pub mod Breaker
pub mod Dedup
pub mod Models
pub mod Delivery
pub mod Pgoutput
pub mod Memory
pub mod Config
pub mod Tasks
pub mod Cdc
pub mod Dlq
pub mod DeadLetter
pub mod Filters
pub mod Validation
pub mod Retry
pub mod Checkpoints
pub mod Mapper
pub mod StatementCache
pub mod ErrorHandler
