-- ===== src/Lib.antt =====
-- A model of AxonTask, a service that runs tasks in the background and streams their events. The API
-- (axontask-api) writes tasks to PostgreSQL. Workers (axontask-worker) claim pending tasks, run an adapter
-- for each and record how it ended. Each task has a log of hash-linked events. axontask-shared holds the
-- data and the statements that both use.
--
-- Statements. A `Store` (Db.antt) is one table with the time that `NOW()` gives; a statement runs whole or
-- fails and changes nothing, and which of the coming ones fail is a list in the store. So any processes at
-- work on a table are a list of statements, one after another. Times are numbers of microseconds, a `Uuid`
-- is a number, `i64` and `i32` are `ℤ` with the ranges written out where they matter, a text is the list of
-- the bytes of its UTF-8, and a JSON value is of any type, except where adapters build one.
--
-- * Task.antt, Task/: `Task`, `TaskState` and the statements of `impl Task`
--   (axontask-shared/src/models/task.rs), less the listings and counts that only read. Store/ is the table.
-- * Queue.antt, Queue/: `TaskQueue` (axontask-worker/src/queue.rs). The rows that `SKIP LOCKED` passes over
--   are a predicate.
-- * Schedule.antt, Schedule/: all statements on tasks, in any order.
-- * Event.antt, Event/: `TaskEvent` (axontask-shared/src/models/task_event.rs). SHA-256 and the JSON printer
--   are parameters. `append` is two statements, between which other writers run (Event/Race.antt). The check
--   constraints of the schema (migrations) are part of the insertion.
-- * Worker.antt, Worker/: errors, events and the mock adapter (axontask-worker/src/adapters), the timeout
--   (timeout.rs), one execution and the loop (orchestrator.rs), the emitter (events.rs; Emitter has one call after
--   another, Overlap the steps of calls that overlap) and the control listener (control.rs). What futures do at the
--   same time is a list of events or steps, or an argument `meanwhile`; sleeps only matter where they are counted.
-- * Membership.antt, Membership/: roles and memberships (axontask-shared/src/models/membership.rs).
-- * Auth.antt, Auth/: `AuthContext` (axontask-shared/src/auth/middleware.rs), the checks of authorization.rs,
--   scopes, keys and the comparison of hashes of api_key.rs (Scopes, ApiKeys, Compare), and tokens (jwt.rs, Tokens).
-- * Quota.antt, Quota/: plans (axontask-shared/src/models/tenant.rs), quotas (axontask-shared/src/quota.rs) and
--   the handler that they guard (axontask-api/src/routes/mcp/start_task.rs), with what others do between its
--   statements.
-- * Api.antt, Api/: `cancel_task` (axontask-api/src/routes/mcp/cancel_task.rs), with what others do between its
--   statements.
-- * Redis.antt, Redis/: stream ids and the decision on gaps (axontask-shared/src/redis/gap_detection.rs, StreamId
--   and StreamOrder), events as fields (events/serialization.rs, Serialization), the writer (stream_writer.rs,
--   Writer) and the reader (stream_reader.rs, Reader), both together (Published, Delivered),
--   heartbeats (heartbeat.rs, Heartbeat) and statistics (metrics.rs, Metrics and Lag). The commands of the server
--   are parameters, with the documented behaviour of `XADD`, `XREAD`, `XRANGE` and `XLEN` as hypotheses.
-- * Models.antt, Models/: API keys (axontask-shared/src/models/api_key.rs), usage counters (usage.rs), users (user.rs),
--   tenants (tenant.rs) and webhooks (webhook.rs), with the updates that the code puts together field by field
--   (Updates).
-- * Scenarios.antt, Scenarios/: runs on concrete data.
-- * Prelude.antt, Prelude/: Booleans, lists, integers, texts and results.
--
-- Loops are structural, over the list they go through or the seconds left, but for two that have fuel: the
-- retries of the writer, with two turns more than `max_retries`, and `read_all`, with one turn more than the
-- stream has entries. Redis/Retries.antt and Redis/Readings.antt show that this is enough.
--
-- Not modelled: the other routes of the API and its middleware, passwords, rate limits, and start-up, configuration
-- and connection pools.
pub mod Prelude
pub mod Db
pub mod Task
pub mod Store
pub mod Queue
pub mod Schedule
pub mod Event
pub mod Worker
pub mod Membership
pub mod Auth
pub mod Redis
pub mod Quota
pub mod Api
pub mod Models
pub mod Scenarios
