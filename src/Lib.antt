-- ===== src/Lib.antt =====
-- Passwall-Node is the agent that runs on a proxy node: it synchronizes with the control plane, runs
-- the proxy core, counts traffic per client and listener, closes the gate of a client whose quota is
-- used up, and runs the tasks that the control plane sends. What it must not forget is in an SQLite
-- database, whose operations are the program's core logic.
--
-- The parts, and the files that model them:
--
-- TaskClock (internal/agent/task_clock.go): `ControlPlaneTaskClock` is the record `Clock`; `new`,
-- `capture`, `observe` and `task_time_bounds` are `NewControlPlaneTaskClock`, `Capture`, `Observe` and
-- `TaskTimeBounds`, each of which takes the reading of the elapsed counter as an argument. Bounds,
-- Invariant, History and Fresh hold what is true of the bounds, of the clock, of runs of calls, and of
-- one call that answers.
--
-- TaskJournal (internal/state/sqlite/tasks.go): the tables `task_executions` and `report_outbox` are
-- the record `Journal`. Accepting, Claiming and Completing model `AcceptTasksFenced`,
-- `ClaimNextTaskFenced` with `ReleaseTaskClaim`, and `CompleteTask`; Rows has the types, the statements
-- and the CHECK constraints, Results the functions on results. Progress, Steps and History follow a row
-- through the handlers. A claim reads the task clock, so the journal and the clock meet in
-- Claiming.Authorization: the type `StartClock` is what successive calls of `TaskTimeBounds` return.
--
-- Clients (internal/state/sqlite/clients.go) and Listeners (internal/state/sqlite/listeners.go): the
-- tables `client_runtime` and `listener_runtime` are lists of rows. Clients.Ceiling has `deriveGate`,
-- Clients.Addresses `normalizeIPs`. Validity, Enforcement and Rollover hold the invariant of the rows,
-- the life of a gate, and the scheduled rollover of a quota; Listeners.Following the counters of a
-- listener.
--
-- CounterBatch (internal/state/sqlite/counters.go): `ApplyCounterBatch` composes the counter updates of
-- Clients and of Listeners in one transaction.
--
-- CoreTraffic (internal/state/sqlite/core_traffic.go): the ledger of the connections of one core
-- process and the totals of clients and listeners are the record `Traffic`. Ledger models one event,
-- CoreTraffic itself `ApplyCoreTrafficEvents`; Conservation, Replay, Writes and CarryForward hold the
-- proofs.
--
-- CoreEpoch (internal/state/sqlite/core_epoch.go): `ClaimCoreCounterEpoch` on its one row.
--
-- Skew (internal/state/sqlite/skew.go): the rounds of `reference_skew`, with the version's `Zero` of the
-- wire package as a parameter. History follows a reference through any calls.
--
-- Streams (internal/state/sqlite/streams.go): the accepted document of each stream, with `SaveStream` and
-- `ClearStreamForHigherEpoch`; Table says what one call makes of a row, Floor and Immutable what holds
-- over runs of calls. Codec (internal/state/sqlite/version.go) is the byte form of the versions in the
-- BLOB columns; the tables hold the numbers that the bytes stand for.
--
-- Outbox (internal/state/sqlite/outbox.go, and the counts of diagnostics.go): `report_outbox` with the
-- kinds and ids of its rows, and the flags of the journal that an acknowledgement sets. TaskJournal sees
-- of the same table only the results that it writes, by their keys.
--
-- TaskWorker (internal/agent/tasks.go): the rounds of `drain` and of `recoverRunning` on the task
-- journal, with `finishInvocation`, `finishError` and `complete`; Errors has `boundedError`, and
-- Texts what it uses of Go's strings and utf8 on a text that may be any bytes: a list of runes and of
-- bytes that start none. The context, the clocks, the entropy and what a handler's call comes to are
-- arguments of a round. Starting and Finishing hold what is true of the call of a handler and of what
-- follows it.
--
-- Pacing (internal/agent/run.go): the rounds of `Run`, and `failureBackoff`. Readiness
-- (internal/agent/readiness.go): the gate that reports changes, if it is given an `onChange`.
--
-- Diagnostics (internal/diagnostics/ring.go): the ring of the agent's own events, against the list of all
-- events that were recorded, and `truncateUTF8` on whole runes.
--
-- Releases (releaseid/releaseid.go) with Releases.Allocate (releaseid/allocate.go): versions and tags on
-- their bytes. Texts has what is used of Go's strings and strconv; Decimal and Cuts hold the lemmas on
-- digits and separators, RoundTrip and Canonical the two directions between a version and its text,
-- Order the comparison, Allocated and Tags the allocation of numbers. Releases.Candidates is
-- releaseid/release_stage.go with what it uses of releaseid/candidate.go, and Advancing the advance of a
-- candidate; `AllocateCandidate` is not modelled. The digits of a number are
-- recursive on fuel, one more than the number, which `fuel_enough` shows to be enough.
--
-- Prelude has the names that all share: Boolean tests on the native numbers, lists, Go's `int64`, texts,
-- and results with the transactions of the store. Examples runs the models on concrete input.
--
-- Conventions. A transaction is a function to a `Result`, and `transact` keeps the old tables where it
-- is an error. An `int64` that a caller passes is an integer `ℤ`; what the code has tested or a CHECK
-- constraint bounds is a natural number. A sum that the code tests for overflow is `checked_add`, which
-- fails above `max_int64`. Loops are recursive on the list that they run over, or on the rounds that are
-- left; the bounds 64, 1000 and 2000 of queries are those of the source.
--
-- Not modelled: the failures of SQLite, of JSON encoding where the code ignores them, and of the
-- context; the wire package, which stands in another repository and is a parameter (such as the records
-- `Wire`, `StreamPlatform`, `ReportWire` and `PacingWire`), as are net/netip and the digests; the
-- network, processes and files; texts that are not UTF-8, since a text is its code points, except in
-- the errors of a task's handler, and except in Releases and Diagnostics, which stand on bytes; and the other
-- parts that the sources name: object status and the core deployment, the synchronizer and the
-- processor, the supervisor of the core, the allocation of candidates, remote upgrades and the management
-- command.
pub mod Clients
pub mod Codec
pub mod CoreEpoch
pub mod CoreTraffic
pub mod CounterBatch
pub mod Diagnostics
pub mod Examples
pub mod Listeners
pub mod Outbox
pub mod Pacing
pub mod Prelude
pub mod Readiness
pub mod Releases
pub mod Skew
pub mod Streams
pub mod TaskClock
pub mod TaskJournal
pub mod TaskWorker
