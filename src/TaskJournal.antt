-- ===== src/TaskJournal.antt =====
-- internal/state/sqlite/tasks.go with the types of internal/state/state.go: the durable journal of
-- control-plane tasks and the outbox rows that report their results.
-- A table is a list of rows. The module's functions take what a transaction reads and return what
-- it commits; an error rolls back. Failures of SQLite itself are left out, but the CHECK constraints
-- of schema version 9 (store.go) are tested at each write. Byte strings are texts, since they are
-- only compared. `received_at_ms`, `not_after_ms` and the like are columns with CHECK (… >= 0).
pub mod Rows
pub mod Results
pub mod Accepting
pub mod Claiming
pub mod Completing
pub mod Progress
pub mod Steps
pub mod History
