-- ===== src/TaskJournal/Results.antt =====
-- tasks.go: the helpers that the handlers share, from `taskBounds` to `putImmutableTaskResult`.
use passwall_node.Prelude.{
  ℕ, Bool, false, not, ◌&&◌, Option, none, some, List, [], ◌∷◌, ◌++◌, String, ◌==◌, if◌then◌else◌,
  str_eq, task_terminal_conflict, plain, Result, ok, err, ◌>>=◌,
}
use passwall_node.TaskClock.{TaskTimeBounds, validate}
use passwall_node.TaskJournal.Rows.{
  TaskState, received, succeeded, failed, indeterminate, same_state, Task, TaskResult,
  TaskExecution, ResultRow, Journal, Wire, StartClock, expired_before_start, expired_detail,
  update_rows, result_of, undeliver,
}

-- `taskBounds`, at the `i`-th call of the clock
unfoldable pub task_bounds : Option StartClock → ℕ → Option TaskTimeBounds
task_bounds none i = none
task_bounds (some clock) i = elim (clock i) [
  | none ↦ none
  | some bounds ↦ if validate bounds then some bounds else none
]

-- `taskResult`
unfoldable pub task_result : TaskExecution → TaskResult
task_result t = record {
  id = t.id;
  kind = t.kind;
  input_sha256 = t.input_sha256;
  not_after_ms = t.not_after_ms;
  succeeds = same_state t.state succeeded;
  is_indeterminate = same_state t.state indeterminate;
  result = t.result;
  error_code = t.error_code;
  error = t.error;
}

-- `resultMatchesState`
unfoldable pub result_matches_state : TaskState → TaskResult → Bool
result_matches_state succeeded r = r.succeeds && not r.is_indeterminate
result_matches_state failed r = not r.succeeds && not r.is_indeterminate
result_matches_state indeterminate r = not r.succeeds && r.is_indeterminate
result_matches_state _ r = false

-- `sameTerminal`
unfoldable pub same_terminal : TaskExecution → TaskState → TaskResult → Bool
same_terminal t state r =
    same_state t.state state
    && str_eq t.result r.result
    && str_eq t.error_code r.error_code
    && str_eq t.error r.error

-- `putImmutableTaskResult`
unfoldable pub put_immutable_task_result :
    String → String → ℕ → List ResultRow → Result (List ResultRow)
put_immutable_task_result id body at_ms rows = elim (result_of id rows) [
  | none ↦ ok (
      rows
      ++ record { dedupe_key = id; payload = body; created_at_ms = at_ms; delivered = false } ∷ [])
  | some row ↦
      if str_eq row.payload body then ok (undeliver id rows) else err task_terminal_conflict
]

-- The row that an accepted task starts as.
unfoldable pub received_row : Task → ℕ → TaskExecution
received_row task at_ms = record {
  id = task.id;
  kind = task.kind;
  args = task.args;
  input_sha256 = task.input_sha256;
  not_after_ms = task.not_after_ms;
  claim_token = "";
  state = received;
  result = "";
  error_code = "";
  error = "";
  received_at_ms = at_ms;
  started_at_ms = 0;
  finished_at_ms = 0;
  result_delivered = false;
}

-- The journalled identity of a task.
unfoldable pub same_identity : TaskExecution → Task → Bool
same_identity t task =
    str_eq t.kind task.kind
    && str_eq t.input_sha256 task.input_sha256
    && t.not_after_ms == task.not_after_ms
    && str_eq t.args task.args

-- The result of a task that expired before it started.
unfoldable pub expiry_result : TaskExecution → TaskResult
expiry_result t = record {
  id = t.id;
  kind = t.kind;
  input_sha256 = t.input_sha256;
  not_after_ms = t.not_after_ms;
  succeeds = false;
  is_indeterminate = false;
  result = "";
  error_code = expired_before_start;
  error = expired_detail;
}

-- `WHERE task_id = ? AND state = ?`
unfoldable pub is_row : String → TaskState → TaskExecution → Bool
is_row id state t = str_eq t.id id && same_state t.state state

module _ (wire : Wire) where
  -- `json.Marshal` of a result
  unfoldable pub encode : TaskResult → Result String
  encode r = elim (wire.marshal r) [ none ↦ err plain | some body ↦ ok body ]

  -- `rearmTaskResult`
  unfoldable pub rearm_task_result : TaskExecution → ℕ → Journal → Result Journal
  rearm_task_result t at_ms j = do
    body ← encode (task_result t)
    results ← put_immutable_task_result t.id body at_ms j.results
    tasks ← update_rows (λ u. str_eq u.id t.id) (λ u. record u { result_delivered = false }) j.tasks
    ok (record { tasks = tasks; results = results })
