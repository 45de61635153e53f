-- ===== src/TaskJournal/Completing.antt =====
-- tasks.go: `CompleteTask`.
use passwall_node.Prelude.{
  ℕ, Bool, false, not, ◌&&◌, ◌||◌, none, some, [], ◌∷◌, String, ◌==◌, if◌then◌else◌, str_eq,
  is_empty, ℤ, is_nonpositive, to_ℕ, not_found, invalid_state, task_identity_conflict,
  task_terminal_conflict, plain, Result, ok, err, ◌>>=◌, ◌>>◌, refuse, transact,
}
use passwall_node.TaskJournal.Rows.{
  TaskState, received, running, terminal, same_state, TaskResult, TaskExecution, Journal, Wire,
  update_rows, matching, task_by_id,
}
use passwall_node.TaskJournal.Results.{
  result_matches_state, same_terminal, put_immutable_task_result, is_row, encode, rearm_task_result,
}

-- The `WHERE` of `ReleaseTaskClaim`: the exact claim.
unfoldable pub is_claim : TaskExecution → TaskExecution → Bool
is_claim claim t =
    str_eq t.id claim.id
    && str_eq t.kind claim.kind
    && str_eq t.input_sha256 claim.input_sha256
    && t.not_after_ms == claim.not_after_ms
    && same_state t.state running
    && t.started_at_ms == claim.started_at_ms
    && str_eq t.claim_token claim.claim_token

unfoldable pub release_row : TaskExecution → TaskExecution
release_row t = record t { state = received; started_at_ms = 0; claim_token = "" }

-- `ReleaseTaskClaim`: one statement, and the count of the rows that it changed
unfoldable pub release_task_claim : TaskExecution → Journal → Journal × Result (Unit {0})
release_task_claim claim j =
    if is_empty claim.id
      || not (same_state claim.state running)
      || claim.started_at_ms == 0
      || is_empty claim.claim_token
    then (j, err invalid_state)
    else elim (update_rows (is_claim claim) release_row j.tasks) [
      | err e ↦ (j, err e)
      | ok tasks ↦ (
        record j { tasks = tasks },
        if matching (is_claim claim) j.tasks == 1 then ok tt else err invalid_state,
      )
    ]

-- The new columns of a completed task.
unfoldable pub completed : TaskState → TaskResult → ℕ → TaskExecution → TaskExecution
completed state r at_ms t = record t {
  state = state;
  result = r.result;
  error_code = r.error_code;
  error = r.error;
  finished_at_ms = at_ms;
  result_delivered = false;
}

module _ (wire : Wire) where
  -- The part of `CompleteTask` behind the read of the row.
  unfoldable pub complete_row :
      TaskExecution → String → TaskState → TaskResult → ℕ → Journal → Result Journal
  complete_row current id state r at_ms j =
      if not (
        str_eq current.kind r.kind
        && str_eq current.input_sha256 r.input_sha256
        && current.not_after_ms == r.not_after_ms)
      then err task_identity_conflict
      else if terminal current.state
      then if same_terminal current state r
        then rearm_task_result wire current at_ms j
        else err task_terminal_conflict
      else if not (same_state current.state running)
      then err invalid_state
      else (do
        tasks ← update_rows (is_row id running) (completed state r at_ms) j.tasks
        body ← encode wire r
        results ← put_immutable_task_result id body at_ms j.results
        ok (record { tasks = tasks; results = results }))

  -- `CompleteTask`
  unfoldable pub complete_task :
      String → TaskState → TaskResult → ℤ → Journal → Journal × Result (Unit {0})
  complete_task id state r at_ms j = transact j (do
    refuse (not (terminal state) || is_nonpositive at_ms) plain
    refuse (not (wire.validate_task_results (r ∷ []))) plain
    refuse (not (str_eq id r.id) || not (result_matches_state state r)) plain
    j' ← elim (task_by_id id j.tasks) [
      | none ↦ err not_found
      | some current ↦ complete_row current id state r (to_ℕ at_ms) j
    ]
    ok (j', tt))
