-- ===== src/TaskJournal/Claiming.antt =====
-- tasks.go: `ClaimNextTaskFenced` and `ReleaseTaskClaim`.
pub mod Authorization
pub mod Fairness
use passwall_node.Prelude.{
  ℕ, ◌+◌, Bool, false, not, ◌&&◌, ◌||◌, Option, none, some, List, [], ◌∷◌, ◌++◌, String, ltb, leb,
  ◌==◌, if◌then◌else◌, ℤ, is_nonpositive, to_ℕ, length, take, not_found, plain, Result, ok, err,
  ◌>>=◌, ◌>>◌, refuse, transact,
}
use passwall_node.TaskJournal.Rows.{
  received, running, failed, same_state, TaskExecution, Journal, Wire, StartClock,
  expired_before_start, expired_detail, update_rows, select_rows,
}
use passwall_node.TaskJournal.Results.{
  task_bounds, put_immutable_task_result, expiry_result, is_row, encode,
}

-- The columns that a claim sets.
unfoldable pub started : String → ℕ → TaskExecution → TaskExecution
started token at_ms t = record t { state = running; started_at_ms = at_ms; claim_token = token }

-- The columns that an expiry sets.
unfoldable pub expired : ℕ → TaskExecution → TaskExecution
expired at_ms t = record t {
  state = failed;
  error_code = expired_before_start;
  error = expired_detail;
  finished_at_ms = at_ms;
  result_delivered = false;
}

-- The branch that starts a task, with the token that the entropy source gives.
unfoldable pub start :
    Option String → TaskExecution → ℕ → Journal → Result (Journal × TaskExecution)
start none t at_ms j = err plain
start (some token) t at_ms j = do
  tasks ← update_rows (is_row t.id received) (started token at_ms) j.tasks
  ok (record j { tasks = tasks }, started token at_ms t)

-- `WHERE state = 'received'`, and `AND not_after_ms = 0` with no clock
unfoldable pub is_candidate : Option StartClock → TaskExecution → Bool
is_candidate none t = same_state t.state received && t.not_after_ms == 0
is_candidate (some clock) t = same_state t.state received

-- A received task without a deadline.
unfoldable pub is_legacy : TaskExecution → Bool
is_legacy t = same_state t.state received && t.not_after_ms == 0

unfoldable pub has_legacy : List TaskExecution → Bool
has_legacy [] = false
has_legacy (t ∷ ts) = t.not_after_ms == 0 || has_legacy ts

-- The fallback of a full page that holds no legacy task: at most one is appended.
unfoldable pub with_legacy :
    Option StartClock → List TaskExecution → List TaskExecution → List TaskExecution
with_legacy none page rows = page
with_legacy (some clock) page rows =
    if length page == 64 && not (has_legacy page)
    then page ++ take 1 (select_rows is_legacy rows)
    else page

unfoldable pub candidates : Option StartClock → List TaskExecution → List TaskExecution
candidates clock rows = with_legacy clock (take 64 (select_rows (is_candidate clock) rows)) rows

module _ (wire : Wire) where
  -- The branch of `ClaimNextTaskFenced` on an expired task.
  unfoldable pub expire : TaskExecution → ℕ → Journal → Result (Journal × TaskExecution)
  expire t at_ms j = do
    let r = expiry_result t
    refuse (not (wire.validate_task_results (r ∷ []))) plain
    tasks ← update_rows (is_row t.id received) (expired at_ms) j.tasks
    body ← encode wire r
    results ← put_immutable_task_result t.id body at_ms j.results
    ok (
      record { tasks = tasks; results = results },
      record (expired at_ms t) { result_delivered = t.result_delivered },
    )

  -- The loop over the candidates, behind `reads` calls of the clock.
  unfoldable pub claim_loop :
      Option StartClock
      → Option String
      → ℕ
      → ℕ
      → List TaskExecution
      → Journal
      → Result (Journal × TaskExecution)
  claim_loop clock token at_ms reads [] j = err not_found
  claim_loop clock token at_ms reads (t ∷ ts) j =
      let later = claim_loop clock token at_ms (reads + 1) ts j in
      if ltb 0 t.not_after_ms
      then elim (task_bounds clock reads) [
        | none ↦ later
        | some b ↦
            if leb t.not_after_ms b.lower_ms
            then expire t at_ms j
            else if leb t.not_after_ms b.upper_ms
            then later
            else start token t at_ms j
      ]
      else start token t at_ms j

  -- `ClaimNextTaskFenced`; `token` is what the entropy source gives, if it does not fail
  unfoldable pub claim_next_task_fenced :
      Option StartClock → Option String → ℤ → Journal → Journal × Result TaskExecution
  claim_next_task_fenced clock token at_ms j = transact j (do
    refuse (is_nonpositive at_ms) plain
    claim_loop clock token (to_ℕ at_ms) 0 (candidates clock j.tasks) j)
