-- ===== src/TaskJournal/Rows.antt =====
-- The types of internal/state/state.go that the task journal holds, the tables of
-- internal/state/sqlite/store.go that hold them, and the statements on them in tasks.go.
use passwall_node.Prelude.{
  ℕ, suc, Bool, true, false, not, ◌&&◌, ◌||◌, Option, none, some, List, [], ◌∷◌, ◌++◌, String, ltb,
  ◌==◌, if◌then◌else◌, str_eq, is_empty, text_leb, codes, length, plain, Result, ok, err, ◌>>=◌,
}
use passwall_node.TaskClock.{TaskTimeBounds}

-- `TaskState`
pub data TaskState : Type 0 where
  received running succeeded failed indeterminate : TaskState

-- `TaskState.Terminal`
abbrev pub terminal : TaskState → Bool
terminal received = false
terminal running = false
terminal _ = true

abbrev pub rank : TaskState → ℕ
rank received = 0
rank running = 1
rank succeeded = 2
rank failed = 3
rank indeterminate = 4

-- `a == b` on states
abbrev pub same_state : TaskState → TaskState → Bool
same_state a b = rank a == rank b

-- The fields of the wire's `Task` that the journal reads.
pub record Task : Type 0 where
  pub id : String
  pub kind : String
  pub input_sha256 : String
  pub args : String
  pub not_after_ms : ℕ

-- The fields of the wire's `TaskResult` that the journal writes.
pub record TaskResult : Type 0 where
  pub id : String
  pub kind : String
  pub input_sha256 : String
  pub not_after_ms : ℕ
  pub succeeds : Bool
  pub is_indeterminate : Bool
  pub result : String
  pub error_code : String
  pub error : String

-- `TaskExecution`
pub record TaskExecution : Type 0 where
  pub id : String
  pub kind : String
  pub args : String
  pub input_sha256 : String
  pub not_after_ms : ℕ
  pub claim_token : String
  pub state : TaskState
  pub result : String
  pub error_code : String
  pub error : String
  pub received_at_ms : ℕ
  pub started_at_ms : ℕ
  pub finished_at_ms : ℕ
  pub result_delivered : Bool

-- `TaskAcceptance`
pub record TaskAcceptance : Type 0 where
  pub work_available : Bool
  pub result_available : Bool
  pub replay_fenced : List Task

-- A row of `report_outbox` of kind `task_result`; its `dedupe_key` is the task's id.
pub record ResultRow : Type 0 where
  pub dedupe_key : String
  pub payload : String
  pub created_at_ms : ℕ
  pub delivered : Bool

pub record Journal : Type 0 where
  pub tasks : List TaskExecution
  pub results : List ResultRow

-- The wire package: `ValidateTasks`, `ValidateTaskResults`, and the JSON of a `TaskResult`.
pub record Wire : Type 0 where
  pub validate_tasks : List Task → Bool
  pub validate_task_results : List TaskResult → Bool
  pub marshal : TaskResult → Option String

-- What successive calls of a `TaskStartClock` return; `none` is an error.
abbrev pub StartClock : Type 0
StartClock = ℕ → Option TaskTimeBounds

-- `taskExpiredBeforeStart`, and the detail that goes with it
abbrev pub expired_before_start : String
expired_before_start = "task_expired_before_start"

abbrev pub expired_detail : String
expired_detail = "task authorization expired before execution started"

-- The CHECK constraints of `task_executions_v9` that join columns: the timestamps of a state, and
-- its outcome.
unfoldable pub timestamps_check : TaskState → TaskExecution → Bool
timestamps_check received t =
    t.started_at_ms == 0 && t.finished_at_ms == 0 && is_empty t.claim_token
timestamps_check running t = ltb 0 t.started_at_ms && t.finished_at_ms == 0
timestamps_check failed t =
    ltb 0 t.finished_at_ms
    && (ltb 0 t.started_at_ms
        || (ltb 0 t.not_after_ms
            && is_empty t.claim_token
            && str_eq t.error_code expired_before_start))
timestamps_check _ t = ltb 0 t.finished_at_ms && ltb 0 t.started_at_ms

unfoldable pub outcome_check : TaskState → TaskExecution → Bool
outcome_check succeeded t = is_empty t.error_code && is_empty t.error
outcome_check received t = is_empty t.result && is_empty t.error_code && is_empty t.error
outcome_check running t = is_empty t.result && is_empty t.error_code && is_empty t.error
outcome_check _ t = is_empty t.result && not (is_empty t.error_code) && not (is_empty t.error)

unfoldable pub row_check : TaskExecution → Bool
unfolding timestamps_check outcome_check
row_check t = timestamps_check t.state t && outcome_check t.state t

-- `UPDATE task_executions SET f WHERE p`: a new row that fails a CHECK is an error.
unfoldable pub update_rows :
    (TaskExecution → Bool)
    → (TaskExecution → TaskExecution)
    → List TaskExecution
    → Result (List TaskExecution)
update_rows p f [] = ok []
update_rows p f (t ∷ ts) = do
  rest ← update_rows p f ts
  if p t then if row_check (f t) then ok (f t ∷ rest) else err plain else ok (t ∷ rest)

-- `INSERT INTO task_executions`, of a `task_id` that the table does not hold
unfoldable pub insert_task : TaskExecution → List TaskExecution → Result (List TaskExecution)
unfolding row_check
insert_task t ts =
    if length (codes t.input_sha256) == 64 && row_check t then ok (ts ++ t ∷ []) else err plain

-- The number of rows that an update touches.
unfoldable pub matching : (TaskExecution → Bool) → List TaskExecution → ℕ
matching p [] = 0
matching p (t ∷ ts) = if p t then suc (matching p ts) else matching p ts

-- `taskByID`
unfoldable pub task_by_id : String → List TaskExecution → Option TaskExecution
task_by_id id [] = none
task_by_id id (t ∷ ts) = if str_eq t.id id then some t else task_by_id id ts

-- `ORDER BY received_at_ms, task_id`
unfoldable pub row_before : TaskExecution → TaskExecution → Bool
row_before a b =
    if a.received_at_ms == b.received_at_ms
    then text_leb a.id b.id
    else ltb a.received_at_ms b.received_at_ms

unfoldable pub insert_row : TaskExecution → List TaskExecution → List TaskExecution
insert_row t [] = t ∷ []
insert_row t (u ∷ us) = if row_before t u then t ∷ u ∷ us else u ∷ insert_row t us

-- `WHERE p ORDER BY received_at_ms, task_id`
unfoldable pub select_rows : (TaskExecution → Bool) → List TaskExecution → List TaskExecution
unfolding insert_row row_before
select_rows p [] = []
select_rows p (t ∷ ts) = let rest = select_rows p ts in if p t then insert_row t rest else rest

-- The outbox row of a task's result.
unfoldable pub result_of : String → List ResultRow → Option ResultRow
result_of id [] = none
result_of id (r ∷ rs) = if str_eq r.dedupe_key id then some r else result_of id rs

unfoldable pub undeliver : String → List ResultRow → List ResultRow
undeliver id [] = []
undeliver id (r ∷ rs) =
    (if str_eq r.dedupe_key id then record r { delivered = false } else r) ∷ undeliver id rs
