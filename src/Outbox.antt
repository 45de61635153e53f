-- ===== src/Outbox.antt =====
-- internal/state/sqlite/outbox.go, and the counts of diagnostics.go: the reports that wait for the
-- control plane, in `report_outbox`, and the journal's rows whose results they carry. The rows of kind
-- `task_result` are those that TaskJournal writes; here a row has its id and its kind as well.
pub mod Batch
pub mod Acknowledged
use passwall_node.Prelude.{
  ℕ, suc, ◌+◌, Bool, true, false, ◌&&◌, ◌||◌, Option, none, some, List, [], ◌∷◌, ◌++◌, String,
  length, take, if◌then◌else◌, ltb, leb, ◌==◌, str_eq, codes, is_blank, byte_length, ℤ, is_negative,
  is_nonpositive, to_ℕ, plain, Result, ok, err, ◌>>=◌, ◌>>◌, refuse, transact,
}
use passwall_node.TaskJournal.Rows.{received, running, same_state, TaskResult, TaskExecution}

-- The two kinds of `report_outbox`
pub data OutboxKind : Type 0 where
  issue task_result : OutboxKind

abbrev pub same_kind : OutboxKind → OutboxKind → Bool
same_kind issue issue = true
same_kind task_result task_result = true
same_kind _ _ = false

-- A row of `report_outbox`
pub record OutboxRow : Type 0 where
  pub id : ℕ
  pub kind : OutboxKind
  pub dedupe_key : String
  pub payload : String
  pub created_at_ms : ℕ
  pub delivered : Bool

-- The two tables, with the next id of AUTOINCREMENT.
pub record Reports : Type 0 where
  pub rows : List OutboxRow
  pub next_id : ℕ
  pub tasks : List TaskExecution

-- The fields of the wire's `Issue`
pub record Issue : Type 0 where
  pub code : String
  pub key : String
  pub detail : String

-- What the file uses of the wire package: its bounds, and the JSON of its types.
pub record ReportWire : Type 0 where
  pub max_issue_code_bytes : ℕ
  pub max_issue_key_bytes : ℕ
  pub max_issue_detail_bytes : ℕ
  pub max_issues_per_report : ℕ
  pub max_task_results_per_report : ℕ
  pub max_task_result_bytes_per_report : ℕ
  pub marshal_issue : Issue → Option String
  pub unmarshal_issue : String → Option Issue
  pub unmarshal_task_result : String → Option TaskResult

-- `len(s)` of a text
abbrev pub bytes_of : String → ℕ
bytes_of s = byte_length (codes s)

-- `kind = ? AND dedupe_key = ?`, the table's unique key
unfoldable pub is_queued : OutboxKind → String → List OutboxRow → Bool
is_queued kind key [] = false
is_queued kind key (r ∷ rows) =
    same_kind r.kind kind && str_eq r.dedupe_key key || is_queued kind key rows

-- `enqueue`, of a payload that is encoded
unfoldable pub enqueue : OutboxKind → String → String → ℕ → Reports → Reports × Bool
enqueue kind key body at_ms s = if is_queued kind key s.rows then (s, false) else (
  record s {
    rows =
        s.rows
        ++ record {
          id = s.next_id;
          kind = kind;
          dedupe_key = key;
          payload = body;
          created_at_ms = at_ms;
          delivered = false;
        }
          ∷ [];
    next_id = suc s.next_id;
  },
  true,
)

-- `ORDER BY CASE kind WHEN 'task_result' THEN 0 ELSE 1 END, created_at_ms, id`
unfoldable pub reported_before : OutboxRow → OutboxRow → Bool
reported_before a b =
    if same_kind a.kind b.kind
    then (if a.created_at_ms == b.created_at_ms
        then leb a.id b.id
        else ltb a.created_at_ms b.created_at_ms)
    else same_kind a.kind task_result

unfoldable pub insert_report : OutboxRow → List OutboxRow → List OutboxRow
insert_report r [] = r ∷ []
insert_report r (q ∷ rows) =
    let rest = insert_report r rows in if reported_before r q then r ∷ q ∷ rows else q ∷ rest

-- `WHERE delivered = 0`, in that order
unfoldable pub undelivered : List OutboxRow → List OutboxRow
undelivered [] = []
undelivered (r ∷ rows) =
    let rest = undelivered rows in if r.delivered then rest else insert_report r rest

-- `OutboxBatch`, with the variable `taskResultBytes` of the loop
pub record OutboxBatch : Type 0 where
  pub ids : List ℕ
  pub issues : List Issue
  pub task_results : List TaskResult
  pub task_result_bytes : ℕ

abbrev pub empty_batch : OutboxBatch
empty_batch = record { ids = []; issues = []; task_results = []; task_result_bytes = 0 }

module _ (wire : ReportWire) where
  -- `EnqueueIssue`
  unfoldable pub enqueue_issue : String → Issue → ℤ → Reports → Reports × Result Bool
  enqueue_issue key i at_ms s = transact s (do
    refuse (is_blank (codes key) || is_blank (codes i.code) || is_negative at_ms) plain
    refuse
        (ltb wire.max_issue_code_bytes (bytes_of i.code)
          || ltb wire.max_issue_key_bytes (bytes_of i.key)
          || ltb wire.max_issue_detail_bytes (bytes_of i.detail))
        plain
    elim (wire.marshal_issue i) [
      | none ↦ err plain
      | some body ↦ ok (enqueue issue key body (to_ℕ at_ms) s)
    ])

  -- A row of kind `issue` in the loop of `PendingOutbox`
  unfoldable pub add_issue : OutboxRow → OutboxBatch → Result OutboxBatch
  add_issue r b =
      if leb wire.max_issues_per_report (length b.issues)
      then ok b
      else elim (wire.unmarshal_issue r.payload) [
        | none ↦ err plain
        | some i ↦ ok (record b { ids = b.ids ++ r.id ∷ []; issues = b.issues ++ i ∷ [] })
      ]

  -- One of kind `task_result`
  unfoldable pub add_task_result : OutboxRow → OutboxBatch → Result OutboxBatch
  add_task_result r b =
      if leb wire.max_task_results_per_report (length b.task_results)
      then ok b
      else elim (wire.unmarshal_task_result r.payload) [
        | none ↦ err plain
        | some t ↦
            if ltb wire.max_task_result_bytes_per_report (bytes_of t.result + b.task_result_bytes)
            then ok b
            else ok (record b {
              ids = b.ids ++ r.id ∷ [];
              task_results = b.task_results ++ t ∷ [];
              task_result_bytes = b.task_result_bytes + bytes_of t.result;
            })
      ]

  unfoldable pub add_row : OutboxRow → OutboxBatch → Result OutboxBatch
  add_row r b = elim (r.kind) [ issue ↦ add_issue r b | task_result ↦ add_task_result r b ]

  -- The loop of `PendingOutbox`
  unfoldable pub add_rows : List OutboxRow → OutboxBatch → Result OutboxBatch
  add_rows [] b = ok b
  add_rows (r ∷ rows) b = add_row r b >>= add_rows rows

  -- `PendingOutbox`
  unfoldable pub pending_outbox : ℤ → Reports → Result OutboxBatch
  pending_outbox limit s = do
    refuse (is_nonpositive limit || ltb 1000 (to_ℕ limit)) plain
    add_rows (take (to_ℕ limit) (undelivered s.rows)) empty_batch

-- `UPDATE report_outbox SET delivered = 1 WHERE id = ?`
unfoldable pub mark_delivered : ℕ → List OutboxRow → List OutboxRow
mark_delivered i [] = []
mark_delivered i (r ∷ rows) =
    (if r.id == i then record r { delivered = true } else r) ∷ mark_delivered i rows

-- `SELECT dedupe_key FROM report_outbox WHERE id = ? AND kind = 'task_result'`
unfoldable pub result_key : ℕ → List OutboxRow → Option String
result_key i [] = none
result_key i (r ∷ rows) =
    if r.id == i && same_kind r.kind task_result then some r.dedupe_key else result_key i rows

-- The UPDATE of the journal
unfoldable pub deliver_task : String → List TaskExecution → List TaskExecution
deliver_task key [] = []
deliver_task key (t ∷ ts) =
    (if str_eq t.id key then record t { result_delivered = true } else t) ∷ deliver_task key ts

unfoldable pub deliver_result : Option String → List TaskExecution → List TaskExecution
deliver_result none ts = ts
deliver_result (some key) ts = deliver_task key ts

-- `EXISTS (SELECT 1 FROM task_executions WHERE task_id = report_outbox.dedupe_key)`
unfoldable pub is_journalled : String → List TaskExecution → Bool
is_journalled key [] = false
is_journalled key (t ∷ ts) = str_eq t.id key || is_journalled key ts

-- The DELETE of a second copy
unfoldable pub compact : ℕ → List TaskExecution → List OutboxRow → List OutboxRow
compact i ts [] = []
compact i ts (r ∷ rows) =
    let rest = compact i ts rows in
    if r.id == i && same_kind r.kind task_result && is_journalled r.dedupe_key ts
    then rest
    else r ∷ rest

-- One round of `AckOutbox`
unfoldable pub ack_row : ℕ → Reports → Reports
ack_row i s =
    let marked = mark_delivered i s.rows in
    let tasks = deliver_result (result_key i marked) s.tasks in
    record s { rows = compact i tasks marked; tasks = tasks }

unfoldable pub ack_rows : List ℤ → Reports → Result Reports
ack_rows [] s = ok s
ack_rows (i ∷ ids) s = if is_nonpositive i then err plain else ack_rows ids (ack_row (to_ℕ i) s)

-- `AckOutbox`
unfoldable pub ack_outbox : List ℤ → Reports → Reports × Result (Unit {0})
ack_outbox ids s = transact s (ack_rows ids s >>= λ s'. ok (s', tt))

-- `OutboxPending`
unfoldable pub outbox_pending : List OutboxRow → ℕ
outbox_pending [] = 0
outbox_pending (r ∷ rows) = if r.delivered then outbox_pending rows else suc (outbox_pending rows)

-- `TasksQueued`
unfoldable pub tasks_queued : List TaskExecution → ℕ
tasks_queued [] = 0
tasks_queued (t ∷ ts) =
    if same_state t.state received || same_state t.state running
    then suc (tasks_queued ts)
    else tasks_queued ts
