-- ===== src/Examples/Reports.antt =====
-- internal/state/sqlite/outbox.go on concrete input: an issue and two results, one of them too long
-- for a report of eight bytes.
use passwall_node.Prelude.{
  ℕ, ◌≡◌, refl, true, false, not, ◌&&◌, some, [], ◌∷◌, String, byte_length, pos, ok,
}
use passwall_node.TaskJournal.Rows.{TaskResult}
use passwall_node.Outbox.{
  OutboxKind, issue, task_result, OutboxRow, Reports, ReportWire, reported_before, insert_report,
  undelivered, OutboxBatch, add_issue, add_task_result, add_row, add_rows, pending_outbox,
  mark_delivered, result_key, deliver_result, deliver_task, is_journalled, compact, ack_row,
  ack_rows, ack_outbox,
}
use passwall_node.Outbox.Batch.{is_pending, IsBatch, pending_outbox-IsBatch}
use passwall_node.Outbox.Acknowledged.{is_acknowledged, ack_outbox-is_pending}
use passwall_node.Examples.Journal.{done}

abbrev result_with : String → TaskResult
result_with body = record {
  id = "a";
  kind = "probe";
  input_sha256 = "";
  not_after_ms = 0;
  succeeds = true;
  is_indeterminate = false;
  result = body;
  error_code = "";
  error = "";
}

-- The JSON of a result is its payload.
abbrev wire : ReportWire
wire = record {
  max_issue_code_bytes = 64;
  max_issue_key_bytes = 64;
  max_issue_detail_bytes = 64;
  max_issues_per_report = 4;
  max_task_results_per_report = 4;
  max_task_result_bytes_per_report = 8;
  marshal_issue = λ i. some i.code;
  unmarshal_issue = λ body. some (record { code = body; key = ""; detail = "" });
  unmarshal_task_result = λ body. some (result_with body);
}

abbrev queued : OutboxKind → ℕ → String → String → OutboxRow
queued kind id key body = record {
  id = id;
  kind = kind;
  dedupe_key = key;
  payload = body;
  created_at_ms = 5;
  delivered = false;
}

abbrev reports : Reports
reports = record {
  rows =
      queued issue 1 "disk" "disk_full"
      ∷ queued task_result 2 "a" "{}"
      ∷ queued task_result 3 "b" "123456789"
      ∷ [];
  next_id = 4;
  tasks = done ∷ [];
}

abbrev batch : OutboxBatch
batch = record {
  ids = 2 ∷ 1 ∷ [];
  issues = record { code = "disk_full"; key = ""; detail = "" } ∷ [];
  task_results = result_with "{}" ∷ [];
  task_result_bytes = 2;
}

batched : pending_outbox wire (pos 10) reports ≡ ok batch
unfolding pending_outbox undelivered insert_report reported_before add_rows add_row add_issue
    add_task_result byte_length
batched = refl

pending_outbox-IsBatch_example : IsBatch wire reports.rows batch
pending_outbox-IsBatch_example = pending_outbox-IsBatch wire (pos 10) reports batch batched

-- The journal has the result of "a", so that its row goes.
abbrev acknowledged : Reports
acknowledged = record {
  rows =
      record (queued issue 1 "disk" "disk_full") { delivered = true }
      ∷ queued task_result 3 "b" "123456789"
      ∷ [];
  next_id = 4;
  tasks = record done { result_delivered = true } ∷ [];
}

acked : ack_outbox (pos 2 ∷ pos 1 ∷ []) reports ≡ (acknowledged, ok tt)
unfolding ack_outbox ack_rows ack_row mark_delivered result_key deliver_result deliver_task compact
    is_journalled
acked = refl

ack_outbox-is_pending_example :
    is_pending 3 acknowledged.rows
    ≡ (is_pending 3 reports.rows && not (is_acknowledged 3 (pos 2 ∷ pos 1 ∷ [])))
ack_outbox-is_pending_example =
    ack_outbox-is_pending (pos 2 ∷ pos 1 ∷ []) reports acknowledged 3 acked
