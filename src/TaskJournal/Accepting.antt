-- ===== src/TaskJournal/Accepting.antt =====
-- tasks.go: `AcceptTasksFenced`.
use passwall_node.Prelude.{
  ℕ, ◌+◌, true, false, not, Option, none, some, List, [], ◌∷◌, ◌++◌, ltb, leb, if◌then◌else◌, ℤ,
  is_nonpositive, to_ℕ, task_identity_conflict, plain, Result, ok, err, ◌>>=◌, ◌>>◌, refuse,
  transact,
}
use passwall_node.TaskJournal.Rows.{
  terminal, Task, TaskExecution, TaskAcceptance, Journal, Wire, StartClock, insert_task, task_by_id,
}
use passwall_node.TaskJournal.Results.{task_bounds, received_row, same_identity, rearm_task_result}

-- The state of the loop of `AcceptTasksFenced`: the tables, the acceptance so far, and how often the
-- clock has been read.
pub record Accepting : Type 0 where
  pub journal : Journal
  pub acceptance : TaskAcceptance
  pub reads : ℕ

-- The loop's state before the first task.
abbrev pub accepting : Journal → Accepting
accepting j = record {
  journal = j;
  acceptance = record { work_available = false; result_available = false; replay_fenced = [] };
  reads = 0;
}

-- No journal, and no proof that the task may still start: it is reported, not inserted.
unfoldable pub fence : Task → Accepting → Accepting
fence task s = record s {
  acceptance = record s.acceptance { replay_fenced = s.acceptance.replay_fenced ++ task ∷ [] };
  reads = s.reads + 1;
}

-- The insert of `AcceptTasksFenced`, behind `reads` calls of the clock.
unfoldable pub insert : Task → ℕ → ℕ → Accepting → Result Accepting
insert task at_ms reads s = do
  tasks ← insert_task (received_row task at_ms) s.journal.tasks
  ok (record {
    journal = record s.journal { tasks = tasks };
    acceptance = record s.acceptance { work_available = true };
    reads = reads;
  })

-- A task that the journal does not hold.
unfoldable pub accept_new : Option StartClock → Task → ℕ → Accepting → Result Accepting
accept_new clock task at_ms s =
    if ltb 0 task.not_after_ms
    then elim (task_bounds clock s.reads) [
      | none ↦ ok (fence task s)
      | some b ↦
          if leb task.not_after_ms b.upper_ms
          then ok (fence task s)
          else insert task at_ms (s.reads + 1) s
    ]
    else insert task at_ms s.reads s

module _ (wire : Wire) where
  -- A task that the journal holds as `current`.
  unfoldable pub accept_known : TaskExecution → Task → ℕ → Accepting → Result Accepting
  accept_known current task at_ms s =
      if not (same_identity current task)
      then err task_identity_conflict
      else if terminal current.state
      then elim (rearm_task_result wire current at_ms s.journal) [
        | err e ↦ err e
        | ok j ↦
            ok (record s {
              journal = j;
              acceptance = record s.acceptance { result_available = true };
            })
      ]
      else ok s

  unfoldable pub accept_task : Option StartClock → ℕ → Task → Accepting → Result Accepting
  accept_task clock at_ms task s = elim (task_by_id task.id s.journal.tasks) [
    | none ↦ accept_new clock task at_ms s
    | some current ↦ accept_known current task at_ms s
  ]

  unfoldable pub accept_loop : Option StartClock → ℕ → List Task → Accepting → Result Accepting
  accept_loop clock at_ms [] s = ok s
  accept_loop clock at_ms (task ∷ tasks) s =
      accept_task clock at_ms task s >>= accept_loop clock at_ms tasks

  -- `AcceptTasksFenced`
  unfoldable pub accept_tasks_fenced :
      Option StartClock → List Task → ℤ → Journal → Journal × Result TaskAcceptance
  accept_tasks_fenced clock tasks at_ms j = transact j (do
    refuse (is_nonpositive at_ms) plain
    refuse (not (wire.validate_tasks tasks)) plain
    s ← accept_loop clock (to_ℕ at_ms) tasks (accepting j)
    ok (s.journal, s.acceptance))
