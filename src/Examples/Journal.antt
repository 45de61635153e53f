-- ===== src/Examples/Journal.antt =====
-- internal/state/sqlite/tasks.go on concrete input: a journal with a finished task, a task that has a
-- deadline and a task that has none.
use passwall_node.Prelude.{
  ℕ, ◌≡◌, ◌≢◌, ◌⊎◌, refl, subst, text_leb, codes_leb, true, false, some, [], ◌∷◌, inl, inr, pos, ok,
  err, not_found, String,
}
use passwall_node.TaskClock.{validate}
use passwall_node.TaskJournal.Rows.{
  received, running, succeeded, failed, TaskExecution, Journal, Wire, StartClock, row_check,
  timestamps_check, outcome_check, update_rows, select_rows, insert_row, row_before,
  expired_before_start,
}
use passwall_node.TaskJournal.Results.{task_bounds, is_row}
use passwall_node.TaskJournal.Claiming.{
  claim_next_task_fenced, claim_loop, candidates, with_legacy, has_legacy, is_candidate, is_legacy,
  start, started,
}
use passwall_node.TaskJournal.Claiming.Authorization.{Authorized, Lapsed, claim_next-Authorized}
use passwall_node.TaskJournal.Claiming.Fairness.{claim_next_no_starvation}
use passwall_node.TaskJournal.Progress.{Evolves, Same}
use passwall_node.TaskJournal.History.{
  Handled, claims, here, after, row, handler-Evolves, terminal_forever,
}

-- A wire package that accepts every result.
abbrev pub wire : Wire
wire = record {
  validate_tasks = λ tasks. true;
  validate_task_results = λ results. true;
  marshal = λ r. some r.id;
}

abbrev pub clock : StartClock
clock reads = some (record { lower_ms = 1000; upper_ms = 1005 })

abbrev pub journalled : String → ℕ → ℕ → TaskExecution
journalled id not_after_ms received_at_ms = record {
  id = id;
  kind = "probe";
  args = "";
  input_sha256 = "";
  not_after_ms = not_after_ms;
  claim_token = "";
  state = received;
  result = "";
  error_code = "";
  error = "";
  received_at_ms = received_at_ms;
  started_at_ms = 0;
  finished_at_ms = 0;
  result_delivered = false;
}

abbrev pub done : TaskExecution
done = record (journalled "a" 0 700) {
  state = succeeded;
  claim_token = "k0";
  result = "{}";
  started_at_ms = 710;
  finished_at_ms = 720;
}

abbrev pub claimed : TaskExecution
claimed = record (journalled "b" 2000 800) {
  state = running;
  started_at_ms = 900;
  claim_token = "k1";
}

abbrev pub journal : Journal
journal = record {
  tasks = done ∷ journalled "b" 2000 800 ∷ journalled "c" 0 810 ∷ [];
  results = [];
}

abbrev pub later : Journal
later = record { tasks = done ∷ claimed ∷ journalled "c" 0 810 ∷ []; results = [] }

claim_journal :
    claim_next_task_fenced wire (some clock) (some "k1") (pos 900) journal ≡ (later, ok claimed)
unfolding claim_next_task_fenced claim_loop candidates with_legacy has_legacy is_candidate is_legacy
    start started task_bounds validate update_rows row_check timestamps_check outcome_check is_row
    select_rows insert_row row_before text_leb codes_leb
claim_journal = refl

-- The task "b" has the deadline 2000, and the clock gave 1000..1005.
claim_next-Authorized_example :
    ((claimed.state ≡ running) × Authorized (some clock) claimed)
    ⊎ ((claimed.state ≡ failed)
        × (claimed.error_code ≡ expired_before_start)
        × Lapsed (some clock) claimed)
claim_next-Authorized_example =
    claim_next-Authorized wire (some clock) (some "k1") (pos 900) journal later claimed
      claim_journal

claim_next_no_starvation_example :
    (claim_next_task_fenced wire (some clock) (some "k1") (pos 900) journal).1 ≢ err not_found
unfolding is_legacy
claim_next_no_starvation_example =
    claim_next_no_starvation wire (some clock) (some "k1") (pos 900) journal (inr (inr (inl refl)))

step : Handled wire journal later
step =
    subst (λ x. Handled wire journal x.0) claim_journal (claims (some clock) (some "k1") (pos 900))

handler-Evolves_example : Evolves journal.tasks later.tasks
handler-Evolves_example = handler-Evolves wire journal later step

terminal_forever_example : (u : TaskExecution) × (row 0 later.tasks ≡ some u) × Same done u
terminal_forever_example = terminal_forever wire 0 journal later done (after here step) refl refl
