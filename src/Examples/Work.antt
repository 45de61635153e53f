-- ===== src/Examples/Work.antt =====
-- internal/agent/tasks.go on concrete input: the worker claims the task "b" of the journal, whose
-- deadline is 2000, while the control plane's time is 1004.
use passwall_node.Prelude.{
  ◌≤◌, ◌<◌, ◌≡◌, ◌⊎◌, refl, Bool, true, false, none, some, List, [], ◌∷◌, is_empty, is_space, codes,
  byte_length, text_leb, codes_leb, pos, ok, arith,
}
use passwall_node.TaskClock.{validate}
use passwall_node.TaskJournal.Rows.{
  TaskState, running, TaskResult, TaskExecution, row_check, timestamps_check, outcome_check,
  update_rows, select_rows, insert_row, row_before, task_by_id, result_of,
}
use passwall_node.TaskJournal.Results.{
  task_bounds, is_row, result_matches_state, encode, put_immutable_task_result,
}
use passwall_node.TaskJournal.Claiming.{
  claim_next_task_fenced, claim_loop, candidates, with_legacy, has_legacy, is_candidate, is_legacy,
  start, started,
}
use passwall_node.TaskJournal.Completing.{complete_task, complete_row, completed}
use passwall_node.TaskWorker.{
  returned, failing, WorkerOptions, Worker, wire_task, task_start_bounds, complete,
  finish_invocation, success_result, Round, finished, must_wait, execute, drain_round,
}
use passwall_node.TaskWorker
use passwall_node.TaskWorker.Errors.{
  bounded_error, bounded_message, message_or_failed, shortened, or_failed, trim, trim_front,
  trim_back, cut_to, drop_last, bounded_error-fits,
}
use passwall_node.TaskWorker.Texts.{
  Piece, rune, stray, whole, valid_text, repair, to_valid_utf8, trim_pieces_front, trim_pieces_back,
  trim_pieces,
}
use passwall_node.TaskWorker.Finishing.{Completes, finish_invocation-Completes}
use passwall_node.TaskWorker.Starting.{drain_round-executed}
use passwall_node.Examples.Journal.{wire, clock, journal, claimed}

abbrev options : WorkerOptions
options = record {
  wire = wire;
  max_task_error_code_bytes = 64;
  max_task_error_bytes = 64;
  probe_sha256 = "";
  is_registered = λ kind. true;
  has_recovery = λ kind. false;
}

abbrev worker : Worker
worker = record { journal = journal; executed = []; notified = 0 }

abbrev round : Round options
round = record {
  cancelled = false;
  now_ms = pos 900;
  token = some "k1";
  clock = some clock;
  start_reads = 3;
  call = λ task. returned "{}";
  finish_ms = pos 950;
  cancelled_claim = false;
  own_cause = [];
}

executed_run : (drain_round options round false worker).0.executed ≡ wire_task claimed ∷ []
unfolding drain_round TaskWorker.claimed execute finished finish_invocation complete success_result
    wire_task task_start_bounds must_wait claim_next_task_fenced claim_loop candidates with_legacy
    has_legacy is_candidate is_legacy start started task_bounds validate update_rows row_check
    timestamps_check outcome_check is_row select_rows insert_row row_before text_leb codes_leb
    complete_task complete_row completed result_matches_state encode put_immutable_task_result
    task_by_id result_of
executed_run = refl

drain_round-executed_example :
    ((drain_round options round false worker).0.executed ≡ [])
    ⊎ ((t : TaskExecution) × ((claim_next_task_fenced wire
            (some clock)
            (some "k1")
            (pos 900)
            journal).1
          ≡ ok t)
        × ((drain_round options round false worker).0.executed ≡ wire_task t ∷ [])
        × (t.state ≡ running)
        × ◌≡◌ {A = Bool} true true
        × ((t.not_after_ms ≡ 0) ⊎ (1004 < t.not_after_ms)))
unfolding task_start_bounds validate
drain_round-executed_example =
    drain_round-executed options round false worker 1004 (λ b e. ground (arith, e))

-- The bytes FF and FE behind a space, in front of a text of 26 bytes
abbrev cause : List Piece
cause = rune " " ∷ stray 255 ∷ stray 254 ∷ whole "no route to host in network"

repaired : bounded_error 32 (some cause) ≡ "�no route to host in network"
unfolding bounded_error bounded_message message_or_failed trim_pieces valid_text to_valid_utf8
    shortened or_failed trim cut_to drop_last byte_length whole is_space trim_front trim_back
    trim_pieces_front trim_pieces_back repair
repaired = refl

repaired_and_cut : bounded_error 21 (some cause) ≡ "�no route to host i"
unfolding bounded_error bounded_message message_or_failed trim_pieces valid_text to_valid_utf8
    shortened or_failed trim cut_to drop_last byte_length whole is_space trim_front trim_back
    trim_pieces_front trim_pieces_back repair
repaired_and_cut = refl

finish_invocation-Completes_example :
    (state : TaskState) × (r : TaskResult) × (finish_invocation options
        (pos 950)
        claimed
        (failing none cause)
        false
        []
        worker
      ≡ complete options (pos 950) claimed state r worker)
    × Completes options claimed state r
finish_invocation-Completes_example =
    finish_invocation-Completes options (pos 950) claimed (failing none cause) false [] worker
      (omega arith) (λ e. cc e)

bounded_error-fits_example :
    (is_empty (bounded_error 21 (some cause)) ≡ false)
    × (byte_length (codes (bounded_error 21 (some cause))) ≤ 21)
bounded_error-fits_example = bounded_error-fits 21 (some cause) (omega arith)
