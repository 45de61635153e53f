-- ===== src/TaskWorker.antt =====
-- internal/agent/tasks.go: the worker that claims journalled tasks, calls their handlers, and reports
-- what became of them.
-- What a round of its loop takes from outside is an argument: whether the context is cancelled, the
-- wall clock, the entropy of a claim, the readings of the authorization clock, and what the handler's
-- call comes to. The journal is TaskJournal's.
pub mod Texts
pub mod Errors
pub mod Finishing
pub mod Starting
use passwall_node.Prelude.{
  ℕ, suc, Bool, true, false, not, ◌||◌, ◌&&◌, Option, none, some, List, [], ◌∷◌, ◌++◌, String, ltb,
  leb, if◌then◌else◌, is_empty, codes, byte_length, ℤ, Error, not_found, Result, ok, err,
}
use passwall_node.TaskClock.{TaskTimeBounds, validate}
use passwall_node.TaskJournal.Rows.{
  TaskState, succeeded, failed, indeterminate, terminal, Task, TaskResult, TaskExecution, Journal,
  Wire, StartClock,
}
use passwall_node.TaskJournal.Claiming.{claim_next_task_fenced}
use passwall_node.TaskJournal.Completing.{release_task_claim, complete_task}
use passwall_node.TaskWorker.Texts.{Piece}
use passwall_node.TaskWorker.Errors.{bounded_error}

-- The stable codes of the worker's own errors
abbrev pub unsupported_task_kind : String
unsupported_task_kind = "unsupported_task_kind"

abbrev pub task_execution_failed : String
task_execution_failed = "task_execution_failed"

abbrev pub task_execution_indeterminate : String
task_execution_indeterminate = "task_execution_indeterminate"

abbrev pub task_recovery_unsupported : String
task_recovery_unsupported = "task_recovery_unsupported"

abbrev pub task_result_invalid : String
task_result_invalid = "task_result_invalid"

-- `TaskError`
pub record TaskError : Type 0 where
  pub code : String
  pub is_indeterminate : Bool

-- What a call of a handler or a recoverer comes to: a payload, an error with its text, which may be
-- any bytes and may wrap a `TaskError`, or an interruption by the context (`executionInterrupted`).
pub data CallResult : Type 0 where
  returned : String → CallResult
  failing : Option TaskError → List Piece → CallResult
  interrupted : CallResult

-- What a panic of the handler becomes
unfoldable pub panicked : List Piece → CallResult
panicked cause =
    failing (some (record { code = task_execution_indeterminate; is_indeterminate = true })) cause

-- What the worker uses of other packages: the wire's validations, `MaxTaskErrorCodeBytes`,
-- `MaxTaskErrorBytes`, and `ComputeTaskInputSHA256` of the probe; and its registry's kinds.
pub record WorkerOptions : Type 0 where
  pub wire : Wire
  pub max_task_error_code_bytes : ℕ
  pub max_task_error_bytes : ℕ
  pub probe_sha256 : String
  pub is_registered : String → Bool
  pub has_recovery : String → Bool

-- The journal, the tasks that `Execute` was called with, and how often a result was notified.
pub record Worker : Type 0 where
  pub journal : Journal
  pub executed : List Task
  pub notified : ℕ

-- `wireTask`
unfoldable pub wire_task : TaskExecution → Task
wire_task t = record {
  id = t.id;
  kind = t.kind;
  input_sha256 = t.input_sha256;
  args = t.args;
  not_after_ms = t.not_after_ms;
}

-- `taskStartBounds`, at one call of the clock
unfoldable pub task_start_bounds : Option StartClock → ℕ → Option TaskTimeBounds
task_start_bounds none i = none
task_start_bounds (some clock) i = elim (clock i) [
  | none ↦ none
  | some bounds ↦ if validate bounds then some bounds else none
]

module _ (options : WorkerOptions) where
  -- `validWorkerErrorCode`
  unfoldable pub valid_worker_error_code : String → Bool
  valid_worker_error_code code =
      if is_empty code || ltb options.max_task_error_code_bytes (byte_length (codes code))
      then false
      else options.wire.validate_task_results (
          record {
            id = "validation";
            kind = "validation.v1";
            input_sha256 = options.probe_sha256;
            not_after_ms = 0;
            succeeds = false;
            is_indeterminate = false;
            result = "";
            error_code = code;
            error = "validation";
          }
          ∷ [])

  -- `complete`
  unfoldable pub complete :
      ℤ → TaskExecution → TaskState → TaskResult → Worker → Worker × Result (Unit {0})
  complete now_ms t state r w =
      let (journal, done) = complete_task options.wire t.id state r now_ms w.journal in
      elim done [
        | err e ↦ (record w { journal = journal }, err e)
        | ok u ↦ (record w { journal = journal; notified = suc w.notified }, ok tt)
      ]

  -- The state and the result that `finishError` completes a task with
  unfoldable pub error_state : Bool → TaskState
  error_state is_indeterminate = if is_indeterminate then indeterminate else failed

  unfoldable pub error_result : TaskExecution → String → Bool → Option (List Piece) → TaskResult
  error_result t code is_indeterminate cause = record {
    id = t.id;
    kind = t.kind;
    input_sha256 = t.input_sha256;
    not_after_ms = t.not_after_ms;
    succeeds = false;
    is_indeterminate = is_indeterminate;
    result = "";
    error_code = if valid_worker_error_code code then code else task_execution_failed;
    error = bounded_error options.max_task_error_bytes cause;
  }

  -- `finishError`
  unfoldable pub finish_error :
      ℤ → TaskExecution → String → Bool → Option (List Piece) → Worker → Worker × Result (Unit {0})
  finish_error now_ms t code is_indeterminate cause w =
      complete now_ms t (error_state is_indeterminate) (error_result t code is_indeterminate cause)
        w

  -- The result of a call that returned
  unfoldable pub success_result : TaskExecution → String → TaskResult
  success_result t payload = record {
    id = t.id;
    kind = t.kind;
    input_sha256 = t.input_sha256;
    not_after_ms = t.not_after_ms;
    succeeds = true;
    is_indeterminate = false;
    result = payload;
    error_code = "";
    error = "";
  }

  -- The code and the flag that `finishInvocation` reads of an error
  unfoldable pub error_code : Option TaskError → String
  error_code none = task_execution_failed
  error_code (some e) = if is_empty e.code then task_execution_failed else e.code

  unfoldable pub error_indeterminate : Option TaskError → Bool → Bool
  error_indeterminate none recovering = recovering
  error_indeterminate (some e) recovering = e.is_indeterminate

  -- `finishInvocation`; `invalid` is the text of a failed validation. An interrupted call never
  -- reaches it.
  unfoldable pub finish_invocation :
      ℤ → TaskExecution → CallResult → Bool → List Piece → Worker → Worker × Result (Unit {0})
  finish_invocation now_ms t (returned payload) recovering invalid w =
      if options.wire.validate_task_results (success_result t payload ∷ [])
      then complete now_ms t succeeded (success_result t payload) w
      else finish_error now_ms t task_result_invalid false (some invalid) w
  finish_invocation now_ms t (failing e cause) recovering invalid w =
      finish_error now_ms t (error_code e) (error_indeterminate e recovering) (some cause) w
  finish_invocation now_ms t interrupted recovering invalid w = (w, ok tt)

  -- What one round of `drain` takes from outside; `own_cause` is the text of an error that the worker
  -- makes itself.
  pub record Round : Type 0 where
    pub cancelled : Bool
    pub now_ms : ℤ
    pub token : Option String
    pub clock : Option StartClock
    pub start_reads : ℕ
    pub call : Task → CallResult
    pub finish_ms : ℤ
    pub cancelled_claim : Bool
    pub own_cause : List Piece

  -- How a round ends: the loop goes on, or `drain` returns.
  pub data Drained : Type 0 where
    again : Drained
    drained : Bool → Drained
    broken : Error → Drained

  -- The end of a round that finished a task
  unfoldable pub finished : Worker × Result (Unit {0}) → Worker × Drained
  finished (w, ok u) = (w, again)
  finished (w, err e) = (w, broken e)

  -- `taskStartBounds` fails, or its interval reaches the deadline.
  unfoldable pub must_wait : Option TaskTimeBounds → ℕ → Bool
  must_wait none not_after_ms = true
  must_wait (some b) not_after_ms = leb not_after_ms b.upper_ms

  -- The call of the handler, and what follows it
  unfoldable pub execute : Round → TaskExecution → Worker → Worker × Drained
  execute r t w =
      let started = record w { executed = w.executed ++ wire_task t ∷ [] } in
      elim (r.call (wire_task t)) [
        | interrupted ↦ (started, drained true)
        | returned payload ↦
            finished (finish_invocation r.finish_ms t (returned payload) false r.own_cause started)
        | failing e cause ↦
            finished (finish_invocation r.finish_ms t (failing e cause) false r.own_cause started)
      ]

  -- A claim that is given back, since the task's deadline is not provably ahead
  unfoldable pub defer : TaskExecution → Worker → Worker × Drained
  defer t w =
      let (journal, done) = release_task_claim t w.journal in
      elim done [
        | err e ↦ (record w { journal = journal }, broken e)
        | ok u ↦ (record w { journal = journal }, drained false)
      ]

  -- A round of `drain` from a successful claim on
  unfoldable pub claimed : Round → TaskExecution → Worker → Worker × Drained
  claimed r t w =
      if terminal t.state
      then (record w { notified = suc w.notified }, again)
      else if not (options.is_registered t.kind)
      then finished (finish_error r.finish_ms t unsupported_task_kind false (some r.own_cause) w)
      else if ltb 0 t.not_after_ms
          && must_wait (task_start_bounds r.clock r.start_reads) t.not_after_ms
      then defer t w
      else execute r t w

  -- How a round ends whose claim fails
  unfoldable pub unclaimed : Round → Bool → Error → Drained
  unclaimed r worked not_found = drained worked
  unclaimed r worked e = if r.cancelled_claim then drained worked else broken e

  -- A round of `drain`; `worked` says whether an earlier round claimed a task.
  unfoldable pub drain_round : Round → Bool → Worker → Worker × Drained
  drain_round r worked w =
      if r.cancelled
      then (w, drained worked)
      else (let (journal, claim) =
            claim_next_task_fenced options.wire r.clock r.token r.now_ms w.journal in
          let w' = record w { journal = journal } in
          elim claim [ ok t ↦ claimed r t w' | err e ↦ (w', unclaimed r worked e) ])

  -- `drain`, over the rounds that it gets to; where these end, it is still running.
  unfoldable pub drain : List Round → Bool → Worker → Worker × Drained
  drain [] worked w = (w, again)
  drain (r ∷ rs) worked w =
      let (w', end) = drain_round r worked w in
      elim end [
        | again ↦ drain rs true w'
        | drained b ↦ (w', drained b)
        | broken e ↦ (w', broken e)
      ]

  -- The end of a round of `recoverRunning`: whether it goes on
  unfoldable pub recovered : Worker × Result (Unit {0}) → Worker × Result Bool
  recovered (w, ok u) = (w, ok true)
  recovered (w, err e) = (w, err e)

  -- What one round of `recoverRunning` takes from outside.
  pub record Recovery : Type 0 where
    pub call : CallResult
    pub now_ms : ℤ
    pub own_cause : List Piece

  -- One round of `recoverRunning`
  unfoldable pub recover_task : Recovery → TaskExecution → Worker → Worker × Result Bool
  recover_task r t w =
      if not (options.is_registered t.kind)
      then recovered (finish_error r.now_ms t task_recovery_unsupported true (some r.own_cause) w)
      else if not (options.has_recovery t.kind)
      then recovered
          (finish_error r.now_ms t task_execution_indeterminate true (some r.own_cause) w)
      else elim (r.call) [
        | interrupted ↦ (w, ok false)
        | returned payload ↦
            recovered (finish_invocation r.now_ms t (returned payload) true r.own_cause w)
        | failing e cause ↦
            recovered (finish_invocation r.now_ms t (failing e cause) true r.own_cause w)
      ]

  -- `recoverRunning` over the tasks that the store reads as running
  unfoldable pub recover_running :
      (TaskExecution → Recovery) → List TaskExecution → Worker → Worker × Result (Unit {0})
  recover_running outside [] w = (w, ok tt)
  recover_running outside (t ∷ ts) w =
      let (w', end) = recover_task (outside t) t w in
      elim end [
        | ok true ↦ recover_running outside ts w'
        | ok false ↦ (w', ok tt)
        | err e ↦ (w', err e)
      ]
