-- ===== src/TaskWorker/Finishing.antt =====
-- tasks.go: what the call of a handler is completed with.
use passwall_node.Prelude.{
  ◌≤◌, ◌≡◌, ◌≢◌, refl, Bool, true, false, Option, some, List, [], ◌∷◌, String, is_empty, codes,
  byte_length, ℤ, Bool-cases, inl, inr, ◌⊎◌,
}
use passwall_node.TaskJournal.Rows.{TaskState, succeeded, TaskResult, TaskExecution}
use passwall_node.TaskJournal.Results.{result_matches_state}
use passwall_node.TaskWorker.{
  CallResult, returned, failing, interrupted, WorkerOptions, Worker, valid_worker_error_code,
  complete, finish_error, error_state, error_result, success_result, error_code,
  error_indeterminate, finish_invocation, task_execution_failed, task_result_invalid,
}
use passwall_node.TaskWorker.Texts.{Piece}
use passwall_node.TaskWorker.Errors.{bounded_error-fits}

module _ (options : WorkerOptions) where
  -- The result that a task is completed with: it fits the new state, it is of the task, and it is a
  -- payload that the wire accepts, or an error whose code the wire accepts (or the general one), with
  -- a text that is not empty and fits.
  pub record Completes (t : TaskExecution) (state : TaskState) (r : TaskResult) : Type 0 where
    pub matches : result_matches_state state r ≡ true
    pub identity :
        (r.id ≡ t.id)
        × (r.kind ≡ t.kind)
        × (r.input_sha256 ≡ t.input_sha256)
        × (r.not_after_ms ≡ t.not_after_ms)
    pub content :
        ((r.succeeds ≡ true) × (options.wire.validate_task_results (r ∷ []) ≡ true))
        ⊎ ((r.succeeds ≡ false)
            × ((valid_worker_error_code options r.error_code ≡ true)
                ⊎ (r.error_code ≡ task_execution_failed))
            × (is_empty r.error ≡ false)
            × (byte_length (codes r.error) ≤ options.max_task_error_bytes))

  error_result-Completes :
      (t : TaskExecution) (code : String) (unknowable : Bool) (cause : Option (List Piece))
      → 21 ≤ options.max_task_error_bytes
      → Completes t (error_state options unknowable) (error_result options t code unknowable cause)
  unfolding error_state error_result result_matches_state
  error_result-Completes t code unknowable cause room =
      let text = bounded_error-fits options.max_task_error_bytes cause room in
      record {
        matches = fits unknowable;
        identity = (refl, refl, refl, refl);
        content = inr (refl, accepted (valid_worker_error_code options code) refl, text.0, text.1);
      }
    where
      fits :
          (b : Bool)
          → result_matches_state (error_state options b) (error_result options t code b cause)
            ≡ true
      fits true = refl
      fits false = refl

      accepted :
          (b : Bool)
          → valid_worker_error_code options code ≡ b
          → (valid_worker_error_code options
                (error_result options t code unknowable cause).error_code
              ≡ true)
            ⊎ ((error_result options t code unknowable cause).error_code ≡ task_execution_failed)
      accepted true e = inl (rw (error_result, e) e)
      accepted false e = inr (rw (error_result, e) refl)

  success_result-Completes :
      (t : TaskExecution) (payload : String)
      → options.wire.validate_task_results (success_result options t payload ∷ []) ≡ true
      → Completes t succeeded (success_result options t payload)
  unfolding success_result result_matches_state
  success_result-Completes t payload e = record {
    matches = refl;
    identity = (refl, refl, refl, refl);
    content = inl (refl, e);
  }

  -- Whatever a call comes to that is not interrupted, `finishInvocation` is one completion of the task,
  -- with a result that `Completes` it, if the wire's bound on an error text has room for 21 bytes.
  pub finish_invocation-Completes :
      (now_ms : ℤ) (t : TaskExecution) (c : CallResult) (recovering : Bool) (own : List Piece)
      (w : Worker)
      → 21 ≤ options.max_task_error_bytes
      → c ≢ interrupted
      → (state : TaskState) × (r : TaskResult) × (finish_invocation options now_ms t c recovering
            own w
          ≡ complete options now_ms t state r w)
        × Completes t state r
  unfolding finish_invocation finish_error
  finish_invocation-Completes now_ms t (returned payload) recovering own w room live =
      elim (Bool-cases
        (options.wire.validate_task_results (success_result options t payload ∷ []))) [
          | inl e ↦ (
            succeeded,
            success_result options t payload,
            rw e refl,
            success_result-Completes t payload e,
          )
          | inr e ↦ (
            error_state options false,
            error_result options t task_result_invalid false (some own),
            rw e refl,
            error_result-Completes t task_result_invalid false (some own) room,
          )
        ]
  finish_invocation-Completes now_ms t (failing e cause) recovering own w room live = (
    error_state options (error_indeterminate options e recovering),
    error_result options t (error_code options e) (error_indeterminate options e recovering)
        (some cause),
    refl,
    error_result-Completes t (error_code options e) (error_indeterminate options e recovering)
        (some cause) room,
  )
  finish_invocation-Completes now_ms t interrupted recovering own w room live = absurd (live refl)
