-- ===== src/TaskWorker/Starting.antt =====
-- tasks.go: when a handler is called.
use passwall_node.Prelude.{
  ℕ, ◌≤◌, ◌<◌, ◌≡◌, refl, ap, ◌∙◌, subst, Bool, true, false, ◌&&◌, Option, none, some, [], ◌∷◌,
  ◌++◌, List, ltb, leb, ℤ, Result, ok, err, arith, Bool-cases, Result-cases, inl, inr, ◌⊎◌,
}
use passwall_node.TaskClock.{TaskTimeBounds}
use passwall_node.TaskJournal.Rows.{
  TaskState, running, failed, terminal, TaskResult, TaskExecution, Journal,
}
use passwall_node.TaskJournal.Claiming.{claim_next_task_fenced}
use passwall_node.TaskJournal.Completing.{release_task_claim, complete_task}
use passwall_node.TaskJournal.Claiming.Authorization.{claim_next-Authorized}
use passwall_node.TaskWorker.Texts.{Piece}
use passwall_node.TaskWorker.{
  CallResult, returned, failing, interrupted, WorkerOptions, Worker, wire_task, task_start_bounds,
  complete, finish_error, success_result, finish_invocation, Round, finished, must_wait, execute,
  defer, claimed, drain_round,
}

pair_eq : (x : Journal × Result TaskExecution) {t : TaskExecution} → x.1 ≡ ok t → x ≡ (x.0, ok t)
pair_eq (j, c) e = ap (λ k. (j, k)) e

-- A claimed task that is not terminal is running.
is_running :
    (t : TaskExecution)
    → terminal t.state ≡ false
    → (t.state ≡ running) ⊎ (t.state ≡ failed)
    → t.state ≡ running
is_running t live (inl a) = a
is_running t live (inr b) = absurd (cc (subst (λ s. terminal s ≡ false) b live))

module _ (options : WorkerOptions) where
  -- Finishing a task calls no handler.
  executed-complete :
      (now_ms : ℤ) (t : TaskExecution) (state : TaskState) (r : TaskResult) (w : Worker)
      → (complete options now_ms t state r w).0.executed ≡ w.executed
  unfolding complete
  executed-complete now_ms t state r w =
      elim (Result-cases (complete_task options.wire t.id state r now_ms w.journal).1) [
        | inl (u, e) ↦ rw (complete, e) refl
        | inr (x, e) ↦ rw (complete, e) refl
      ]

  executed-finish_invocation :
      (now_ms : ℤ) (t : TaskExecution) (c : CallResult) (recovering : Bool) (own : List Piece)
      (w : Worker)
      → (finish_invocation options now_ms t c recovering own w).0.executed ≡ w.executed
  unfolding finish_invocation finish_error
  executed-finish_invocation now_ms t (returned payload) recovering own w =
      elim (Bool-cases
        (options.wire.validate_task_results (success_result options t payload ∷ []))) [
          | inl e ↦ rw e (executed-complete now_ms t _ _ w)
          | inr e ↦ rw e (executed-complete now_ms t _ _ w)
        ]
  executed-finish_invocation now_ms t (failing e cause) recovering own w =
      executed-complete now_ms t _ _ w
  executed-finish_invocation now_ms t interrupted recovering own w = refl

  finished_worker : (x : Worker × Result (Unit {0})) → (finished options x).0 ≡ x.0
  unfolding finished
  finished_worker (w, ok u) = refl
  finished_worker (w, err e) = refl

  executed-execute :
      (r : Round options) (t : TaskExecution) (w : Worker)
      → (execute options r t w).0.executed ≡ w.executed ++ wire_task t ∷ []
  unfolding execute
  executed-execute r t w = after_call (r.call (wire_task t)) refl
    where
      after_call :
          (c : CallResult)
          → r.call (wire_task t) ≡ c
          → (execute options r t w).0.executed ≡ w.executed ++ wire_task t ∷ []
      after_call (returned payload) e =
          rw (execute, e)
            (ap (λ (x : Worker). x.executed) (finished_worker _)
              ∙ executed-finish_invocation r.finish_ms t (returned payload) false r.own_cause _)
      after_call (failing k cause) e =
          rw (execute, e)
            (ap (λ (x : Worker). x.executed) (finished_worker _)
              ∙ executed-finish_invocation r.finish_ms t (failing k cause) false r.own_cause _)
      after_call interrupted e = rw (execute, e) refl

  executed-defer : (t : TaskExecution) (w : Worker) → (defer options t w).0.executed ≡ w.executed
  unfolding defer
  executed-defer t w = elim (Result-cases (release_task_claim t w.journal).1) [
    | inl (u, e) ↦ rw (defer, e) refl
    | inr (x, e) ↦ rw (defer, e) refl
  ]

  -- What a round has tested when it calls a handler
  abbrev Tested : Round options → TaskExecution → Type 0
  Tested r t =
      (terminal t.state ≡ false)
      × (options.is_registered t.kind ≡ true)
      × ((ltb 0 t.not_after_ms
            && must_wait options (task_start_bounds r.clock r.start_reads) t.not_after_ms)
          ≡ false)

  executed-claimed :
      (r : Round options) (t : TaskExecution) (w : Worker)
      → ((claimed options r t w).0.executed ≡ w.executed)
        ⊎ (((claimed options r t w).0.executed ≡ w.executed ++ wire_task t ∷ []) × Tested r t)
  unfolding claimed finish_error
  executed-claimed r t w = elim (Bool-cases (terminal t.state)) [
    | inl e ↦ inl (rw e refl)
    | inr e ↦ elim (Bool-cases (options.is_registered t.kind)) [
      | inr e2 ↦ inl (
          rw (e, e2)
            (ap (λ (x : Worker). x.executed) (finished_worker _)
              ∙ executed-complete r.finish_ms t _ _ w))
      | inl e2 ↦
          elim (Bool-cases (
            ltb 0 t.not_after_ms
            && must_wait options (task_start_bounds r.clock r.start_reads) t.not_after_ms)) [
              | inl e3 ↦ inl (rw (e, e2, e3) (executed-defer t w))
              | inr e3 ↦ inr (rw (e, e2, e3) (executed-execute r t w), (e, e2, e3))
            ]
    ]
  ]

  -- A tested deadline lies behind the interval that the clock gave.
  before_deadline :
      (bounds : Option TaskTimeBounds) (not_after_ms time : ℕ)
      → (ltb 0 not_after_ms && must_wait options bounds not_after_ms) ≡ false
      → ((b : TaskTimeBounds) → bounds ≡ some b → time ≤ b.upper_ms)
      → (not_after_ms ≡ 0) ⊎ (time < not_after_ms)
  unfolding must_wait
  before_deadline none n time h honest = inl (ground (arith, h))
  before_deadline (some b) n time h honest = elim (Bool-cases (ltb 0 n)) [
    | inr e ↦ inl (ground (arith, e))
    | inl e ↦ inr (omega (arith, honest b refl, upper_lt n b.upper_ms (rw e at h)))
  ]
    where
      upper_lt : (m u : ℕ) → leb m u ≡ false → u < m
      upper_lt m u k = ground (arith, k)

  -- One round of `drain` calls no handler, or it calls the handler of one task, which it has just
  -- claimed and which is running, of a registered kind. If the interval that the clock gives right
  -- before the call does not end before the control plane's time, then the task has no deadline, or
  -- that time is before its deadline.
  pub drain_round-executed :
      (r : Round options) (worked : Bool) (w : Worker) (time : ℕ)
      → ((b : TaskTimeBounds)
          → task_start_bounds r.clock r.start_reads ≡ some b
          → time ≤ b.upper_ms)
      → ((drain_round options r worked w).0.executed ≡ w.executed)
        ⊎ ((t : TaskExecution) × ((claim_next_task_fenced options.wire r.clock r.token r.now_ms
                w.journal).1
              ≡ ok t)
            × ((drain_round options r worked w).0.executed ≡ w.executed ++ wire_task t ∷ [])
            × (t.state ≡ running)
            × (options.is_registered t.kind ≡ true)
            × ((t.not_after_ms ≡ 0) ⊎ (time < t.not_after_ms)))
  unfolding drain_round
  drain_round-executed r worked w time honest = elim (Bool-cases (r.cancelled)) [
    | inl e ↦ inl (rw e refl)
    | inr e ↦
        elim (Result-cases
          (claim_next_task_fenced options.wire r.clock r.token r.now_ms w.journal).1) [
            | inr (x, e2) ↦ inl (rw (drain_round, e, e2) refl)
            | inl (t, e2) ↦
                (let w' : Worker = record w {
                  journal =
                      (claim_next_task_fenced options.wire r.clock r.token r.now_ms w.journal).0;
                } in
                  let auth =
                    claim_next-Authorized options.wire r.clock r.token r.now_ms w.journal
                      (claim_next_task_fenced options.wire r.clock r.token r.now_ms w.journal).0 t
                      (pair_eq
                        (claim_next_task_fenced options.wire r.clock r.token r.now_ms w.journal)
                        e2) in
                  elim (executed-claimed r t w') [
                    | inl same ↦ inl (rw (drain_round, e, e2) same)
                    | inr (more, (live, known, test)) ↦ inr (
                      t,
                      e2,
                      rw (drain_round, e, e2) more,
                      is_running t live (elim auth [ inl a ↦ inl a.0 | inr b ↦ inr b.0 ]),
                      known,
                      before_deadline (task_start_bounds r.clock r.start_reads) t.not_after_ms time
                          test honest,
                    )
                  ])
          ]
  ]
