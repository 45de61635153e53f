-- ===== src/TaskJournal/Steps.antt =====
-- tasks.go handler by handler: each makes an allowed step on every row.
use passwall_node.Prelude.{
  ℕ, ◌+◌, ◌≡◌, refl, ◌⊎◌, inl, inr, Bool, true, false, Option, none, some, Option-cases,
  Result-cases, >>=-eq-ok, transact-cases, List, [], ◌∷◌, String, str_eq, arith, ℤ, is_nonpositive,
  to_ℕ, Error, plain, ok, err, ◌>>◌, refuse,
}
use passwall_node.TaskJournal.Rows.{
  TaskState, received, running, terminal, Task, TaskResult, TaskExecution, Journal, Wire,
  StartClock, update_rows, task_by_id,
}
use passwall_node.TaskJournal.Progress.{
  allowed, SameIdentity, Progress, Same, EvolvesBy, Evolves, Same-refl, Progress-refl,
  step-Progress, same_state→eq, EvolvesBy-refl, insert_task-EvolvesBy, update_rows-EvolvesBy,
  Same-Evolves, EvolvesBy-trans,
}
use passwall_node.TaskJournal.Results.{received_row, is_row, rearm_task_result}
use passwall_node.TaskJournal.Accepting.{
  Accepting, accepting, fence, insert, accept_new, accept_known, accept_task, accept_loop,
  accept_tasks_fenced,
}
use passwall_node.TaskJournal.Claiming.{
  started, expired, start, expire, claim_loop, candidates, claim_next_task_fenced,
}
use passwall_node.TaskJournal.Claiming.Authorization.{start_lem, expire_lem, claim_next-Claimed}
use passwall_node.TaskJournal.Completing.{
  is_claim, release_row, release_task_claim, completed, complete_row, complete_task,
}

is_row-state :
    (id : String) (s : TaskState) (x : TaskExecution) → is_row id s x ≡ true → x.state ≡ s
unfolding is_row
is_row-state id s x h = ground (arith, same_state→eq x.state s)

-- A step on a row in a state that is not terminal, which the test `p` guards.
guarded-Progress :
    (p : TaskExecution → Bool) (f : TaskExecution → TaskExecution) (s : TaskState)
    → ((x : TaskExecution) → p x ≡ true → x.state ≡ s)
    → terminal s ≡ false
    → ((x : TaskExecution)
        → x.state ≡ s
        → SameIdentity x (f x) × (allowed x.state (f x).state ≡ true))
    → (x : TaskExecution) → p x ≡ true
    → Progress x (f x)
guarded-Progress p f s guard live step x t =
    let at_s : x.state ≡ s = guard x t in
    let moved = step x at_s in step-Progress (moved.0) (rw at_s live) (moved.1)

start-Evolves :
    (token : Option String) (t : TaskExecution) (at_ms : ℕ) (j j' : Journal) (u : TaskExecution)
    → start token t at_ms j ≡ ok (j', u)
    → Evolves j.tasks j'.tasks
unfolding started
start-Evolves token t at_ms j j' u h =
    let (k, _, e, _) = start_lem token t at_ms j j' u h in
    update_rows-EvolvesBy Progress Progress-refl (is_row t.id received) (started k at_ms)
      (guarded-Progress _ _ received (is_row-state t.id received) refl
        (λ x e. (ground arith, rw e)))
      j.tasks j'.tasks e

expire-Evolves :
    (wire : Wire) (t : TaskExecution) (at_ms : ℕ) (j j' : Journal) (u : TaskExecution)
    → expire wire t at_ms j ≡ ok (j', u)
    → Evolves j.tasks j'.tasks
unfolding expired
expire-Evolves wire t at_ms j j' u h =
    update_rows-EvolvesBy Progress Progress-refl (is_row t.id received) (expired at_ms)
      (guarded-Progress _ _ received (is_row-state t.id received) refl
        (λ x e. (ground arith, rw e)))
      j.tasks j'.tasks (expire_lem wire t at_ms j j' u h).0

is_claim-running : (claim x : TaskExecution) → is_claim claim x ≡ true → x.state ≡ running
unfolding is_claim
is_claim-running claim x h = ground (arith, same_state→eq x.state running)

release_lem :
    (claim : TaskExecution) (j : Journal)
    → ((release_task_claim claim j).0 ≡ j)
      ⊎ (update_rows (is_claim claim) release_row j.tasks ≡ ok (release_task_claim claim j).0.tasks)
unfolding release_task_claim
release_lem claim j = ground arith

pub release-Evolves :
    (claim : TaskExecution) (j : Journal) → Evolves j.tasks (release_task_claim claim j).0.tasks
unfolding release_row
release-Evolves claim j = elim (release_lem claim j) [
  | inl e ↦ rw e (EvolvesBy-refl Progress Progress-refl j.tasks)
  | inr e ↦
      update_rows-EvolvesBy Progress Progress-refl (is_claim claim) release_row
        (guarded-Progress (is_claim claim) _ running (is_claim-running claim) refl
          (λ x e. (ground arith, rw e)))
        j.tasks _ e
]

complete_row_lem :
    (wire : Wire) (current : TaskExecution) (id : String) (state : TaskState) (r : TaskResult)
    (at_ms : ℕ) (j j' : Journal)
    → complete_row wire current id state r at_ms j ≡ ok j'
    → (rearm_task_result wire current at_ms j ≡ ok j')
      ⊎ (update_rows (is_row id running) (completed state r at_ms) j.tasks ≡ ok j'.tasks)
unfolding complete_row
complete_row_lem wire current id state r at_ms j j' h = ground arith

rearm-Same :
    (wire : Wire) (t : TaskExecution) (at_ms : ℕ) (j j' : Journal)
    → rearm_task_result wire t at_ms j ≡ ok j'
    → EvolvesBy Same j.tasks j'.tasks
unfolding rearm_task_result
rearm-Same wire t at_ms j j' h =
    update_rows-EvolvesBy Same Same-refl (λ u. str_eq u.id t.id)
      (λ u. record u { result_delivered = false }) (λ x e. ground arith) j.tasks j'.tasks
      (ground arith)

insert-Same :
    (task : Task) (at_ms reads : ℕ) (s s' : Accepting)
    → insert task at_ms reads s ≡ ok s'
    → EvolvesBy Same s.journal.tasks s'.journal.tasks
unfolding insert received_row
insert-Same task at_ms reads s s' h =
    insert_task-EvolvesBy Same Same-refl (received_row task at_ms) s.journal.tasks s'.journal.tasks
      refl (ground arith)

accept_new_lem :
    (clock : Option StartClock) (task : Task) (at_ms : ℕ) (s s' : Accepting)
    → accept_new clock task at_ms s ≡ ok s'
    → (s'.journal ≡ s.journal)
      ⊎ (insert task at_ms (s.reads + 1) s ≡ ok s')
      ⊎ (insert task at_ms s.reads s ≡ ok s')
unfolding accept_new fence
accept_new_lem clock task at_ms s s' h = ground arith

accept_new-Same :
    (clock : Option StartClock) (task : Task) (at_ms : ℕ) (s s' : Accepting)
    → accept_new clock task at_ms s ≡ ok s'
    → EvolvesBy Same s.journal.tasks s'.journal.tasks
accept_new-Same clock task at_ms s s' h = elim (accept_new_lem clock task at_ms s s' h) [
  | inl e ↦ rw e (EvolvesBy-refl Same Same-refl s.journal.tasks)
  | inr (inl e) ↦ insert-Same task at_ms (s.reads + 1) s s' e
  | inr (inr e) ↦ insert-Same task at_ms s.reads s s' e
]

accept_known_lem :
    (wire : Wire) (current : TaskExecution) (task : Task) (at_ms : ℕ) (s s' : Accepting)
    → accept_known wire current task at_ms s ≡ ok s'
    → (s' ≡ s) ⊎ (rearm_task_result wire current at_ms s.journal ≡ ok s'.journal)
unfolding accept_known
accept_known_lem wire current task at_ms s s' h = ground arith

accept_known-Same :
    (wire : Wire) (current : TaskExecution) (task : Task) (at_ms : ℕ) (s s' : Accepting)
    → accept_known wire current task at_ms s ≡ ok s'
    → EvolvesBy Same s.journal.tasks s'.journal.tasks
accept_known-Same wire current task at_ms s s' h =
    elim (accept_known_lem wire current task at_ms s s' h) [
      | inl e ↦ rw e (EvolvesBy-refl Same Same-refl s.journal.tasks)
      | inr e ↦ rearm-Same wire current at_ms s.journal s'.journal e
    ]

accept_task-Same :
    (wire : Wire) (clock : Option StartClock) (at_ms : ℕ) (task : Task) (s s' : Accepting)
    → accept_task wire clock at_ms task s ≡ ok s'
    → EvolvesBy Same s.journal.tasks s'.journal.tasks
unfolding accept_task
accept_task-Same wire clock at_ms task s s' h =
    elim (Option-cases (task_by_id task.id s.journal.tasks)) [
      | inl e ↦ accept_new-Same clock task at_ms s s' (rw (e, accept_task) at h)
      | inr (current, e) ↦ accept_known-Same wire current task at_ms s s' (rw (e, accept_task) at h)
    ]

accept_loop-Same :
    (wire : Wire) (clock : Option StartClock) (at_ms : ℕ) (tasks : List Task) (s s' : Accepting)
    → accept_loop wire clock at_ms tasks s ≡ ok s'
    → EvolvesBy Same s.journal.tasks s'.journal.tasks
unfolding accept_loop
accept_loop-Same wire clock at_ms [] s s' h =
    let same : s' ≡ s = ground arith in rw same (EvolvesBy-refl Same Same-refl s.journal.tasks)
accept_loop-Same wire clock at_ms (task ∷ tasks) s s' h =
    let (m, e, rest) =
      >>=-eq-ok (accept_task wire clock at_ms task s) (accept_loop wire clock at_ms tasks) h in
    EvolvesBy-trans s.journal.tasks m.journal.tasks s'.journal.tasks
      (accept_task-Same wire clock at_ms task s m e)
      (accept_loop-Same wire clock at_ms tasks m s' rest)

accept_lem :
    (wire : Wire) (clock : Option StartClock) (tasks : List Task) (at_ms : ℤ) (j : Journal)
    (s : Accepting)
    → accept_loop wire clock (to_ℕ at_ms) tasks (accepting j) ≡ ok s
    → ((accept_tasks_fenced wire clock tasks at_ms j).0 ≡ j)
      ⊎ ((accept_tasks_fenced wire clock tasks at_ms j).0 ≡ s.journal)
unfolding accept_tasks_fenced
accept_lem wire clock tasks at_ms j s e = ground arith

accept_failed :
    (wire : Wire) (clock : Option StartClock) (tasks : List Task) (at_ms : ℤ) (j : Journal)
    (x : Error)
    → accept_loop wire clock (to_ℕ at_ms) tasks (accepting j) ≡ err x
    → (accept_tasks_fenced wire clock tasks at_ms j).0 ≡ j
unfolding accept_tasks_fenced
accept_failed wire clock tasks at_ms j x e = ground arith

pub accept-Same :
    (wire : Wire) (clock : Option StartClock) (tasks : List Task) (at_ms : ℤ) (j : Journal)
    → EvolvesBy Same j.tasks (accept_tasks_fenced wire clock tasks at_ms j).0.tasks
accept-Same wire clock tasks at_ms j =
    elim (Result-cases (accept_loop wire clock (to_ℕ at_ms) tasks (accepting j))) [
      | inr (x, e) ↦ rw (accept_failed wire clock tasks at_ms j x e) stay
      | inl (s, e) ↦ elim (accept_lem wire clock tasks at_ms j s e) [
        | inl same ↦ rw same stay
        | inr same ↦ rw same (accept_loop-Same wire clock (to_ℕ at_ms) tasks (accepting j) s e)
      ]
    ]
  where
    stay : EvolvesBy Same j.tasks j.tasks
    stay = EvolvesBy-refl Same Same-refl j.tasks

claim_committed :
    (wire : Wire) (clock : Option StartClock) (token : Option String) (at_ms : ℤ) (j : Journal)
    → ((claim_next_task_fenced wire clock token at_ms j).0 ≡ j)
      ⊎ ((u : TaskExecution) × (claim_next_task_fenced wire clock token at_ms j
            ≡ ((claim_next_task_fenced wire clock token at_ms j).0, ok u)))
unfolding claim_next_task_fenced
claim_committed wire clock token at_ms j = transact-cases j (
    refuse (is_nonpositive at_ms) plain
    >> claim_loop wire clock token (to_ℕ at_ms) 0 (candidates clock j.tasks) j)

pub claim-Evolves :
    (wire : Wire) (clock : Option StartClock) (token : Option String) (at_ms : ℤ) (j : Journal)
    → Evolves j.tasks (claim_next_task_fenced wire clock token at_ms j).0.tasks
claim-Evolves wire clock token at_ms j = elim (claim_committed wire clock token at_ms j) [
  | inl same ↦ rw same (EvolvesBy-refl Progress Progress-refl j.tasks)
  | inr (u, e) ↦ elim (claim_next-Claimed wire clock token at_ms j _ u e) [
    | inl (t, e, _) ↦ start-Evolves token t (to_ℕ at_ms) j _ u e
    | inr (t, e, _) ↦ expire-Evolves wire t (to_ℕ at_ms) j _ u e
  ]
]

complete_lem :
    (wire : Wire) (id : String) (state : TaskState) (r : TaskResult) (at_ms : ℤ) (j : Journal)
    (current : TaskExecution)
    → task_by_id id j.tasks ≡ some current
    → ((complete_task wire id state r at_ms j).0 ≡ j)
      ⊎ ((complete_row wire current id state r (to_ℕ at_ms) j
            ≡ ok (complete_task wire id state r at_ms j).0)
          × (terminal state ≡ true))
unfolding complete_task
complete_lem wire id state r at_ms j current e = ground arith

complete_absent :
    (wire : Wire) (id : String) (state : TaskState) (r : TaskResult) (at_ms : ℤ) (j : Journal)
    → task_by_id id j.tasks ≡ none
    → (complete_task wire id state r at_ms j).0 ≡ j
unfolding complete_task
complete_absent wire id state r at_ms j e = ground arith

allowed-terminal : (s : TaskState) → terminal s ≡ true → allowed running s ≡ true
allowed-terminal s h = ground arith

complete_row-Evolves :
    (wire : Wire) (current : TaskExecution) (id : String) (state : TaskState) (r : TaskResult)
    (at_ms : ℕ) (j j' : Journal)
    → terminal state ≡ true
    → complete_row wire current id state r at_ms j ≡ ok j'
    → Evolves j.tasks j'.tasks
unfolding completed
complete_row-Evolves wire current id state r at_ms j j' t h =
    elim (complete_row_lem wire current id state r at_ms j j' h) [
      | inl e ↦ Same-Evolves j.tasks j'.tasks (rearm-Same wire current at_ms j j' e)
      | inr e ↦
          update_rows-EvolvesBy Progress Progress-refl (is_row id running) (completed state r at_ms)
            (guarded-Progress (is_row id running) _ running (is_row-state id running) refl
              (λ x at_s. (ground arith, rw at_s (allowed-terminal state t))))
            j.tasks j'.tasks e
    ]

pub complete-Evolves :
    (wire : Wire) (id : String) (state : TaskState) (r : TaskResult) (at_ms : ℤ) (j : Journal)
    → Evolves j.tasks (complete_task wire id state r at_ms j).0.tasks
complete-Evolves wire id state r at_ms j = elim (Option-cases (task_by_id id j.tasks)) [
  | inl e ↦ rw (complete_absent wire id state r at_ms j e) stay
  | inr (current, e) ↦ elim (complete_lem wire id state r at_ms j current e) [
    | inl same ↦ rw same stay
    | inr (run, t) ↦ complete_row-Evolves wire current id state r (to_ℕ at_ms) j _ t run
  ]
]
  where
    stay : Evolves j.tasks j.tasks
    stay = EvolvesBy-refl Progress Progress-refl j.tasks
