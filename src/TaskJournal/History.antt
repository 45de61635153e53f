-- ===== src/TaskJournal/History.antt =====
-- tasks.go over a whole run of handlers: what becomes of a journalled task.
use passwall_node.Prelude.{
  ℕ, zero, suc, ◌≡◌, refl, true, Option, none, some, List, [], ◌∷◌, String, ℤ,
}
use passwall_node.TaskJournal.Rows.{
  TaskState, terminal, Task, TaskResult, TaskExecution, Journal, Wire, StartClock,
}
use passwall_node.TaskJournal.Progress.{
  Progress, Same, Evolves, Same-refl, Same-trans, Same-Evolves,
}
use passwall_node.TaskJournal.Accepting.{accept_tasks_fenced}
use passwall_node.TaskJournal.Claiming.{claim_next_task_fenced}
use passwall_node.TaskJournal.Completing.{release_task_claim, complete_task}
use passwall_node.TaskJournal.Steps.{accept-Same, claim-Evolves, release-Evolves, complete-Evolves}

-- One call of a handler, with any arguments.
pub data Handled (wire : Wire) (j : Journal) : Journal → Type 0 where
  accepts :
      (clock : Option StartClock) (tasks : List Task) (at_ms : ℤ)
      → Handled wire j (accept_tasks_fenced wire clock tasks at_ms j).0
  claims :
      (clock : Option StartClock) (token : Option String) (at_ms : ℤ)
      → Handled wire j (claim_next_task_fenced wire clock token at_ms j).0
  releases : (claim : TaskExecution) → Handled wire j (release_task_claim claim j).0
  completes :
      (id : String) (state : TaskState) (r : TaskResult) (at_ms : ℤ)
      → Handled wire j (complete_task wire id state r at_ms j).0

pub data Run (wire : Wire) (j : Journal) : Journal → Type 0 where
  here : Run wire j j
  after : {k l : Journal} → Run wire j k → Handled wire k l → Run wire j l

-- Whatever the handler, its arguments and its outcome: no row disappears, each keeps its identity and
-- changes its state along an edge of `allowed`, a terminal row keeps its outcome, and new rows are
-- received ones.
pub handler-Evolves : (wire : Wire) (j k : Journal) → Handled wire j k → Evolves j.tasks k.tasks
handler-Evolves wire j k (accepts clock tasks at_ms) =
    Same-Evolves j.tasks _ (accept-Same wire clock tasks at_ms j)
handler-Evolves wire j k (claims clock token at_ms) = claim-Evolves wire clock token at_ms j
handler-Evolves wire j k (releases claim) = release-Evolves claim j
handler-Evolves wire j k (completes id state r at_ms) = complete-Evolves wire id state r at_ms j

-- The `i`-th row.
abbrev pub row : ℕ → List TaskExecution → Option TaskExecution
row i [] = none
row zero (t ∷ ts) = some t
row (suc i) (t ∷ ts) = row i ts

Evolves-row :
    (i : ℕ) (xs ys : List TaskExecution) (x : TaskExecution)
    → Evolves xs ys
    → row i xs ≡ some x
    → (y : TaskExecution) × (row i ys ≡ some y) × Progress x y
Evolves-row i [] ys x h e = absurd (cc e)
Evolves-row i (a ∷ xs) [] x h e = absurd h
Evolves-row zero (a ∷ xs) (b ∷ ys) x h e = let same : a ≡ x = cc e in (b, refl, rw (← same) h.0)
Evolves-row (suc i) (a ∷ xs) (b ∷ ys) x h e = Evolves-row i xs ys x h.1 e

-- A task that has reached a terminal state keeps that state and its whole outcome, at its place in the
-- journal, whatever handlers run.
pub terminal_forever :
    (wire : Wire) (i : ℕ) (j k : Journal) (t : TaskExecution)
    → Run wire j k
    → row i j.tasks ≡ some t
    → terminal t.state ≡ true
    → (u : TaskExecution) × (row i k.tasks ≡ some u) × Same t u
terminal_forever wire i j k t here e done = (t, e, Same-refl t)
terminal_forever wire i j k t (after {k = m} r h) e done =
    let (u, at_u, same) = terminal_forever wire i j m t r e done in
    let (v, at_v, step) = Evolves-row i m.tasks k.tasks u (handler-Evolves wire m k h) at_u in
    (
      v,
      at_v,
      Same-trans same (record {
        identity = step.identity;
        outcome = step.outcome (rw (same.outcome.state) done);
      }),
    )
