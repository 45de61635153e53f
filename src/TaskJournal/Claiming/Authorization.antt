-- ===== src/TaskJournal/Claiming/Authorization.antt =====
-- tasks.go, `ClaimNextTaskFenced`: what a claim has proved of the time.
use passwall_node.Prelude.{
  ℕ, ◌+◌, ◌<◌, ◌≤◌, ◌≡◌, refl, sym, ap, subst, ◌⊎◌, inl, inr, Bool-cases, Option, none, some,
  Option-cases, >>=-eq-ok, transact-ok, List, [], ◌∷◌, String, ltb, leb, ltb→lt, leb→le, arith, ℤ,
  is_nonpositive, to_ℕ, plain, ok, refuse,
}
use passwall_node.TaskClock.{TaskTimeBounds}
use passwall_node.TaskJournal.Rows.{
  received, running, failed, TaskExecution, Journal, Wire, StartClock, expired_before_start,
  update_rows,
}
use passwall_node.TaskJournal.Results.{task_bounds, is_row}
use passwall_node.TaskJournal.Claiming.{
  started, expired, start, expire, claim_loop, candidates, claim_next_task_fenced,
}

pub start_lem :
    (token : Option String) (t : TaskExecution) (at_ms : ℕ) (j j' : Journal) (u : TaskExecution)
    → start token t at_ms j ≡ ok (j', u)
    → (k : String) × (token ≡ some k)
      × (update_rows (is_row t.id received) (started k at_ms) j.tasks ≡ ok j'.tasks)
      × (u ≡ started k at_ms t)
unfolding start
start_lem none t at_ms j j' u h = absurd (cc h)
start_lem (some k) t at_ms j j' u h = (k, refl, ground arith, ground arith)

pub expire_lem :
    (wire : Wire) (t : TaskExecution) (at_ms : ℕ) (j j' : Journal) (u : TaskExecution)
    → expire wire t at_ms j ≡ ok (j', u)
    → (update_rows (is_row t.id received) (expired at_ms) j.tasks ≡ ok j'.tasks)
      × (u.state ≡ failed)
      × (u.error_code ≡ expired_before_start)
      × (u.not_after_ms ≡ t.not_after_ms)
unfolding expire expired
expire_lem wire t at_ms j j' u h = ground arith

-- The task has no deadline, or an interval of the clock lies before it.
abbrev pub Authorized : Option StartClock → TaskExecution → Type 0
Authorized clock t =
    (t.not_after_ms ≡ 0)
    ⊎ ((i : ℕ) × (b : TaskTimeBounds) × (task_bounds clock i ≡ some b)
        × (b.upper_ms < t.not_after_ms))

-- An interval of the clock lies at or behind the deadline.
abbrev pub Lapsed : Option StartClock → TaskExecution → Type 0
Lapsed clock t =
    (i : ℕ) × (b : TaskTimeBounds) × (task_bounds clock i ≡ some b)
    × (0 < t.not_after_ms)
    × (t.not_after_ms ≤ b.lower_ms)

module _ (wire : Wire) (clock : Option StartClock) (token : Option String) (at_ms : ℕ) where
  -- Which branch a claim took, and on what evidence.
  abbrev pub Claimed : Journal → Journal → TaskExecution → Type 0
  Claimed j j' u =
      ((t : TaskExecution) × (start token t at_ms j ≡ ok (j', u)) × Authorized clock t)
      ⊎ ((t : TaskExecution) × (expire wire t at_ms j ≡ ok (j', u)) × Lapsed clock t)

  pub claim_loop-Claimed :
      (reads : ℕ) (ts : List TaskExecution) (j j' : Journal) (u : TaskExecution)
      → claim_loop wire clock token at_ms reads ts j ≡ ok (j', u)
      → Claimed j j' u
  unfolding claim_loop
  claim_loop-Claimed reads [] j j' u h = absurd (cc h)
  claim_loop-Claimed reads (t ∷ ts) j j' u h = elim (Bool-cases (ltb 0 t.not_after_ms)) [
    | inr unbounded ↦ inl (t, (rw unbounded at h), inl (ground arith))
    | inl bounded ↦ elim (Option-cases (task_bounds clock reads)) [
      | inl e ↦ claim_loop-Claimed (reads + 1) ts j j' u (rw (bounded, e) at h)
      | inr (b, e) ↦ elim (Bool-cases (leb t.not_after_ms b.lower_ms)) [
        | inl past ↦
            inr
              (t, (rw (bounded, e, past) at h), (reads, b, e, ltb→lt _ _ bounded, leb→le _ _ past))
        | inr future ↦ elim (Bool-cases (leb t.not_after_ms b.upper_ms)) [
          | inl open_end ↦
              claim_loop-Claimed (reads + 1) ts j j' u (rw (bounded, e, future, open_end) at h)
          | inr before ↦
              inl (t, (rw (bounded, e, future, before) at h), inr (reads, b, e, ground arith))
        ]
      ]
    ]
  ]

pub claim_next-Claimed :
    (wire : Wire) (clock : Option StartClock) (token : Option String) (at_ms : ℤ) (j j' : Journal)
    (u : TaskExecution)
    → claim_next_task_fenced wire clock token at_ms j ≡ (j', ok u)
    → Claimed wire clock token (to_ℕ at_ms) j j' u
unfolding claim_next_task_fenced
claim_next-Claimed wire clock token at_ms j j' u h =
    let page = candidates clock j.tasks in
    let (_, _, run) =
      >>=-eq-ok (refuse (is_nonpositive at_ms) plain)
        (λ _. claim_loop wire clock token (to_ℕ at_ms) 0 page j) (transact-ok j _ h) in
    claim_loop-Claimed wire clock token (to_ℕ at_ms) 0 page j j' u run

-- A claim returns a running task, which has no deadline or for which the clock gave an interval that
-- ends before the deadline; or it returns a failed task with the expiry code, for which the clock
-- gave an interval that begins at or behind the deadline. It never returns another one.
pub claim_next-Authorized :
    (wire : Wire) (clock : Option StartClock) (token : Option String) (at_ms : ℤ) (j j' : Journal)
    (u : TaskExecution)
    → claim_next_task_fenced wire clock token at_ms j ≡ (j', ok u)
    → ((u.state ≡ running) × Authorized clock u)
      ⊎ ((u.state ≡ failed) × (u.error_code ≡ expired_before_start) × Lapsed clock u)
unfolding started
claim_next-Authorized wire clock token at_ms j j' u h =
    elim (claim_next-Claimed wire clock token at_ms j j' u h) [
      | inl (t, e, a) ↦
          let (k, _, _, same) = start_lem token t (to_ℕ at_ms) j j' u e in
          inl (ap (λ (x : TaskExecution). x.state) same, subst (Authorized clock) (sym same) a)
      | inr (t, e, (i, b, sample, bounded, past)) ↦
          let (_, state, code, deadline) = expire_lem wire t (to_ℕ at_ms) j j' u e in
          inr (state, code, (i, b, sample, omega arith, omega arith))
    ]
