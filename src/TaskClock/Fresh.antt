-- ===== src/TaskClock/Fresh.antt =====
-- task_clock.go: when `TaskTimeBounds` answers, and with what interval.
use passwall_node.Prelude.{
  ℕ, ◌+◌, ◌-◌, ◌*◌, ◌/◌, ◌≤◌, ◌<◌, ◌≡◌, ◌↔◌, sym, ap, subst, ◌∙◌, true, some, arith, pos, max_int64,
  Bool-cases, inl, inr,
}
use passwall_node.TaskClock.{
  millisecond, TaskTimeBounds, raw, Clock, ceil_task_clock_ms, bounds_at_locked, note_raw, capture,
  task_time_bounds,
}
use passwall_node.TaskClock.Invariant.{IsSound}

-- The anchor of a clock, moved on to the reading `now`, in whole milliseconds: the lower end is the
-- last one that is not above it, and the upper end the first one that is not below it.
pub record MovesOn (c : Clock) (now : ℕ) (b : TaskTimeBounds) : Type 0 where
  pub lower_below : b.lower_ms * millisecond ≤ c.anchor_lower_ms * millisecond + (now - c.anchor_at)
  pub lower_last :
      c.anchor_lower_ms * millisecond + (now - c.anchor_at) < (b.lower_ms + 1) * millisecond
  pub upper_above : c.anchor_upper_ms * millisecond + (now - c.anchor_at) ≤ b.upper_ms * millisecond
  pub upper_first :
      b.upper_ms * millisecond < c.anchor_upper_ms * millisecond + (now - c.anchor_at) + millisecond
  pub upper_fits : b.upper_ms ≤ max_int64

-- The reading is none that the clock has gone past, and the anchor is younger than its largest age.
pub record IsFresh (c : Clock) (now : ℕ) : Type 0 where
  pub anchored : c.has_anchor ≡ true
  pub not_past : c.raw_floor ≤ now
  pub young : now - c.anchor_at < c.max_anchor_age

moved_on : (c : Clock) (now : ℕ) → TaskTimeBounds
moved_on c now = record {
  lower_ms = c.anchor_lower_ms + (now - c.anchor_at) / millisecond;
  upper_ms = c.anchor_upper_ms + ceil_task_clock_ms (now - c.anchor_at);
}

ceil_task_clock_ms_lem :
    (d : ℕ)
    → (d ≤ ceil_task_clock_ms d * millisecond)
      × (ceil_task_clock_ms d * millisecond < d + millisecond)
unfolding ceil_task_clock_ms
ceil_task_clock_ms_lem d = ground arith

task_time_bounds_stale :
    (c : Clock) (now : ℕ) (b : TaskTimeBounds)
    → IsSound c
    → (task_time_bounds (raw (pos now)) c).0 ≡ some b
    → IsFresh c now × (b ≡ moved_on c now) × (b.upper_ms ≤ max_int64)
unfolding task_time_bounds capture note_raw bounds_at_locked moved_on
task_time_bounds_stale c now b s h = elim (Bool-cases c.has_anchor) [
  | inl a ↦ ground (arith, a)
  | inr a ↦ ground (arith, a)
]

task_time_bounds_fresh :
    (c : Clock) (now : ℕ)
    → IsSound c
    → IsFresh c now
    → c.anchor_upper_ms + ceil_task_clock_ms (now - c.anchor_at) ≤ max_int64
    → (task_time_bounds (raw (pos now)) c).0 ≡ some (moved_on c now)
unfolding task_time_bounds capture note_raw bounds_at_locked moved_on
task_time_bounds_fresh c now s f fits = ground arith

-- The anchor moved on is one such interval, and the only one.
moved_on-MovesOn :
    (c : Clock) (now : ℕ) → (moved_on c now).upper_ms ≤ max_int64 → MovesOn c now (moved_on c now)
unfolding moved_on
moved_on-MovesOn c now fits =
    let l = ceil_task_clock_ms_lem (now - c.anchor_at) in
    record {
      lower_below = omega arith;
      lower_last = omega arith;
      upper_above = omega (arith, l.0);
      upper_first = omega (arith, l.1);
      upper_fits = fits;
    }

MovesOn-moved_on : (c : Clock) (now : ℕ) (b : TaskTimeBounds) → MovesOn c now b → b ≡ moved_on c now
unfolding moved_on
MovesOn-moved_on c now b m =
    let l = ceil_task_clock_ms_lem (now - c.anchor_at) in
    let lower : b.lower_ms ≡ c.anchor_lower_ms + (now - c.anchor_at) / millisecond =
      omega (arith, m.lower_below, m.lower_last) in
    let upper : b.upper_ms ≡ c.anchor_upper_ms + ceil_task_clock_ms (now - c.anchor_at) =
      omega (arith, m.upper_above, m.upper_first, l.0, l.1) in
    ground (arith, lower, upper)

-- At a reading, `TaskTimeBounds` of a sound clock answers with an interval exactly when the reading
-- is fresh and the interval is the anchor's, moved on to the reading and rounded outwards.
pub task_time_bounds_iff :
    (c : Clock) (now : ℕ) (b : TaskTimeBounds)
    → IsSound c
    → ((task_time_bounds (raw (pos now)) c).0 ≡ some b) ↔ (IsFresh c now × MovesOn c now b)
task_time_bounds_iff c now b s = (
  λ h.
      (let (fresh, e, fits) = task_time_bounds_stale c now b s h in
        (
          fresh,
          subst (MovesOn c now) (sym e)
              (moved_on-MovesOn c now (subst (λ x. x.upper_ms ≤ max_int64) e fits)),
        )),
  λ (fresh, m).
      (let e = MovesOn-moved_on c now b m in
        task_time_bounds_fresh c now s fresh
          (unfold moved_on in subst (λ x. x.upper_ms ≤ max_int64) e m.upper_fits)
        ∙ ap some (sym e)),
)
