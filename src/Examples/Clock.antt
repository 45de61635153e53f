-- ===== src/Examples/Clock.antt =====
-- internal/agent/task_clock.go on concrete input: a clock probed at 0 with an uncertainty of one
-- millisecond, and one sample.
use passwall_node.Prelude.{ℕ, ◌≡◌, ◌↔◌, refl, subst, true, false, none, some, pos, arith}
use passwall_node.TaskClock.{
  TaskTimeBounds, failed, raw, Clock, capture, task_time_bounds, observe, observe_sample,
  set_anchor, sample_upper, meet, note_raw, bounds_at_locked, bounds_of_age, new, unanchored,
  validate, ceil_task_clock_ms, task_elapsed_timespec,
}
use passwall_node.TaskClock.Bounds.{Holds, IsHonestSample}
use passwall_node.TaskClock.Invariant.{IsSound, Keeps}
use passwall_node.TaskClock.Fresh.{IsFresh, MovesOn, task_time_bounds_iff}
use passwall_node.TaskClock.History.{
  Run, here, after, Call, observed, rest, Run-IsSound, Run-bounds-Holds, new-IsSound, any_sample,
  honest, fault_holds_tasks,
}

-- The control plane's time, in nanoseconds, when the counter reads 0.
abbrev base : ℕ
base = 5000000000000

-- The probed clock
abbrev probed : Clock
probed = record (unanchored 60000000000 10000000000 1) { has_raw_floor = true }

-- The clock after a request at 1 ms, answered at 3 ms with the stamp 5000002
abbrev anchored : Clock
anchored = record {
  max_anchor_age = 60000000000;
  max_round_trip = 10000000000;
  uncertainty_ms = 1;
  has_raw_floor = true;
  raw_floor = 3000000;
  computed_highwater = 5000002;
  trusted_lower_floor = 5000001;
  has_anchor = true;
  anchor_at = 3000000;
  anchor_lower_ms = 5000001;
  anchor_upper_ms = 5000005;
}

probed-new : new (pos 60000000000) (pos 10000000000) (pos 1000000) (raw (pos 0)) ≡ some probed
unfolding new capture note_raw ceil_task_clock_ms
probed-new = refl

anchored-observe : (observe (pos 5000002) (pos 1000000) (raw (pos 3000000)) probed).1 ≡ anchored
unfolding observe capture note_raw observe_sample sample_upper set_anchor meet bounds_at_locked
    ceil_task_clock_ms
anchored-observe = refl

abbrev bounds : TaskTimeBounds
bounds = record { lower_ms = 5000002; upper_ms = 5000006 }

bounds-anchored : (task_time_bounds (raw (pos 4000000)) anchored).0 ≡ some bounds
unfolding task_time_bounds capture note_raw bounds_at_locked bounds_of_age ceil_task_clock_ms
    validate
bounds-anchored = refl

sample_honest : IsHonestSample base 1 (pos 5000002) (pos 1000000) 3000000
sample_honest a b e f = record {
  sent = 2000000;
  after_start = ground (arith, e, f);
  before_end = omega arith;
  not_late = ground (arith, e, f);
  not_early = ground (arith, e, f);
}

anchored-Run : Run (honest base) probed anchored
anchored-Run =
    let call : Call (honest base) probed
        (observe (pos 5000002) (pos 1000000) (raw (pos 3000000)) probed).1 =
      observed (pos 5000002) (pos 1000000) (raw (pos 3000000)) probed
        (λ end_at e. honest_at end_at e) in
    after here (subst (Call (honest base) probed) anchored-observe call)
  where
    honest_at :
        (end_at : ℕ)
        → raw (pos 3000000) ≡ raw (pos end_at)
        → IsHonestSample base 1 (pos 5000002) (pos 1000000) end_at
    honest_at end_at e =
        let same : 3000000 ≡ end_at = ground (arith, e) in
        subst (λ x. IsHonestSample base 1 (pos 5000002) (pos 1000000) x) same sample_honest

-- The counter at 4 ms: the control plane's time is within the bounds.
Run-bounds-Holds_example : (now : ℕ) × (raw (pos 4000000) ≡ raw (pos now)) × Holds base now bounds
Run-bounds-Holds_example =
    Run-bounds-Holds base (pos 60000000000) (pos 10000000000) (pos 1000000) (raw (pos 0))
      (raw (pos 4000000)) probed anchored bounds probed-new anchored-Run bounds-anchored

-- A sample that claims a later time than the anchor allows takes the anchor away.
abbrev fooled : Clock
fooled = record anchored { has_anchor = false; raw_floor = 4000000; trusted_lower_floor = 5000002 }

fooled-observe : (observe (pos 9000000) (pos 3000000) (raw (pos 4000000)) anchored).1 ≡ fooled
unfolding observe capture note_raw observe_sample sample_upper set_anchor meet bounds_at_locked
    bounds_of_age validate ceil_task_clock_ms
fooled-observe = refl

fooled-Run : Run any_sample probed fooled
fooled-Run =
    after
      (after here (
        subst (Call any_sample probed) anchored-observe
          (observed (pos 5000002) (pos 1000000) (raw (pos 3000000)) probed tt)))
      (subst (Call any_sample anchored) fooled-observe
        (observed (pos 9000000) (pos 3000000) (raw (pos 4000000)) anchored tt))

probed-IsSound : IsSound probed
probed-IsSound =
    new-IsSound (pos 60000000000) (pos 10000000000) (pos 1000000) (raw (pos 0)) probed probed-new

Run-IsSound_example : IsSound fooled × Keeps probed fooled
Run-IsSound_example = Run-IsSound probed fooled fooled-Run probed-IsSound

anchored-IsSound : IsSound anchored
anchored-IsSound =
    (Run-IsSound probed anchored
      (after here (
        subst (Call any_sample probed) anchored-observe
          (observed (pos 5000002) (pos 1000000) (raw (pos 3000000)) probed tt)))
      probed-IsSound).0

task_time_bounds_iff_example :
    ((task_time_bounds (raw (pos 4000000)) anchored).0 ≡ some bounds)
    ↔ (IsFresh anchored 4000000 × MovesOn anchored 4000000 bounds)
task_time_bounds_iff_example = task_time_bounds_iff anchored 4000000 bounds anchored-IsSound

-- The counter fails, and a reading that follows gives no bounds.
fault_holds_tasks_example :
    (task_time_bounds (raw (pos 4000000)) (capture failed anchored).1).0 ≡ none
unfolding capture
fault_holds_tasks_example =
    fault_holds_tasks failed (raw (pos 4000000)) anchored (capture failed anchored).1 refl rest

-- `taskElapsedTimespec` of 2.5 s
task_elapsed_timespec_example : task_elapsed_timespec (pos 2) (pos 500000000) ≡ some 2500000000
unfolding task_elapsed_timespec
task_elapsed_timespec_example = refl
