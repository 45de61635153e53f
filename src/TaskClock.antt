-- ===== src/TaskClock.antt =====
-- internal/agent/task_clock.go: `ControlPlaneTaskClock`, the bounds on control-plane time by which
-- a task may start, and `TaskTimeBounds` of internal/state/state.go.
-- Durations are nanoseconds and instants milliseconds. What a caller or the counter supplies is an
-- integer; what the clock stores has passed a sign test, so it is a natural number. Every error of
-- these methods wraps `ErrTaskClockUnavailable`, hence `none`. The mutex makes each method one step.
pub mod Invariant
pub mod Bounds
pub mod History
pub mod Fresh
use passwall_node.Prelude.{
  ℕ, ◌+◌, ◌-◌, ◌*◌, ◌/◌, ◌%◌, min, max, Bool, true, false, not, ◌&&◌, ◌||◌, Option, none, some, ltb,
  leb, ◌==◌, if◌then◌else◌, ℤ, pos, negsuc, is_nonpositive, to_ℕ, max_int64, checked_add,
}

-- `time.Millisecond`
abbrev pub millisecond : ℕ
millisecond = 1000000

pub record TaskTimeBounds : Type 0 where
  pub lower_ms : ℕ
  pub upper_ms : ℕ

-- `TaskTimeBounds.Validate`: an error is `false`
unfoldable pub validate : TaskTimeBounds → Bool
validate b =
    if leb b.lower_ms 0 || leb b.upper_ms 0 || ltb b.upper_ms b.lower_ms then false else true

-- What `c.elapsed` does: there is no reader, it fails, or it returns a duration.
pub data Reading : Type 0 where
  absent failed : Reading
  raw : ℤ → Reading

pub record Clock : Type 0 where
  pub max_anchor_age : ℕ
  pub max_round_trip : ℕ
  pub uncertainty_ms : ℕ
  pub has_raw_floor : Bool
  pub raw_floor : ℕ
  pub computed_highwater : ℕ
  pub trusted_lower_floor : ℕ
  pub has_anchor : Bool
  pub anchor_at : ℕ
  pub anchor_lower_ms : ℕ
  pub anchor_upper_ms : ℕ

-- `ceilTaskClockMS`, of a duration that is not negative
unfoldable pub ceil_task_clock_ms : ℕ → ℕ
ceil_task_clock_ms d = let ms = d / millisecond in if d % millisecond == 0 then ms else ms + 1

-- `unavailableLocked`
unfoldable pub unavailable_locked {ℓ} : {A : Type ℓ} → Clock → Option A × Clock
unavailable_locked c = (none, record c { has_anchor = false })

-- The end of `boundsAtLocked`, behind the update of the lower floor.
unfoldable pub bounds_of_age : ℕ → ℕ → Clock → Option TaskTimeBounds × Clock
unfolding unavailable_locked ceil_task_clock_ms validate checked_add
bounds_of_age lower age c =
    if leb c.max_anchor_age age
    then unavailable_locked c
    else elim (checked_add c.anchor_upper_ms (ceil_task_clock_ms age)) [
      | none ↦ unavailable_locked c
      | some upper ↦
          let bounds : TaskTimeBounds = record { lower_ms = lower; upper_ms = upper } in
          if validate bounds then (some bounds, c) else unavailable_locked c
    ]

-- `boundsAtLocked`
unfoldable pub bounds_at_locked : ℕ → Clock → Option TaskTimeBounds × Clock
unfolding unavailable_locked checked_add bounds_of_age
bounds_at_locked now c =
    if not c.has_anchor
    then (none, c)
    else if ltb now c.anchor_at
    then unavailable_locked c
    else let age = now - c.anchor_at in
      let historical_age = min age (c.max_anchor_age - 1) in
      elim (checked_add c.anchor_lower_ms (historical_age / millisecond)) [
        | none ↦ unavailable_locked c
        | some lower ↦
            bounds_of_age lower age
              (record c { trusted_lower_floor = max c.trusted_lower_floor lower })
      ]

-- The end of `captureLocked`, behind the tests on the raw value.
unfoldable pub note_raw : ℕ → Clock → Clock
unfolding bounds_at_locked
note_raw now c =
    let c' = record c { has_raw_floor = true; raw_floor = now } in
    if c.has_anchor then (bounds_at_locked now c').1 else c'

-- `captureLocked`, and `Capture`, which adds the lock
unfoldable pub capture : Reading → Clock → Option ℕ × Clock
unfolding unavailable_locked note_raw
capture absent c = unavailable_locked c
capture failed c = (none, record c { has_anchor = false })
capture (raw (negsuc n)) c = unavailable_locked c
capture (raw (pos now)) c =
    if c.has_raw_floor && ltb now c.raw_floor
    then unavailable_locked c
    else (some now, note_raw now c)

-- `TaskTimeBounds`
unfoldable pub task_time_bounds : Reading → Clock → Option TaskTimeBounds × Clock
task_time_bounds reading c =
    let (now, c') = capture reading c in
    elim now [ none ↦ (none, c') | some t ↦ bounds_at_locked t c' ]

-- The interval of a fresh sample, met with the one that the old anchor still gave.
unfoldable pub meet : Option TaskTimeBounds → TaskTimeBounds → TaskTimeBounds
meet none b = b
meet (some old) b = record {
  lower_ms = max b.lower_ms old.lower_ms;
  upper_ms = min b.upper_ms old.upper_ms;
}

-- The end of `Observe`: the new anchor, unless the intervals are inconsistent.
unfoldable pub set_anchor : ℕ → ℕ → TaskTimeBounds → Clock → Bool × Clock
set_anchor computed_at_ms end_at met c =
    let lower = max met.lower_ms c.trusted_lower_floor in
    if ltb met.upper_ms lower then (false, record c { has_anchor = false }) else (
      true,
      record c {
        has_anchor = true;
        anchor_at = end_at;
        anchor_lower_ms = lower;
        anchor_upper_ms = met.upper_ms;
        computed_highwater = computed_at_ms;
        trusted_lower_floor = lower;
      },
    )

-- The upper end of a fresh sample, with the two overflow tests.
unfoldable pub sample_upper : ℕ → ℕ → ℕ → Option ℕ
unfolding ceil_task_clock_ms checked_add
sample_upper computed_at_ms round_trip uncertainty_ms =
    elim (checked_add computed_at_ms (ceil_task_clock_ms round_trip)) [
      | none ↦ none
      | some upper ↦ checked_add upper uncertainty_ms
    ]

-- `Observe`, from the tests on the sample on.
unfoldable pub observe_sample : ℤ → ℤ → ℕ → Option TaskTimeBounds → Clock → Bool × Clock
observe_sample (pos computed_at_ms) (pos start) end_at old c =
    if leb computed_at_ms 0 || ltb computed_at_ms c.computed_highwater
    then (false, record c { has_anchor = false })
    else if ltb end_at start || ltb c.max_round_trip (end_at - start)
    then (false, record c { has_anchor = false })
    else if leb computed_at_ms c.uncertainty_ms
    then (false, record c { has_anchor = false })
    else elim (sample_upper computed_at_ms (end_at - start) c.uncertainty_ms) [
      | none ↦ (false, record c { has_anchor = false })
      | some upper ↦
          set_anchor computed_at_ms end_at
            (meet old (record { lower_ms = computed_at_ms - c.uncertainty_ms; upper_ms = upper })) c
    ]
observe_sample (pos computed_at_ms) (negsuc start) end_at old c =
    (false, record c { has_anchor = false })
observe_sample (negsuc computed_at_ms) start end_at old c = (false, record c { has_anchor = false })

-- `Observe`: `true` is the `nil` error
unfoldable pub observe : ℤ → ℤ → Reading → Clock → Bool × Clock
observe computed_at_ms start reading c =
    let (end_at, c₁) = capture reading c in
    elim end_at [
      | none ↦ (false, c₁)
      | some t ↦
          let (old, c₂) = bounds_at_locked t c₁ in observe_sample computed_at_ms start t old c₂
    ]

-- The clock that `NewControlPlaneTaskClock` probes.
abbrev pub unanchored : ℕ → ℕ → ℕ → Clock
unanchored max_anchor_age max_round_trip uncertainty_ms = record {
  max_anchor_age = max_anchor_age;
  max_round_trip = max_round_trip;
  uncertainty_ms = uncertainty_ms;
  has_raw_floor = false;
  raw_floor = 0;
  computed_highwater = 0;
  trusted_lower_floor = 0;
  has_anchor = false;
  anchor_at = 0;
  anchor_lower_ms = 0;
  anchor_upper_ms = 0;
}

-- `NewControlPlaneTaskClock`: the options, and the reading of the probe
unfoldable pub new : ℤ → ℤ → ℤ → Reading → Option Clock
new max_anchor_age max_round_trip uncertainty reading =
    if is_nonpositive max_anchor_age || is_nonpositive max_round_trip || is_nonpositive uncertainty
    then none
    else let (now, c) = capture reading (
        unanchored (to_ℕ max_anchor_age) (to_ℕ max_round_trip)
          (ceil_task_clock_ms (to_ℕ uncertainty))) in
      elim now [ none ↦ none | some _ ↦ some c ]

-- `time.Second`
abbrev pub second : ℕ
second = 1000000000

-- `taskElapsedTimespec`: `none` is the error
unfoldable pub task_elapsed_timespec : ℤ → ℤ → Option ℕ
task_elapsed_timespec (pos sec) (pos nsec) =
    if leb second nsec || ltb ((max_int64 - nsec) / second) sec
    then none
    else some (sec * second + nsec)
task_elapsed_timespec (pos sec) (negsuc nsec) = none
task_elapsed_timespec (negsuc sec) nsec = none
