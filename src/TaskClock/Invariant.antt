-- ===== src/TaskClock/Invariant.antt =====
-- task_clock.go: what holds of the clock between two calls, and what no call undoes.
use passwall_node.Prelude.{
  ℕ, ◌-◌, ◌≤◌, ◌<◌, ◌≡◌, sym, ◌∙◌, true, false, Option, none, some, Option-cases, inl, inr, arith,
  ℤ, pos, negsuc, max_int64,
}
use passwall_node.TaskClock.{
  TaskTimeBounds, Reading, absent, failed, raw, Clock, bounds_at_locked, note_raw, capture,
  task_time_bounds, meet, set_anchor, sample_upper, observe_sample, observe,
}

-- An anchor is a non-empty interval of positive `int64` instants, observed at a reading that the
-- clock has seen, and it lies on the trusted side of the floor.
pub record IsSound (c : Clock) : Type 0 where
  pub lower_positive : c.has_anchor ≡ true → 0 < c.anchor_lower_ms
  pub ordered : c.has_anchor ≡ true → c.anchor_lower_ms ≤ c.anchor_upper_ms
  pub upper_fits : c.has_anchor ≡ true → c.anchor_upper_ms ≤ max_int64
  pub reading_seen : c.has_anchor ≡ true → c.has_raw_floor ≡ true
  pub anchor_seen : c.has_anchor ≡ true → c.anchor_at ≤ c.raw_floor
  pub lower_trusted : c.has_anchor ≡ true → c.anchor_lower_ms ≤ c.trusted_lower_floor
  pub no_floor : c.has_raw_floor ≡ false → c.raw_floor ≡ 0

-- Nothing that the clock has learnt is forgotten, and the options stay.
pub record Keeps (c c' : Clock) : Type 0 where
  pub lower_floor : c.trusted_lower_floor ≤ c'.trusted_lower_floor
  pub reading_floor : c.raw_floor ≤ c'.raw_floor
  pub highwater : c.computed_highwater ≤ c'.computed_highwater
  pub age_option : c'.max_anchor_age ≡ c.max_anchor_age
  pub trip_option : c'.max_round_trip ≡ c.max_round_trip
  pub uncertainty_option : c'.uncertainty_ms ≡ c.uncertainty_ms

pub Keeps-trans : {a b c : Clock} → Keeps a b → Keeps b c → Keeps a c
Keeps-trans p q = ground arith

bounds_at_locked-IsSound : (now : ℕ) (c : Clock) → IsSound c → IsSound (bounds_at_locked now c).1
unfolding bounds_at_locked
bounds_at_locked-IsSound now c s = ground arith

bounds_at_locked-Keeps : (now : ℕ) (c : Clock) → Keeps c (bounds_at_locked now c).1
unfolding bounds_at_locked
bounds_at_locked-Keeps now c = ground arith

note_raw-IsSound : (now : ℕ) (c : Clock) → c.raw_floor ≤ now → IsSound c → IsSound (note_raw now c)
unfolding note_raw
note_raw-IsSound now c le s = ground arith

note_raw-Keeps : (now : ℕ) (c : Clock) → c.raw_floor ≤ now → Keeps c (note_raw now c)
unfolding note_raw
note_raw-Keeps now c le = ground arith

pub capture-IsSound : (reading : Reading) (c : Clock) → IsSound c → IsSound (capture reading c).1
unfolding capture
capture-IsSound absent c s = ground arith
capture-IsSound failed c s = ground arith
capture-IsSound (raw (negsuc n)) c s = ground arith
capture-IsSound (raw (pos now)) c s = ground (arith, note_raw-IsSound now c)

pub capture-Keeps : (reading : Reading) (c : Clock) → IsSound c → Keeps c (capture reading c).1
unfolding capture
capture-Keeps absent c s = ground arith
capture-Keeps failed c s = ground arith
capture-Keeps (raw (negsuc n)) c s = ground arith
capture-Keeps (raw (pos now)) c s = ground (arith, note_raw-Keeps now c)

pub task_time_bounds-IsSound :
    (reading : Reading) (c : Clock) → IsSound c → IsSound (task_time_bounds reading c).1
unfolding task_time_bounds
task_time_bounds-IsSound reading c s = elim (Option-cases (capture reading c).0) [
  | inl e ↦ rw (e, task_time_bounds) (capture-IsSound reading c s)
  | inr (now, e) ↦
      rw (e, task_time_bounds) (bounds_at_locked-IsSound now _ (capture-IsSound reading c s))
]

pub task_time_bounds-Keeps :
    (reading : Reading) (c : Clock) → IsSound c → Keeps c (task_time_bounds reading c).1
unfolding task_time_bounds
task_time_bounds-Keeps reading c s = elim (Option-cases (capture reading c).0) [
  | inl e ↦ rw (e, task_time_bounds) (capture-Keeps reading c s)
  | inr (now, e) ↦
      rw (e, task_time_bounds)
        (Keeps-trans (capture-Keeps reading c s) (bounds_at_locked-Keeps now (capture reading c).1))
]

sample_upper_fits :
    (computed_at_ms round_trip uncertainty_ms upper : ℕ)
    → sample_upper computed_at_ms round_trip uncertainty_ms ≡ some upper
    → upper ≤ max_int64
unfolding sample_upper
sample_upper_fits computed_at_ms round_trip uncertainty_ms upper h = ground arith

meet_narrows :
    (old : Option TaskTimeBounds) (b : TaskTimeBounds)
    → (b.lower_ms ≤ (meet old b).lower_ms) × ((meet old b).upper_ms ≤ b.upper_ms)
unfolding meet
meet_narrows none b = omega arith
meet_narrows (some o) b = omega arith

set_anchor-IsSound :
    (computed_at_ms end_at : ℕ) (b : TaskTimeBounds) (c : Clock)
    → end_at ≡ c.raw_floor
    → c.has_raw_floor ≡ true
    → 0 < b.lower_ms
    → b.upper_ms ≤ max_int64
    → IsSound c
    → IsSound (set_anchor computed_at_ms end_at b c).1
unfolding set_anchor
set_anchor-IsSound computed_at_ms end_at b c e seen low high s = ground arith

-- What is left of a sample, at a reading that has just become the floor.
observe_sample-IsSound :
    (computed_at_ms start : ℤ) (end_at : ℕ) (old : Option TaskTimeBounds) (c : Clock)
    → end_at ≡ c.raw_floor
    → c.has_raw_floor ≡ true
    → IsSound c
    → IsSound (observe_sample computed_at_ms start end_at old c).1
unfolding observe_sample
observe_sample-IsSound (pos a) (pos b) end_at old c e seen s =
    elim (Option-cases (sample_upper a (end_at - b) c.uncertainty_ms)) [
      | inl over ↦ ground arith
      | inr (upper, fits) ↦
          let fresh : TaskTimeBounds = record {
            lower_ms = a - c.uncertainty_ms;
            upper_ms = upper;
          } in
          ground (
            arith,
            set_anchor-IsSound a end_at (meet old fresh) c,
            meet_narrows old fresh,
            sample_upper_fits a (end_at - b) c.uncertainty_ms upper,
          )
    ]
observe_sample-IsSound (pos a) (negsuc b) end_at old c e seen s = ground arith
observe_sample-IsSound (negsuc a) b end_at old c e seen s = ground arith

observe_sample-Keeps :
    (computed_at_ms start : ℤ) (end_at : ℕ) (old : Option TaskTimeBounds) (c : Clock)
    → Keeps c (observe_sample computed_at_ms start end_at old c).1
unfolding observe_sample set_anchor
observe_sample-Keeps (pos a) (pos b) end_at old c = ground arith
observe_sample-Keeps (pos a) (negsuc b) end_at old c = ground arith
observe_sample-Keeps (negsuc a) b end_at old c = ground arith

capture_seen :
    (reading : Reading) (c : Clock) (now : ℕ)
    → (capture reading c).0 ≡ some now
    → (now ≡ (capture reading c).1.raw_floor) × ((capture reading c).1.has_raw_floor ≡ true)
unfolding capture note_raw bounds_at_locked
capture_seen absent c now h = ground arith
capture_seen failed c now h = ground arith
capture_seen (raw (negsuc n)) c now h = ground arith
capture_seen (raw (pos n)) c now h = ground arith

bounds_at_locked_seen :
    (now : ℕ) (c : Clock)
    → ((bounds_at_locked now c).1.raw_floor ≡ c.raw_floor)
      × ((bounds_at_locked now c).1.has_raw_floor ≡ c.has_raw_floor)
unfolding bounds_at_locked
bounds_at_locked_seen now c = ground arith

pub observe-IsSound :
    (computed_at_ms start : ℤ) (reading : Reading) (c : Clock)
    → IsSound c
    → IsSound (observe computed_at_ms start reading c).1
unfolding observe
observe-IsSound computed_at_ms start reading c s = elim (Option-cases (capture reading c).0) [
  | inl e ↦ rw (e, observe) (capture-IsSound reading c s)
  | inr (now, e) ↦
      let c₁ : Clock = (capture reading c).1 in
      let kept = bounds_at_locked_seen now c₁ in
      let seen = capture_seen reading c now e in
      rw (e, observe)
        (observe_sample-IsSound computed_at_ms start now _ (bounds_at_locked now c₁).1
          (seen.0 ∙ sym (kept.0)) (kept.1 ∙ seen.1)
          (bounds_at_locked-IsSound now c₁ (capture-IsSound reading c s)))
]

pub observe-Keeps :
    (computed_at_ms start : ℤ) (reading : Reading) (c : Clock)
    → IsSound c
    → Keeps c (observe computed_at_ms start reading c).1
unfolding observe
observe-Keeps computed_at_ms start reading c s = elim (Option-cases (capture reading c).0) [
  | inl e ↦ rw (e, observe) (capture-Keeps reading c s)
  | inr (now, e) ↦
      let c₁ : Clock = (capture reading c).1 in
      rw (e, observe)
        (Keeps-trans (capture-Keeps reading c s) (
          Keeps-trans (bounds_at_locked-Keeps now c₁)
            (observe_sample-Keeps computed_at_ms start now _ (bounds_at_locked now c₁).1)))
]
