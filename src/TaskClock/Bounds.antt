-- ===== src/TaskClock/Bounds.antt =====
-- task_clock.go against the time that it bounds: the control plane's clock, read in nanoseconds,
-- stands at `base` when the elapsed counter stands at 0, and the two advance together.
use passwall_node.Prelude.{
  ℕ, ◌+◌, ◌-◌, ◌*◌, ◌≤◌, ◌≡◌, refl, sym, ◌∙◌, true, false, Option, none, some, Option-cases, inl,
  inr, arith, ℤ, pos, negsuc,
}
use passwall_node.TaskClock.{
  millisecond, TaskTimeBounds, Reading, absent, failed, raw, Clock, bounds_at_locked, note_raw,
  capture, task_time_bounds, meet, set_anchor, sample_upper, observe_sample, observe,
}

-- The interval holds the control plane's time at the reading `now`.
pub record Holds (base now : ℕ) (b : TaskTimeBounds) : Type 0 where
  pub below : b.lower_ms * millisecond ≤ base + now
  pub above : base + now ≤ b.upper_ms * millisecond

-- What the clock stores is true of the control plane's time.
pub record IsTruthful (base : ℕ) (c : Clock) : Type 0 where
  pub anchor_below : c.has_anchor ≡ true → c.anchor_lower_ms * millisecond ≤ base + c.anchor_at
  pub anchor_above : c.has_anchor ≡ true → base + c.anchor_at ≤ c.anchor_upper_ms * millisecond
  pub no_floor : c.has_raw_floor ≡ false → c.raw_floor ≡ 0
  pub floor_below : c.trusted_lower_floor * millisecond ≤ base + c.raw_floor

-- The response was computed at an instant `sent` of the round trip that ends at `end_at`, and its
-- stamp is off by at most the uncertainty.
pub record IsHonest (base uncertainty_ms computed_at_ms start end_at : ℕ) : Type 0 where
  pub sent : ℕ
  pub after_start : start ≤ sent
  pub before_end : sent ≤ end_at
  pub not_late : computed_at_ms * millisecond ≤ base + sent + uncertainty_ms * millisecond
  pub not_early : base + sent ≤ computed_at_ms * millisecond + uncertainty_ms * millisecond

-- A sample may be anything; if it is well-formed, then it is honest.
abbrev pub IsHonestSample : ℕ → ℕ → ℤ → ℤ → ℕ → Type 0
IsHonestSample base uncertainty_ms computed_at_ms start end_at =
    (a b : ℕ) → computed_at_ms ≡ pos a → start ≡ pos b → IsHonest base uncertainty_ms a b end_at

-- A reading at the floor leaves the clock truthful.
bounds_at_locked-IsTruthful :
    (base now : ℕ) (c : Clock)
    → now ≡ c.raw_floor
    → IsTruthful base c
    → IsTruthful base (bounds_at_locked now c).1
unfolding bounds_at_locked
bounds_at_locked-IsTruthful base now c e t = ground arith

bounds_at_locked-Holds :
    (base now : ℕ) (c : Clock) (b : TaskTimeBounds)
    → IsTruthful base c
    → (bounds_at_locked now c).0 ≡ some b
    → Holds base now b
unfolding bounds_at_locked
bounds_at_locked-Holds base now c b t h = ground arith

note_raw-IsTruthful :
    (base now : ℕ) (c : Clock)
    → c.raw_floor ≤ now
    → IsTruthful base c
    → IsTruthful base (note_raw now c)
unfolding note_raw
note_raw-IsTruthful base now c le t = ground arith

pub capture-IsTruthful :
    (base : ℕ) (reading : Reading) (c : Clock)
    → IsTruthful base c
    → IsTruthful base (capture reading c).1
unfolding capture
capture-IsTruthful base absent c t = ground arith
capture-IsTruthful base failed c t = ground arith
capture-IsTruthful base (raw (negsuc n)) c t = ground arith
capture-IsTruthful base (raw (pos now)) c t = ground (arith, note_raw-IsTruthful base now c)

pub capture-value :
    (reading : Reading) (c : Clock) (now : ℕ)
    → (capture reading c).0 ≡ some now
    → reading ≡ raw (pos now)
unfolding capture
capture-value absent c now h = ground arith
capture-value failed c now h = ground arith
capture-value (raw (negsuc n)) c now h = ground arith
capture-value (raw (pos n)) c now h = ground arith

-- What `Capture` returns is the floor that it leaves.
capture-raw_floor :
    (reading : Reading) (c : Clock) (now : ℕ)
    → (capture reading c).0 ≡ some now
    → now ≡ (capture reading c).1.raw_floor
unfolding capture bounds_at_locked note_raw
capture-raw_floor absent c now h = ground arith
capture-raw_floor failed c now h = ground arith
capture-raw_floor (raw (negsuc n)) c now h = ground arith
capture-raw_floor (raw (pos n)) c now h = ground arith

-- Every interval that the clock gives out holds the control plane's time at its reading.
pub task_time_bounds-Holds :
    (base : ℕ) (reading : Reading) (c : Clock) (b : TaskTimeBounds)
    → IsTruthful base c
    → (task_time_bounds reading c).0 ≡ some b
    → (now : ℕ) × (reading ≡ raw (pos now)) × Holds base now b
unfolding task_time_bounds
task_time_bounds-Holds base reading c b t h = elim (Option-cases (capture reading c).0) [
  | inl e ↦ absurd (cc (e, h))
  | inr (now, e) ↦ (
    now,
    capture-value reading c now e,
    bounds_at_locked-Holds base now _ b (capture-IsTruthful base reading c t) (cc (e, h)),
  )
]

pub task_time_bounds-IsTruthful :
    (base : ℕ) (reading : Reading) (c : Clock)
    → IsTruthful base c
    → IsTruthful base (task_time_bounds reading c).1
unfolding task_time_bounds
task_time_bounds-IsTruthful base reading c t = elim (Option-cases (capture reading c).0) [
  | inl e ↦ rw (e, task_time_bounds) (capture-IsTruthful base reading c t)
  | inr (now, e) ↦
      rw (e, task_time_bounds)
        (bounds_at_locked-IsTruthful base now _ (capture-raw_floor reading c now e)
          (capture-IsTruthful base reading c t))
]

sample_upper-above :
    (computed_at_ms round_trip uncertainty_ms upper : ℕ)
    → sample_upper computed_at_ms round_trip uncertainty_ms ≡ some upper
    → (computed_at_ms + uncertainty_ms) * millisecond + round_trip ≤ upper * millisecond
unfolding sample_upper
sample_upper-above computed_at_ms round_trip uncertainty_ms upper h = ground arith

set_anchor-IsTruthful :
    (base computed_at_ms end_at : ℕ) (b : TaskTimeBounds) (c : Clock)
    → end_at ≡ c.raw_floor
    → Holds base end_at b
    → IsTruthful base c
    → IsTruthful base (set_anchor computed_at_ms end_at b c).1
unfolding set_anchor
set_anchor-IsTruthful base computed_at_ms end_at b c e holds t = ground arith

meet-Holds :
    (base now : ℕ) (old : Option TaskTimeBounds) (b : TaskTimeBounds)
    → ((o : TaskTimeBounds) → old ≡ some o → Holds base now o)
    → Holds base now b
    → Holds base now (meet old b)
unfolding meet
meet-Holds base now none b before h = h
meet-Holds base now (some o) b before h = ground (arith, before o)

sample-Holds :
    (base computed_at_ms start end_at upper : ℕ) (c : Clock)
    → sample_upper computed_at_ms (end_at - start) c.uncertainty_ms ≡ some upper
    → IsHonest base c.uncertainty_ms computed_at_ms start end_at
    → Holds base end_at (record { lower_ms = computed_at_ms - c.uncertainty_ms; upper_ms = upper })
sample-Holds base computed_at_ms start end_at upper c e honest =
    ground (arith, sample_upper-above computed_at_ms (end_at - start) c.uncertainty_ms upper e)

-- An honest sample keeps the clock truthful, whether it is accepted or refused.
observe_sample-IsTruthful :
    (base : ℕ) (computed_at_ms start : ℤ) (end_at : ℕ) (old : Option TaskTimeBounds) (c : Clock)
    → end_at ≡ c.raw_floor
    → ((o : TaskTimeBounds) → old ≡ some o → Holds base end_at o)
    → IsHonestSample base c.uncertainty_ms computed_at_ms start end_at
    → IsTruthful base c
    → IsTruthful base (observe_sample computed_at_ms start end_at old c).1
unfolding observe_sample
observe_sample-IsTruthful base (pos a) (pos b) end_at old c e before honest t =
    elim (Option-cases (sample_upper a (end_at - b) c.uncertainty_ms)) [
      | inl over ↦ ground arith
      | inr (upper, fits) ↦
          let fresh : TaskTimeBounds = record {
            lower_ms = a - c.uncertainty_ms;
            upper_ms = upper;
          } in
          ground (
            arith,
            set_anchor-IsTruthful base a end_at (meet old fresh) c e
                (meet-Holds base end_at old fresh before
                  (sample-Holds base a b end_at upper c fits (honest a b refl refl)))
                t,
          )
    ]
observe_sample-IsTruthful base (pos a) (negsuc b) end_at old c e before honest t = ground arith
observe_sample-IsTruthful base (negsuc a) b end_at old c e before honest t = ground arith

bounds_at_locked_kept :
    (now : ℕ) (c : Clock)
    → ((bounds_at_locked now c).1.raw_floor ≡ c.raw_floor)
      × ((bounds_at_locked now c).1.uncertainty_ms ≡ c.uncertainty_ms)
unfolding bounds_at_locked
bounds_at_locked_kept now c = ground arith

capture_kept :
    (reading : Reading) (c : Clock) → (capture reading c).1.uncertainty_ms ≡ c.uncertainty_ms
unfolding capture
capture_kept absent c = ground arith
capture_kept failed c = ground arith
capture_kept (raw (negsuc n)) c = ground arith
capture_kept (raw (pos n)) c =
    ground (arith, bounds_at_locked_kept n (record c { has_raw_floor = true; raw_floor = n }))

-- `Observe` of an honest sample keeps the clock truthful.
pub observe-IsTruthful :
    (base : ℕ) (computed_at_ms start : ℤ) (reading : Reading) (c : Clock)
    → ((end_at : ℕ)
        → reading ≡ raw (pos end_at)
        → IsHonestSample base c.uncertainty_ms computed_at_ms start end_at)
    → IsTruthful base c
    → IsTruthful base (observe computed_at_ms start reading c).1
unfolding observe
observe-IsTruthful base computed_at_ms start reading c honest t =
    elim (Option-cases (capture reading c).0) [
      | inl e ↦ rw (e, observe) (capture-IsTruthful base reading c t)
      | inr (now, e) ↦
          let c₁ : Clock = (capture reading c).1 in
          let t₁ : IsTruthful base c₁ = capture-IsTruthful base reading c t in
          let floor : now ≡ c₁.raw_floor = capture-raw_floor reading c now e in
          let same : (bounds_at_locked now c₁).1.uncertainty_ms ≡ c.uncertainty_ms =
            (bounds_at_locked_kept now c₁).1 ∙ capture_kept reading c in
          rw (e, observe)
            (observe_sample-IsTruthful base computed_at_ms start now _ (bounds_at_locked now c₁).1
              (floor ∙ sym ((bounds_at_locked_kept now c₁).0))
              (λ o. bounds_at_locked-Holds base now c₁ o t₁)
              (rw same (honest now (capture-value reading c now e)))
              (bounds_at_locked-IsTruthful base now c₁ floor t₁))
    ]
