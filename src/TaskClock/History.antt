-- ===== src/TaskClock/History.antt =====
-- task_clock.go over a whole run: the calls of `Synchronizer` and of the task store, in any order.
use passwall_node.Prelude.{ℕ, ◌≡◌, false, none, some, arith, ℤ, pos, negsuc, to_ℕ}
use passwall_node.TaskClock.{
  TaskTimeBounds, Reading, absent, failed, raw, Clock, ceil_task_clock_ms, bounds_at_locked,
  note_raw, capture, task_time_bounds, observe, new, unanchored,
}
use passwall_node.TaskClock.Invariant.{
  IsSound, Keeps, Keeps-trans, capture-IsSound, capture-Keeps, task_time_bounds-IsSound,
  task_time_bounds-Keeps, observe-IsSound, observe-Keeps,
}
use passwall_node.TaskClock.Bounds.{
  Holds, IsTruthful, IsHonestSample, capture-IsTruthful, task_time_bounds-IsTruthful,
  task_time_bounds-Holds, observe-IsTruthful,
}

-- What is known of a sample that a call of `Observe` on a clock brings: the stamp, the start of the
-- request, and the reading at the answer.
abbrev pub Samples : Type 1
Samples = Clock → ℤ → ℤ → Reading → Type 0

-- Any sample, however wrong
abbrev pub any_sample : Samples
any_sample c computed_at_ms start reading = Unit

-- The samples that are honest about a control plane whose clock stands at `base` at first
abbrev pub honest : ℕ → Samples
honest base c computed_at_ms start reading =
    (end_at : ℕ)
    → reading ≡ raw (pos end_at)
    → IsHonestSample base c.uncertainty_ms computed_at_ms start end_at

-- One call of a method, with samples of a kind.
pub data Call (known : Samples) : Clock → Clock → Type 0 where
  captured : (reading : Reading) (c : Clock) → Call known c (capture reading c).1
  bounded : (reading : Reading) (c : Clock) → Call known c (task_time_bounds reading c).1
  observed :
      (computed_at_ms start : ℤ) (reading : Reading) (c : Clock)
      → known c computed_at_ms start reading
      → Call known c (observe computed_at_ms start reading c).1

pub data Run (known : Samples) (c : Clock) : Clock → Type 0 where
  here : Run known c c
  after : {d e : Clock} → Run known c d → Call known d e → Run known c e

Call-IsTruthful :
    {base : ℕ} {c d : Clock} → Call (honest base) c d → IsTruthful base c → IsTruthful base d
Call-IsTruthful {base} (captured reading c) t = capture-IsTruthful base reading c t
Call-IsTruthful {base} (bounded reading c) t = task_time_bounds-IsTruthful base reading c t
Call-IsTruthful {base} (observed computed_at_ms start reading c known) t =
    observe-IsTruthful base computed_at_ms start reading c known t

pub Run-IsTruthful :
    {base : ℕ} {c d : Clock} → Run (honest base) c d → IsTruthful base c → IsTruthful base d
Run-IsTruthful here t = t
Run-IsTruthful (after r k) t = Call-IsTruthful k (Run-IsTruthful r t)

Call-IsSound : {known : Samples} {c d : Clock} → Call known c d → IsSound c → IsSound d
Call-IsSound (captured reading c) s = capture-IsSound reading c s
Call-IsSound (bounded reading c) s = task_time_bounds-IsSound reading c s
Call-IsSound (observed computed_at_ms start reading c known) s =
    observe-IsSound computed_at_ms start reading c s

Call-Keeps : {known : Samples} {c d : Clock} → Call known c d → IsSound c → Keeps c d
Call-Keeps (captured reading c) s = capture-Keeps reading c s
Call-Keeps (bounded reading c) s = task_time_bounds-Keeps reading c s
Call-Keeps (observed computed_at_ms start reading c known) s =
    observe-Keeps computed_at_ms start reading c s

new-capture :
    (age trip uncertainty : ℤ) (reading : Reading) (c : Clock)
    → new age trip uncertainty reading ≡ some c
    → c
      ≡ (capture reading
          (unanchored (to_ℕ age) (to_ℕ trip) (ceil_task_clock_ms (to_ℕ uncertainty)))).1
unfolding new
new-capture age trip uncertainty reading c h = ground arith

new-IsTruthful :
    (base : ℕ) (age trip uncertainty : ℤ) (reading : Reading) (c : Clock)
    → new age trip uncertainty reading ≡ some c
    → IsTruthful base c
new-IsTruthful base age trip uncertainty reading c h =
    rw (new-capture age trip uncertainty reading c h)
      (capture-IsTruthful base reading _ (ground arith))

pub new-IsSound :
    (age trip uncertainty : ℤ) (reading : Reading) (c : Clock)
    → new age trip uncertainty reading ≡ some c
    → IsSound c
new-IsSound age trip uncertainty reading c h =
    rw (new-capture age trip uncertainty reading c h) (capture-IsSound reading _ (ground arith))

-- From a sound clock every run, whatever its samples are, keeps the anchor a non-empty interval of
-- positive instants, and the lower floor, the reading floor, the highest response stamp and the
-- options never go back.
pub Run-IsSound : (c d : Clock) → Run any_sample c d → IsSound c → IsSound d × Keeps c d
Run-IsSound c d here s = (s, ground arith)
Run-IsSound c d (after {d = m} r k) s =
    let before = Run-IsSound c m r s in
    (Call-IsSound k before.0, Keeps-trans before.1 (Call-Keeps k before.0))

-- After any run of a new clock over honest samples, an interval that `TaskTimeBounds` gives holds
-- the control plane's time at the reading that the call takes.
pub Run-bounds-Holds :
    (base : ℕ) (age trip uncertainty : ℤ) (probe reading : Reading) (c d : Clock)
    (b : TaskTimeBounds)
    → new age trip uncertainty probe ≡ some c
    → Run (honest base) c d
    → (task_time_bounds reading d).0 ≡ some b
    → (now : ℕ) × (reading ≡ raw (pos now)) × Holds base now b
Run-bounds-Holds base age trip uncertainty probe reading c d b made r h =
    task_time_bounds-Holds base reading d b
      (Run-IsTruthful r (new-IsTruthful base age trip uncertainty probe c made)) h

-- Calls that bring no sample.
pub data Idle (c : Clock) : Clock → Type 0 where
  rest : Idle c c
  capture_next : {d : Clock} (reading : Reading) → Idle c d → Idle c (capture reading d).1
  bounds_next : {d : Clock} (reading : Reading) → Idle c d → Idle c (task_time_bounds reading d).1

capture-no_anchor :
    (reading : Reading) (c : Clock)
    → c.has_anchor ≡ false
    → (capture reading c).1.has_anchor ≡ false
unfolding capture note_raw
capture-no_anchor absent c h = ground arith
capture-no_anchor failed c h = ground arith
capture-no_anchor (raw (negsuc n)) c h = ground arith
capture-no_anchor (raw (pos n)) c h = ground arith

bounds-no_anchor :
    (reading : Reading) (c : Clock)
    → c.has_anchor ≡ false
    → ((task_time_bounds reading c).0 ≡ none) × ((task_time_bounds reading c).1.has_anchor ≡ false)
unfolding task_time_bounds bounds_at_locked
bounds-no_anchor reading c h = ground (arith, capture-no_anchor reading c h)

Idle-no_anchor : {c d : Clock} → Idle c d → c.has_anchor ≡ false → d.has_anchor ≡ false
Idle-no_anchor rest h = h
Idle-no_anchor (capture_next {d} reading r) h = capture-no_anchor reading d (Idle-no_anchor r h)
Idle-no_anchor (bounds_next {d} reading r) h = (bounds-no_anchor reading d (Idle-no_anchor r h)).1

capture_fault :
    (reading : Reading) (c : Clock)
    → (capture reading c).0 ≡ none
    → (capture reading c).1.has_anchor ≡ false
unfolding capture
capture_fault absent c h = ground arith
capture_fault failed c h = ground arith
capture_fault (raw (negsuc n)) c h = ground arith
capture_fault (raw (pos n)) c h = ground arith

-- A fault of the counter, or a reading below one that was seen, takes the authorization away: no
-- call gives an interval until a new sample is observed.
pub fault_holds_tasks :
    (reading later : Reading) (c d : Clock)
    → (capture reading c).0 ≡ none
    → Idle (capture reading c).1 d
    → (task_time_bounds later d).0 ≡ none
fault_holds_tasks reading later c d h r =
    (bounds-no_anchor later d (Idle-no_anchor r (capture_fault reading c h))).0
