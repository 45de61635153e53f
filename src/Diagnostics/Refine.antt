-- ===== src/Diagnostics/Refine.antt =====
-- ring.go: the ring against the list of all events that were written to it.
use native.Mathlib.Nat.{mod-add-mod, mod-eq_of_lt, mod-eq-sub-mod, mod-lt, add-mod_left}
use native.Mathlib.Decide.{dec_lt}
use mathlib.Core.List.{append-nil, append_assoc}
use passwall_node.Prelude.{
  ℕ, zero, suc, ◌+◌, ◌-◌, ◌%◌, ◌≤◌, ◌<◌, min, ◌≡◌, ◌≢◌, refl, sym, ap, ◌∙◌, true, false, List, [],
  ◌∷◌, ◌++◌, length, drop, get_or, set, replicate, if◌then◌else◌, ltb, arith, Bool-cases, inl, inr,
  ℤ, length-append, length-set, length-replicate, get_or-set_self, get_or-set_ne,
  get_or-append_left, get_or-append_right, drop_step, drop_all,
}
use passwall_node.Diagnostics.{
  DiagnosticsEvent, zero_event, Ring, ring_capacity, new_ring, Report, DiagnosticsWire, malformed,
  event_of, record_event, record_all, snapshot_index, snapshot_from, snapshot,
}

-- The ring holds the newest events of a log.
pub record Holds (r : Ring) (log : List DiagnosticsEvent) : Type 0 where
  pub room : 0 < length r.buffer
  pub head_at : r.head ≡ length log % length r.buffer
  pub length_at : r.length ≡ min (length log) (length r.buffer)
  pub kept :
      (i : ℕ)
      → length log ≤ i + length r.buffer
      → i < length log
      → get_or r.buffer (i % length r.buffer) zero_event ≡ get_or log i zero_event

ring_capacity_pos : (n : ℤ) → 0 < ring_capacity n
unfolding ring_capacity
ring_capacity_pos (ℤ.pos n) = ground arith
ring_capacity_pos (ℤ.negsuc n) = omega arith

replicate-Holds :
    (c : ℕ) → 0 < c → Holds (record { buffer = replicate c zero_event; head = 0; length = 0 }) []
replicate-Holds c p =
    let e : length (replicate c zero_event) ≡ c = length-replicate c zero_event in
    record {
      room = omega arith;
      head_at = sym (mod-eq_of_lt {n = 0} (omega arith));
      length_at = omega arith;
      kept = λ i a b. absurd (omega arith);
    }

new_ring-Holds : (n : ℤ) → Holds (new_ring n) []
unfolding new_ring
new_ring-Holds n = replicate-Holds (ring_capacity n) (ring_capacity_pos n)

length-new_ring : (n : ℤ) → length (new_ring n).buffer ≡ ring_capacity n
unfolding new_ring
length-new_ring n = length-replicate (ring_capacity n) zero_event

-- Fewer steps than the ring is long do not come back to the same place.
mod-ne : (c i d : ℕ) → 0 < d → d < c → i % c ≢ (i + d) % c
mod-ne c i d p q = λ e. elim (dec_lt (i % c + d) c) [
  | yes s ↦ omega (arith, e, sym (mod-add-mod i c d), mod-eq_of_lt s)
  | no s ↦ omega (
    arith,
    e,
    sym (mod-add-mod i c d),
    mod-lt i {m = c} (omega arith),
    mod-eq-sub-mod {n = i % c + d} {m = c} (omega arith),
    mod-eq_of_lt {n = i % c + d - c} {m = c} (omega (arith, mod-lt i {m = c} (omega arith))),
  )
]

-- Where the next event is written, it does not overwrite one that stays.
written_apart : (c i n : ℕ) → i < n → suc n ≤ i + c → n % c ≢ i % c
written_apart c i n p q =
    λ e. mod-ne c i (n - i) (omega arith) (omega arith) (sym e ∙ ap (λ k. k % c) (omega arith))

-- The index of the loop of `Snapshot`, as a position in the log.
index_lem :
    (c n l head k : ℕ)
    → 0 < c
    → head ≡ n % c
    → l ≡ min n c
    → (head + k + c - l) % c ≡ (n - l + k) % c
index_lem c n l head k p h e = elim (dec_lt n c) [
  | yes s ↦
      ap (λ t. t % c) {y = c + k} (omega (arith, mod-eq_of_lt s))
      ∙ add-mod_left c k
      ∙ ap (λ t. t % c) (omega arith)
  | no s ↦
      ap (λ t. t % c) {y = n % c + k} (omega arith)
      ∙ (ap (λ t. (t + k) % c) (mod-eq-sub-mod {n = n} {m = c} (omega arith))
          ∙ mod-add-mod (n - c) c k)
      ∙ ap (λ t. t % c) (omega arith)
]

-- `Snapshot` reads what the log holds at its end.
snapshot_from_lem :
    (r : Ring) (log : List DiagnosticsEvent) (left offset : ℕ)
    → Holds r log
    → offset + left ≡ r.length
    → snapshot_from r left offset ≡ drop (length log - left) log
unfolding snapshot_from snapshot_index
snapshot_from_lem r log zero offset h e = sym (drop_all log _ (omega arith))
snapshot_from_lem r log (suc left) offset h e =
    let c : ℕ = length r.buffer in
    let i : ℕ = length log - suc left in
    let at : (r.head + offset + length r.buffer - r.length) % length r.buffer
        ≡ (length log - suc left) % length r.buffer =
      index_lem (length r.buffer) (length log) r.length r.head offset h.room h.head_at h.length_at
      ∙ ap (λ k. k % length r.buffer) (omega (arith, h.length_at)) in
    rw
      (at, h.kept (length log - suc left) (omega (arith, h.length_at)) (omega (arith, h.length_at)))
      (ap (λ l. get_or log (length log - suc left) zero_event ∷ l)
          (snapshot_from_lem r log left (offset + 1) h (omega arith)
            ∙ ap (λ k. drop k log) {y = suc (length log - suc left)} (omega (arith, h.length_at)))
        ∙ sym (drop_step log (length log - suc left) zero_event (omega (arith, h.length_at))))

snapshot-Holds :
    (r : Ring) (log : List DiagnosticsEvent)
    → Holds r log
    → snapshot r ≡ drop (length log - length r.buffer) log
unfolding snapshot
snapshot-Holds r log h =
    snapshot_from_lem r log r.length 0 h (omega arith)
    ∙ ap (λ k. drop k log) (omega (arith, h.length_at))

-- The ring after one more event.
abbrev written : DiagnosticsEvent → Ring → Ring
written e r = record {
  buffer = set r.buffer r.head e;
  head = (r.head + 1) % length r.buffer;
  length = if ltb r.length (length r.buffer) then r.length + 1 else r.length;
}

kept_after :
    (e : DiagnosticsEvent) (r : Ring) (log : List DiagnosticsEvent) (i : ℕ)
    → Holds r log
    → suc (length log) ≤ i + length r.buffer
    → i < suc (length log)
    → get_or (set r.buffer r.head e) (i % length r.buffer) zero_event
      ≡ get_or (log ++ e ∷ []) i zero_event
kept_after e r log i h a b = elim (dec_lt i (length log)) [
  | yes s ↦
      get_or-set_ne r.buffer r.head (i % length r.buffer) e zero_event
        (rw h.head_at (written_apart (length r.buffer) i (length log) s a))
      ∙ h.kept i (omega arith) s
      ∙ sym (get_or-append_left log (e ∷ []) i zero_event s)
  | no s ↦
      (let last : i ≡ length log + 0 = omega arith in
        ap (λ k. get_or (set r.buffer r.head e) k zero_event) {y = r.head}
          (ap (λ k. k % length r.buffer) {y = length log} (omega arith) ∙ sym h.head_at)
        ∙ get_or-set_self r.buffer r.head e zero_event
            (omega (arith, h.head_at, mod-lt (length log) h.room))
        ∙ sym (
            ap (λ k. get_or (log ++ e ∷ []) k zero_event) last
            ∙ get_or-append_right log (e ∷ []) 0 zero_event))
]

written-Holds :
    (e : DiagnosticsEvent) (r : Ring) (log : List DiagnosticsEvent)
    → Holds r log
    → Holds (written e r) (log ++ e ∷ [])
written-Holds e r log h =
    let same : length (set r.buffer r.head e) ≡ length r.buffer = length-set r.buffer r.head e in
    let longer : length (log ++ e ∷ []) ≡ length log + 1 = length-append log (e ∷ []) in
    record {
      room = omega (arith, h.room);
      head_at = rw (same, longer, h.head_at) (mod-add-mod (length log) (length r.buffer) 1);
      length_at = rw (same, longer) (ground (arith, h.length_at));
      kept = λ i. rw (same, longer) λ a b. kept_after e r log i h (omega arith) (omega arith);
    }

-- The specification: the events of the well-formed reports, in order.
module _ (wire : DiagnosticsWire) where
  unfoldable pub events : List Report → List DiagnosticsEvent
  events [] = []
  events (p ∷ ps) = if malformed wire p then events ps else event_of wire p ∷ events ps

  -- One report, as the ring and the specification see it.
  dropped :
      (p : Report) (ps : List Report) (r : Ring)
      → malformed wire p ≡ true
      → (record_event wire p r ≡ r) × (events (p ∷ ps) ≡ events ps)
  unfolding record_event events
  dropped p ps r e = (rw e refl, rw e refl)

  recorded :
      (p : Report) (ps : List Report) (r : Ring)
      → malformed wire p ≡ false
      → (record_event wire p r ≡ written (event_of wire p) r)
        × (events (p ∷ ps) ≡ event_of wire p ∷ events ps)
  unfolding record_event events
  recorded p ps r e = (rw e refl, rw e refl)

  length-record_event :
      (p : Report) (r : Ring) → length (record_event wire p r).buffer ≡ length r.buffer
  unfolding record_event
  length-record_event p r = ground (arith, length-set r.buffer r.head (event_of wire p))

  length-record_all :
      (ps : List Report) (r : Ring) → length (record_all wire ps r).buffer ≡ length r.buffer
  unfolding record_all
  length-record_all [] r = refl
  length-record_all (p ∷ ps) r =
      length-record_all ps (record_event wire p r) ∙ length-record_event p r

  record_all-Holds :
      (ps : List Report) (r : Ring) (log : List DiagnosticsEvent)
      → Holds r log
      → Holds (record_all wire ps r) (log ++ events ps)
  unfolding record_all
  record_all-Holds [] r log h = unfold events in rw (append-nil log) h
  record_all-Holds (p ∷ ps) r log h = elim (Bool-cases (malformed wire p)) [
    | inl e ↦ rw ((dropped p ps r e).0, (dropped p ps r e).1) (record_all-Holds ps r log h)
    | inr e ↦
        rw
          (
            (recorded p ps r e).0,
            (recorded p ps r e).1,
            ← append_assoc log (event_of wire p ∷ []) (events ps),
          )
          (record_all-Holds ps (written (event_of wire p) r) (log ++ event_of wire p ∷ [])
            (written-Holds (event_of wire p) r log h))
  ]

  -- A snapshot of a ring that was built for some capacity and has recorded some reports holds the
  -- newest events of the well-formed reports, oldest first: as many as the capacity, which is the
  -- default one for a capacity that is not positive.
  pub snapshot-record_all :
      (ps : List Report) (n : ℤ)
      → snapshot (record_all wire ps (new_ring n))
        ≡ drop (length (events ps) - ring_capacity n) (events ps)
  snapshot-record_all ps n =
      snapshot-Holds _ (events ps) (record_all-Holds ps (new_ring n) [] (new_ring-Holds n))
      ∙ ap (λ k. drop (length (events ps) - k) (events ps))
          (length-record_all ps (new_ring n) ∙ length-new_ring n)
