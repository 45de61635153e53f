-- ===== src/CoreTraffic/Conservation.antt =====
-- core_traffic.go: what one call of `ApplyCoreTrafficEvents` adds to the totals.
use passwall_node.Prelude.{
  ℕ, ◌+◌, ◌-◌, ◌≡◌, Bool, true, false, ◌&&◌, Option, none, some, List, [], ◌∷◌, String, str_eq,
  str_eq_refl, if◌then◌else◌, to_ℕ, checked_add, ok, refuse, arith, Bool-cases, Option-cases, inl,
  inr, >>=-eq-ok, transact-ok, plain,
}
use passwall_node.CoreTraffic.Rows.{
  CoreTrafficEvent, Connection, Traffic, Total, Stream, find_connection, find_total, write_total,
  up_of, down_of, increment_core_aggregate, add_non_negative,
}
use passwall_node.CoreTraffic.Ledger.{
  apply_core_traffic_event, continue_connection, record_growth, next_counter, metadata_changed,
  reopens, continued,
}
use passwall_node.CoreTraffic.{
  Wire, apply_core_traffic_events, apply_events, prepare_core_traffic_stream, prune_connections,
  marked_ready, validate_process_identity, validate_events, verify_core_traffic_reset_coverage,
}

-- The sums of the counters of a table.
unfoldable pub sum_up : List Total → ℕ
sum_up [] = 0
sum_up (t ∷ ts) = t.up_bytes + sum_up ts

unfoldable pub sum_down : List Total → ℕ
sum_down [] = 0
sum_down (t ∷ ts) = t.down_bytes + sum_down ts

-- `new` is `old` with `up` and `down` bytes more.
abbrev pub Grows : ℕ → ℕ → List Total → List Total → Type 0
Grows up down old new = (sum_up new ≡ sum_up old + up) × (sum_down new ≡ sum_down old + down)

-- The clients and the listeners have grown by the same counts.
abbrev pub BothGrow : ℕ → ℕ → Traffic → Traffic → Type 0
BothGrow up down t t' = Grows up down t.clients t'.clients × Grows up down t.listeners t'.listeners

sum_up-write_total :
    (new : Total) (rows : List Total)
    → sum_up (write_total new rows) + up_of (find_total new.process_identity new.key rows)
      ≡ sum_up rows + new.up_bytes
unfolding sum_up write_total find_total
sum_up-write_total new [] = ground arith
sum_up-write_total new (t ∷ ts) =
    elim (Bool-cases (str_eq t.process_identity new.process_identity && str_eq t.key new.key)) [
      | inl e ↦ rw e (omega arith)
      | inr e ↦ rw e (omega (arith, sum_up-write_total new ts))
    ]

sum_down-write_total :
    (new : Total) (rows : List Total)
    → sum_down (write_total new rows) + down_of (find_total new.process_identity new.key rows)
      ≡ sum_down rows + new.down_bytes
unfolding sum_down write_total find_total
sum_down-write_total new [] = ground arith
sum_down-write_total new (t ∷ ts) =
    elim (Bool-cases (str_eq t.process_identity new.process_identity && str_eq t.key new.key)) [
      | inl e ↦ rw e (omega arith)
      | inr e ↦ rw e (omega (arith, sum_down-write_total new ts))
    ]

add_non_negative_lem : (a b : ℕ) {s : ℕ} → add_non_negative a b ≡ ok s → s ≡ a + b
unfolding add_non_negative checked_add
add_non_negative_lem a b h = ground (arith, h)

increment-Grows :
    (identity key : String) (up down : ℕ) (rows rows' : List Total)
    → increment_core_aggregate identity key up down rows ≡ ok rows'
    → Grows up down rows rows'
unfolding increment_core_aggregate
increment-Grows identity key up down rows rows' h =
    let (a, x, h1) = >>=-eq-ok (add_non_negative (up_of (find_total identity key rows)) up) _ h in
    let (b, y, h2) =
      >>=-eq-ok (add_non_negative (down_of (find_total identity key rows)) down) _ h1 in
    let new : Total = record {
      process_identity = identity;
      key = key;
      up_bytes = a;
      down_bytes = b;
    } in
    let written : rows' ≡ write_total new rows = ground (arith, h2) in
    let ea = add_non_negative_lem _ up x in
    let eb = add_non_negative_lem _ down y in
    rw written (
      omega (arith, sum_up-write_total new rows, ea),
      omega (arith, sum_down-write_total new rows, eb),
    )

record_growth-BothGrow :
    (identity : String) (c : Connection) (up down : ℕ) (t t' : Traffic)
    → record_growth identity c up down t ≡ ok t'
    → BothGrow up down t t' × (t'.stream ≡ t.stream)
unfolding record_growth
record_growth-BothGrow identity c up down t t' h =
    let (cs, x, h1) =
      >>=-eq-ok (increment_core_aggregate identity c.client_key up down t.clients) _ h in
    let (ls, y, h2) =
      >>=-eq-ok (increment_core_aggregate identity c.listener_key up down t.listeners) _ h1 in
    let clients : t'.clients ≡ cs = ground (arith, h2) in
    let listeners : t'.listeners ≡ ls = ground (arith, h2) in
    (
      (
        rw clients (increment-Grows identity c.client_key up down t.clients cs x),
        rw listeners (increment-Grows identity c.listener_key up down t.listeners ls y),
      ),
      ground (arith, h2),
    )

-- How much an event adds.
abbrev Growth : Traffic → Traffic → Type 0
Growth t t' = (up down : ℕ) × BothGrow up down t t'

event-BothGrow :
    (identity : String) (e : CoreTrafficEvent) (t t' : Traffic)
    → apply_core_traffic_event identity e t ≡ ok t'
    → Growth t t'
unfolding apply_core_traffic_event continue_connection
event-BothGrow identity e t t' h =
    elim (Option-cases (find_connection identity e.connection_id t.connections)) [
      | inl f ↦ elim (Bool-cases e.absolute) [
        | inl a ↦ (
          to_ℕ e.up_bytes,
          to_ℕ e.down_bytes,
          (record_growth-BothGrow identity _ (to_ℕ e.up_bytes) (to_ℕ e.down_bytes) t t'
              (rw (apply_core_traffic_event, f, a) at h)).0,
        )
        | inr a ↦ ground (arith, h, f, a)
      ]
      | inr (c, f) ↦
          (let h0 : continue_connection identity e c t ≡ ok t' =
              (rw (apply_core_traffic_event, f) at h) in
            let (_, _, h1) = >>=-eq-ok (refuse (metadata_changed e c) plain) _ h0 in
            let (_, _, h2) = >>=-eq-ok (refuse (reopens e c) plain) _ h1 in
            let (up, _, h3) =
              >>=-eq-ok (next_counter e.absolute c.up_bytes (to_ℕ e.up_bytes)) _ h2 in
            let (down, _, h4) =
              >>=-eq-ok (next_counter e.absolute c.down_bytes (to_ℕ e.down_bytes)) _ h3 in
            (
              up - c.up_bytes,
              down - c.down_bytes,
              (record_growth-BothGrow identity (continued e up down c) (up - c.up_bytes)
                  (down - c.down_bytes) t t' h4).0,
            ))
    ]

events-BothGrow :
    (identity : String) (es : List CoreTrafficEvent) (t t' : Traffic)
    → apply_events identity es t ≡ ok t'
    → Growth t t'
unfolding apply_events
events-BothGrow identity [] t t' h = (0, 0, ground (arith, h))
events-BothGrow identity (e ∷ es) t t' h =
    let (t1, first, rest) = >>=-eq-ok (apply_core_traffic_event identity e t) _ h in
    let (u, d, g) = event-BothGrow identity e t t1 first in
    let (u', d', g') = events-BothGrow identity es t1 t' rest in
    (u + u', d + d', ground (arith, g, g'))

-- The stream is that of the process, or there is none yet.
abbrev pub SameProcess : String → Option Stream → Type 0
SameProcess identity none = Unit
SameProcess identity (some s) = s.process_identity ≡ identity

prepare_same :
    (identity : String) (reset : Bool) (t t' : Traffic)
    → SameProcess identity t.stream
    → prepare_core_traffic_stream identity reset t ≡ ok t'
    → (t'.clients ≡ t.clients) × (t'.listeners ≡ t.listeners)
unfolding prepare_core_traffic_stream
prepare_same identity reset t t' same h = elim (Option-cases t.stream) [
  | inl f ↦ ground (arith, (rw f at h))
  | inr (s, f) ↦
      (let own : s.process_identity ≡ identity = (rw f at same) in
        let eq : str_eq s.process_identity identity ≡ true = rw own (str_eq_refl identity) in
        ground (arith, (rw (f, eq) at h)))
]

-- The end of the call leaves the totals.
kept_totals :
    (identity : String) (reset : Bool) (a t' : Traffic)
    → (prune_connections identity (marked_ready reset a)) ≡ t'
    → (t'.clients ≡ a.clients) × (t'.listeners ≡ a.listeners)
unfolding prune_connections
kept_totals identity true a t' h = ground (arith, h)
kept_totals identity false a t' h = ground (arith, h)

-- When the events of a core process whose stream is the stored one, or the first one, are applied with
-- success, the totals of the clients and the totals of the listeners grow by the same bytes, in each
-- direction: what is counted for one is counted for the other.
pub apply_core_traffic_events-BothGrow :
    (wire : Wire) (identity : String) (reset : Bool) (events : List CoreTrafficEvent)
    (t t' : Traffic)
    → SameProcess identity t.stream
    → apply_core_traffic_events wire identity reset events t ≡ (t', ok tt)
    → (up down : ℕ) × BothGrow up down t t'
unfolding apply_core_traffic_events
apply_core_traffic_events-BothGrow wire identity reset events t t' same h =
    let e = transact-ok t _ h in
    let (_, _, e1) = >>=-eq-ok (validate_process_identity identity) _ e in
    let (_, _, e2) = >>=-eq-ok (validate_events wire reset events) _ e1 in
    let (_, _, e3) =
      >>=-eq-ok (if reset then verify_core_traffic_reset_coverage identity events t else ok tt) _
        e2 in
    let (p, prep, e4) = >>=-eq-ok (prepare_core_traffic_stream identity reset t) _ e3 in
    let (a, run, e5) = >>=-eq-ok (apply_events identity events p) _ e4 in
    let (u, d, g) = events-BothGrow identity events p a run in
    let kept = prepare_same identity reset t p same prep in
    let ended = kept_totals identity reset a t' (ground (arith, e5)) in
    (u, d, ground (arith, g, kept, ended))
