-- ===== src/CoreTraffic/Replay.antt =====
-- core_traffic.go: an absolute event is a snapshot, which may be applied again.
use passwall_node.Prelude.{
  ℕ, ◌-◌, ◌≡◌, refl, sym, subst, Bool, true, false, not, ◌&&◌, ◌||◌, some, List, [], ◌∷◌, String,
  str_eq, str_eq→eq, str_eq_refl, to_ℕ, ok, refuse, arith, Bool-cases, Option-cases, inl, inr,
  >>=-eq-ok, plain,
}
use passwall_node.CoreTraffic.Rows.{CoreTrafficEvent, Connection, Traffic, find_connection}
use passwall_node.CoreTraffic.Ledger.{
  apply_core_traffic_event, continue_connection, record_growth, next_counter, metadata_changed,
  reopens, continued, opened, changes,
}
use passwall_node.CoreTraffic.Writes.{Meets, record_growth_again}

changes_self : (x : String) → changes x x ≡ false
changes_self x = rw (str_eq_refl x) (ground arith)

-- An event that has left its row as `c` leaves it so again, and counts nothing.
continue_again :
    (identity : String) (e : CoreTrafficEvent) (c : Connection) (up down : ℕ) (t t' : Traffic)
    → c.process_identity ≡ identity
    → Meets c (find_connection c.process_identity c.connection_id t.connections)
    → record_growth identity c up down t ≡ ok t'
    → c.connection_id ≡ e.connection_id
    → metadata_changed e c ≡ false
    → reopens e c ≡ false
    → next_counter e.absolute c.up_bytes (to_ℕ e.up_bytes) ≡ ok c.up_bytes
    → next_counter e.absolute c.down_bytes (to_ℕ e.down_bytes) ≡ ok c.down_bytes
    → continued e c.up_bytes c.down_bytes c ≡ c
    → apply_core_traffic_event identity e t' ≡ ok t'
unfolding apply_core_traffic_event continue_connection
continue_again identity e c up down t t' own m h id meta open_ a b same =
    let (found, again) = record_growth_again identity c up down t t' own m h in
    let found' = subst (λ i. find_connection identity i t'.connections ≡ some c) id found in
    let zero_up : c.up_bytes - c.up_bytes ≡ 0 = omega arith in
    let zero_down : c.down_bytes - c.down_bytes ≡ 0 = omega arith in
    rw (apply_core_traffic_event, found')
      (rw (meta, open_) (rw (a, b) (rw (same, zero_up, zero_down) again)))

find_connection-key :
    (identity id : String) (rows : List Connection) (c : Connection)
    → find_connection identity id rows ≡ some c
    → (c.process_identity ≡ identity) × (c.connection_id ≡ id)
unfolding find_connection
find_connection-key identity id [] c h = ground (arith, h)
find_connection-key identity id (d ∷ rows) c h =
    elim (Bool-cases (str_eq d.process_identity identity)) [
      | inl x ↦ elim (Bool-cases (str_eq d.connection_id id)) [
        | inl y ↦ ground (
          arith,
          h,
          x,
          y,
          str_eq→eq d.process_identity identity x,
          str_eq→eq d.connection_id id y,
        )
        | inr y ↦ find_connection-key identity id rows c (ground (arith, h, x, y))
      ]
      | inr x ↦ find_connection-key identity id rows c (ground (arith, h, x))
    ]

Meets-continued :
    (identity : String) (e : CoreTrafficEvent) (up down : ℕ) (c : Connection)
    (rows : List Connection)
    → find_connection identity e.connection_id rows ≡ some c
    → Meets (continued e up down c) (find_connection c.process_identity c.connection_id rows)
unfolding Meets
Meets-continued identity e up down c rows f =
    let (x, y) = find_connection-key identity e.connection_id rows c f in
    let own : find_connection c.process_identity c.connection_id rows ≡ some c =
      subst (λ i. find_connection i c.connection_id rows ≡ some c) (sym x)
        (subst (λ j. find_connection identity j rows ≡ some c) (sym y) f) in
    rw own refl

next_counter_again :
    (absolute : Bool) (stored x : ℕ) {y : ℕ}
    → absolute ≡ true
    → next_counter absolute stored x ≡ ok y
    → next_counter absolute y x ≡ ok y
unfolding next_counter
next_counter_again true stored x a h = ground (arith, h)
next_counter_again false stored x a h = ground (arith, a)

closed_again :
    (e : CoreTrafficEvent) (stored : Bool)
    → (stored && not e.closed ≡ false)
    → ((e.closed || stored) && not e.closed) ≡ false
closed_again e stored h = ground (arith, h)

closed_alone : (e : CoreTrafficEvent) → (e.closed && not e.closed) ≡ false
closed_alone e = ground arith

same_counter : (x : ℕ) → next_counter true x x ≡ ok x
unfolding next_counter
same_counter x = ground arith

opened_again :
    (identity : String) (e : CoreTrafficEvent)
    → continued e (to_ℕ e.up_bytes) (to_ℕ e.down_bytes) (opened identity e) ≡ opened identity e
opened_again identity e = ground arith

continued_again :
    (e : CoreTrafficEvent) (up down : ℕ) (c : Connection)
    → continued e up down (continued e up down c) ≡ continued e up down c
continued_again e up down c = ground arith

-- An absolute event that the ledger has accepted, applied once more at once, is accepted again and
-- changes nothing: neither the connection nor a total counts its bytes twice.
pub replayed_event :
    (identity : String) (e : CoreTrafficEvent) (t t' : Traffic)
    → e.absolute ≡ true
    → apply_core_traffic_event identity e t ≡ ok t'
    → apply_core_traffic_event identity e t' ≡ ok t'
unfolding apply_core_traffic_event continue_connection Meets
replayed_event identity e t t' a h =
    elim (Option-cases (find_connection identity e.connection_id t.connections)) [
      | inl f ↦
          (let c : Connection = opened identity e in
            let g : record_growth identity c (to_ℕ e.up_bytes) (to_ℕ e.down_bytes) t ≡ ok t' =
              (rw (apply_core_traffic_event, f, a) at h) in
            continue_again identity e c (to_ℕ e.up_bytes) (to_ℕ e.down_bytes) t t' refl (rw f tt) g
              refl
              (rw (changes_self e.client_key, changes_self e.listener_key, changes_self e.source_ip)
                refl)
              (closed_alone e) (rw a (same_counter (to_ℕ e.up_bytes)))
              (rw a (same_counter (to_ℕ e.down_bytes))) (opened_again identity e))
      | inr (c, f) ↦
          (let h0 : continue_connection identity e c t ≡ ok t' =
              (rw (apply_core_traffic_event, f) at h) in
            let (_, m, h1) = >>=-eq-ok (refuse (metadata_changed e c) plain) _ h0 in
            let (_, o, h2) = >>=-eq-ok (refuse (reopens e c) plain) _ h1 in
            let (up, x, h3) =
              >>=-eq-ok (next_counter e.absolute c.up_bytes (to_ℕ e.up_bytes)) _ h2 in
            let (down, y, h4) =
              >>=-eq-ok (next_counter e.absolute c.down_bytes (to_ℕ e.down_bytes)) _ h3 in
            let (identity_eq, id_eq) =
              find_connection-key identity e.connection_id t.connections c f in
            continue_again identity e (continued e up down c) (up - c.up_bytes)
              (down - c.down_bytes) t t' identity_eq
              (Meets-continued identity e up down c t.connections f) h4 id_eq (ground (arith, m))
              (closed_again e c.closed (ground (arith, o)))
              (next_counter_again e.absolute c.up_bytes (to_ℕ e.up_bytes) a x)
              (next_counter_again e.absolute c.down_bytes (to_ℕ e.down_bytes) a y)
              (continued_again e up down c))
    ]
