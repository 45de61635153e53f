-- ===== src/CoreTraffic/Writes.antt =====
-- core_traffic.go: the writes of an event, done again.
use passwall_node.Prelude.{
  ℕ, ◌≡◌, refl, sym, subst, ap, ◌&&◌, Option, none, some, List, [], ◌∷◌, String, str_eq,
  str_eq_refl, checked_add, ok, arith, Bool-cases, inl, inr, >>=-eq-ok,
}
use passwall_node.CoreTraffic.Rows.{
  Connection, Traffic, Total, find_connection, write_connection, find_total, write_total, up_of,
  down_of, increment_core_aggregate, add_non_negative,
}
use passwall_node.CoreTraffic.Ledger.{record_growth}

find_total-write_total :
    (new : Total) (rows : List Total)
    → find_total new.process_identity new.key (write_total new rows) ≡ some new
unfolding find_total write_total
find_total-write_total new [] = rw (str_eq_refl new.process_identity, str_eq_refl new.key) refl
find_total-write_total new (t ∷ ts) =
    elim (Bool-cases (str_eq t.process_identity new.process_identity && str_eq t.key new.key)) [
      | inl e ↦ rw e (rw (str_eq_refl new.process_identity, str_eq_refl new.key) refl)
      | inr e ↦ rw e (rw e (find_total-write_total new ts))
    ]

write_total_again :
    (new : Total) (rows : List Total)
    → find_total new.process_identity new.key rows ≡ some new
    → write_total new rows ≡ rows
unfolding find_total write_total
write_total_again new [] h = ground (arith, h)
write_total_again new (t ∷ ts) h =
    elim (Bool-cases (str_eq t.process_identity new.process_identity && str_eq t.key new.key)) [
      | inl e ↦ rw e (ground (arith, (rw e at h)))
      | inr e ↦ rw e (ap (λ x. t ∷ x) (write_total_again new ts (rw e at h)))
    ]

add_zero : (a b : ℕ) {s : ℕ} → add_non_negative a b ≡ ok s → add_non_negative s 0 ≡ ok s
unfolding add_non_negative checked_add
add_zero a b h = ground (arith, h)

-- A total that has grown may grow by nothing.
increment_again :
    (identity key : String) (up down : ℕ) (rows rows' : List Total)
    → increment_core_aggregate identity key up down rows ≡ ok rows'
    → increment_core_aggregate identity key 0 0 rows' ≡ ok rows'
unfolding increment_core_aggregate
increment_again identity key up down rows rows' h =
    let (a, x, h1) = >>=-eq-ok (add_non_negative (up_of (find_total identity key rows)) up) _ h in
    let (b, y, h2) =
      >>=-eq-ok (add_non_negative (down_of (find_total identity key rows)) down) _ h1 in
    let new : Total = record {
      process_identity = identity;
      key = key;
      up_bytes = a;
      down_bytes = b;
    } in
    let written : rows' ≡ write_total new rows = ground (arith, h2) in
    let found : find_total identity key rows' ≡ some new =
      rw written (find_total-write_total new rows) in
    rw found (rw (add_zero _ up x, add_zero _ down y) (ap ok (write_total_again new rows' found)))

-- What a write of `new` needs of the row that it meets: it keeps the columns that are not written.
unfoldable pub Meets : Connection → Option Connection → Type 0
Meets new none = Unit
Meets new (some c) =
    record c {
      up_bytes = new.up_bytes;
      down_bytes = new.down_bytes;
      closed = new.closed;
      closed_at_ms = new.closed_at_ms;
    }
    ≡ new

find_connection-write_connection :
    (new : Connection) (rows : List Connection)
    → Meets new (find_connection new.process_identity new.connection_id rows)
    → find_connection new.process_identity new.connection_id (write_connection new rows) ≡ some new
unfolding find_connection write_connection Meets
find_connection-write_connection new [] m =
    rw (str_eq_refl new.process_identity, str_eq_refl new.connection_id) refl
find_connection-write_connection new (c ∷ cs) m =
    elim (Bool-cases (
      str_eq c.process_identity new.process_identity && str_eq c.connection_id new.connection_id)) [
        | inl e ↦ rw e (rw e (ap some (rw e at m)))
        | inr e ↦ rw e (rw e (find_connection-write_connection new cs (rw e at m)))
      ]

write_connection_again :
    (new : Connection) (rows : List Connection)
    → find_connection new.process_identity new.connection_id rows ≡ some new
    → write_connection new rows ≡ rows
unfolding find_connection write_connection
write_connection_again new [] h = ground (arith, h)
write_connection_again new (c ∷ cs) h =
    elim (Bool-cases (
      str_eq c.process_identity new.process_identity && str_eq c.connection_id new.connection_id)) [
        | inl e ↦ rw e (ground (arith, (rw e at h)))
        | inr e ↦ rw e (ap (λ x. c ∷ x) (write_connection_again new cs (rw e at h)))
      ]

pub record_growth_again :
    (identity : String) (c : Connection) (up down : ℕ) (t t' : Traffic)
    → c.process_identity ≡ identity
    → Meets c (find_connection c.process_identity c.connection_id t.connections)
    → record_growth identity c up down t ≡ ok t'
    → (find_connection identity c.connection_id t'.connections ≡ some c)
      × (record_growth identity c 0 0 t' ≡ ok t')
unfolding record_growth
record_growth_again identity c up down t t' own m h =
    let (cs, x, h1) =
      >>=-eq-ok (increment_core_aggregate identity c.client_key up down t.clients) _ h in
    let (ls, y, h2) =
      >>=-eq-ok (increment_core_aggregate identity c.listener_key up down t.listeners) _ h1 in
    let clients : t'.clients ≡ cs = ground (arith, h2) in
    let listeners : t'.listeners ≡ ls = ground (arith, h2) in
    let ledger : t'.connections ≡ write_connection c t.connections = ground (arith, h2) in
    let found = find_connection-write_connection c t.connections m in
    let here : find_connection c.process_identity c.connection_id t'.connections ≡ some c =
      rw ledger found in
    let cs_again =
      subst (λ rows. increment_core_aggregate identity c.client_key 0 0 rows ≡ ok rows)
        (sym clients) (increment_again identity c.client_key up down t.clients cs x) in
    let ls_again =
      subst (λ rows. increment_core_aggregate identity c.listener_key 0 0 rows ≡ ok rows)
        (sym listeners) (increment_again identity c.listener_key up down t.listeners ls y) in
    (
      subst (λ i. find_connection i c.connection_id t'.connections ≡ some c) own here,
      rw (cs_again, ls_again)
          (ap (λ x. ok (record t' { connections = x }))
            (write_connection_again c t'.connections here)),
    )
