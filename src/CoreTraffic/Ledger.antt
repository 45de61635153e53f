-- ===== src/CoreTraffic/Ledger.antt =====
-- core_traffic.go: `applyCoreTrafficEvent`, of an event that `validateCoreTrafficEvent` has accepted.
use passwall_node.Prelude.{
  ℕ, ◌-◌, Bool, true, false, not, ◌&&◌, ◌||◌, none, some, String, if◌then◌else◌, str_eq, is_empty,
  ltb, ◌==◌, to_ℕ, plain, Result, ok, err, ◌>>=◌, ◌>>◌, refuse,
}
use passwall_node.CoreTraffic.Rows.{
  CoreTrafficEvent, Connection, Traffic, find_connection, write_connection, add_non_negative,
  increment_core_aggregate,
}

-- `x != "" && x != stored`
abbrev pub changes : String → String → Bool
changes x stored = not (is_empty x) && not (str_eq x stored)

-- The row of a connection that the ledger does not hold.
abbrev pub opened : String → CoreTrafficEvent → Connection
opened identity e = record {
  process_identity = identity;
  connection_id = e.connection_id;
  client_key = e.client_key;
  listener_key = e.listener_key;
  source_ip = e.source_ip;
  up_bytes = to_ℕ e.up_bytes;
  down_bytes = to_ℕ e.down_bytes;
  closed = e.closed;
  closed_at_ms = to_ℕ e.closed_at_ms;
}

-- The new value of a counter of a connection that the ledger holds.
unfoldable pub next_counter : Bool → ℕ → ℕ → Result ℕ
next_counter true stored given = if ltb given stored then err plain else ok given
next_counter false stored given = add_non_negative stored given

-- The row of a connection that the ledger holds, as the event leaves it.
abbrev pub continued : CoreTrafficEvent → ℕ → ℕ → Connection → Connection
continued e up down c = record c {
  up_bytes = up;
  down_bytes = down;
  closed = e.closed || c.closed;
  closed_at_ms =
      if to_ℕ e.closed_at_ms == 0 && c.closed then c.closed_at_ms else to_ℕ e.closed_at_ms;
}

-- The three writes of an event: both totals grow by what the connection has grown by.
unfoldable pub record_growth : String → Connection → ℕ → ℕ → Traffic → Result Traffic
record_growth identity c up down t = do
  clients ← increment_core_aggregate identity c.client_key up down t.clients
  listeners ← increment_core_aggregate identity c.listener_key up down t.listeners
  ok (record t {
    connections = write_connection c t.connections;
    clients = clients;
    listeners = listeners;
  })

abbrev pub metadata_changed : CoreTrafficEvent → Connection → Bool
metadata_changed e c =
    changes e.client_key c.client_key
    || changes e.listener_key c.listener_key
    || changes e.source_ip c.source_ip

abbrev pub reopens : CoreTrafficEvent → Connection → Bool
reopens e c = c.closed && not e.closed

-- The event of a connection that the ledger holds as `c`.
unfoldable pub continue_connection :
    String → CoreTrafficEvent → Connection → Traffic → Result Traffic
continue_connection identity e c t = do
  refuse (metadata_changed e c) plain
  refuse (reopens e c) plain
  up ← next_counter e.absolute c.up_bytes (to_ℕ e.up_bytes)
  down ← next_counter e.absolute c.down_bytes (to_ℕ e.down_bytes)
  record_growth identity (continued e up down c) (up - c.up_bytes) (down - c.down_bytes) t

-- `applyCoreTrafficEvent`
unfoldable pub apply_core_traffic_event : String → CoreTrafficEvent → Traffic → Result Traffic
apply_core_traffic_event identity e t =
    elim (find_connection identity e.connection_id t.connections) [
      | none ↦
          if not e.absolute
          then err plain
          else record_growth identity (opened identity e) (to_ℕ e.up_bytes) (to_ℕ e.down_bytes) t
      | some c ↦ continue_connection identity e c t
    ]
