-- ===== src/CoreTraffic/Rows.antt =====
-- internal/state/sqlite/core_traffic.go: the tables of the core's traffic, with `CoreTrafficEvent` of
-- internal/state/state.go.
use passwall_node.Prelude.{
  ℕ, Bool, ◌&&◌, Option, none, some, List, [], ◌∷◌, String, if◌then◌else◌, str_eq, checked_add,
  plain, Result, ok, err, ◌>>=◌, ℤ,
}

-- `CoreTrafficEvent`
pub record CoreTrafficEvent : Type 0 where
  pub connection_id : String
  pub client_key : String
  pub listener_key : String
  pub source_ip : String
  pub absolute : Bool
  pub up_bytes : ℤ
  pub down_bytes : ℤ
  pub closed : Bool
  pub closed_at_ms : ℤ

-- A row of `core_connection_traffic`; the table is in the order of `rowid`.
pub record Connection : Type 0 where
  pub process_identity : String
  pub connection_id : String
  pub client_key : String
  pub listener_key : String
  pub source_ip : String
  pub up_bytes : ℕ
  pub down_bytes : ℕ
  pub closed : Bool
  pub closed_at_ms : ℕ

-- A row of `core_client_traffic` or `core_listener_traffic`; `key` is the column `client_key` or
-- `listener_key`, and with `process_identity` it is the primary key.
pub record Total : Type 0 where
  pub process_identity : String
  pub key : String
  pub up_bytes : ℕ
  pub down_bytes : ℕ

-- The row of `core_traffic_stream`
pub record Stream : Type 0 where
  pub process_identity : String
  pub ready : Bool

pub record Traffic : Type 0 where
  pub stream : Option Stream
  pub connections : List Connection
  pub clients : List Total
  pub listeners : List Total

-- `SELECT … WHERE process_identity = ? AND connection_id = ?`
unfoldable pub find_connection : String → String → List Connection → Option Connection
find_connection identity id [] = none
find_connection identity id (c ∷ cs) =
    if str_eq c.process_identity identity && str_eq c.connection_id id
    then some c
    else find_connection identity id cs

-- `INSERT … ON CONFLICT(process_identity, connection_id) DO UPDATE SET` the counters and the close
unfoldable pub write_connection : Connection → List Connection → List Connection
write_connection new [] = new ∷ []
write_connection new (c ∷ cs) =
    let rest = write_connection new cs in
    if str_eq c.process_identity new.process_identity && str_eq c.connection_id new.connection_id
    then record c {
      up_bytes = new.up_bytes;
      down_bytes = new.down_bytes;
      closed = new.closed;
      closed_at_ms = new.closed_at_ms;
    }
      ∷ cs
    else c ∷ rest

-- `SELECT up_bytes, down_bytes FROM … WHERE process_identity = ? AND key = ?`
unfoldable pub find_total : String → String → List Total → Option Total
find_total identity key [] = none
find_total identity key (t ∷ ts) =
    if str_eq t.process_identity identity && str_eq t.key key
    then some t
    else find_total identity key ts

-- `INSERT … ON CONFLICT(process_identity, key) DO UPDATE SET up_bytes = …, down_bytes = …`
unfoldable pub write_total : Total → List Total → List Total
write_total new [] = new ∷ []
write_total new (t ∷ ts) =
    let rest = write_total new ts in
    if str_eq t.process_identity new.process_identity && str_eq t.key new.key
    then new ∷ ts
    else t ∷ rest

-- The counters of a row that may be missing.
abbrev pub up_of : Option Total → ℕ
up_of none = 0
up_of (some t) = t.up_bytes

abbrev pub down_of : Option Total → ℕ
down_of none = 0
down_of (some t) = t.down_bytes

-- `addNonNegative`, of values that are not negative
unfoldable pub add_non_negative : ℕ → ℕ → Result ℕ
unfolding checked_add
add_non_negative a b = elim (checked_add a b) [ none ↦ err plain | some s ↦ ok s ]

-- `incrementCoreAggregate`
unfoldable pub increment_core_aggregate : String → String → ℕ → ℕ → List Total → Result (List Total)
increment_core_aggregate identity key up down rows = do
  new_up ← add_non_negative (up_of (find_total identity key rows)) up
  new_down ← add_non_negative (down_of (find_total identity key rows)) down
  ok (
      write_total
        (record {
          process_identity = identity;
          key = key;
          up_bytes = new_up;
          down_bytes = new_down;
        })
        rows)
