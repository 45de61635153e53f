-- ===== src/CoreTraffic.antt =====
-- internal/state/sqlite/core_traffic.go: `ApplyCoreTrafficEvents`, the ledger of the connections of one
-- core process and the durable totals of the clients and of the listeners.
pub mod Rows
pub mod Ledger
pub mod Conservation
pub mod Writes
pub mod Replay
pub mod CarryForward
use passwall_node.Prelude.{
  ℕ, Bool, true, false, not, ◌&&◌, ◌||◌, Option, none, some, List, [], ◌∷◌, String, if◌then◌else◌,
  str_eq, ltb, take, is_negative, is_nonpositive, codes, is_trimmed, byte_length, core_traffic_gap,
  plain, Result, ok, err, ◌>>=◌, ◌>>◌, refuse, transact,
}
use Rows.{CoreTrafficEvent, Connection, Total, Traffic, write_total}
use Ledger.{apply_core_traffic_event}

-- What the code calls outside this repository: whether a client or listener key has a row id, and an
-- IP address parsed and printed again.
pub record Wire : Type 0 where
  pub client_row_id : String → Bool
  pub listener_row_id : String → Bool
  pub printed_ip : String → Option String

-- `retainedClosedCoreConnections`
abbrev pub retained_closed_core_connections : ℕ
retained_closed_core_connections = 2000

-- `validateProcessIdentity`
unfoldable pub validate_process_identity : String → Result (Unit {0})
validate_process_identity identity =
    refuse (not (is_trimmed (codes identity)) || ltb 512 (byte_length (codes identity))) plain

abbrev is_canonical : Option String → String → Bool
is_canonical none ip = false
is_canonical (some printed) ip = str_eq printed ip

abbrev same_bool : Bool → Bool → Bool
same_bool true b = b
same_bool false b = not b

-- `validateCoreTrafficEvent`
unfoldable pub validate_core_traffic_event : Wire → CoreTrafficEvent → Result (Unit {0})
validate_core_traffic_event wire e =
    refuse
      (not (is_trimmed (codes e.connection_id)) || ltb 128 (byte_length (codes e.connection_id)))
      plain
    >> refuse (not (wire.client_row_id e.client_key)) plain
    >> refuse (not (wire.listener_row_id e.listener_key)) plain
    >> refuse (not (is_canonical (wire.printed_ip e.source_ip) e.source_ip)) plain
    >> refuse
        (is_negative e.up_bytes
          || is_negative e.down_bytes
          || is_negative e.closed_at_ms
          || not (same_bool e.closed (not (is_nonpositive e.closed_at_ms))))
        plain

-- The first loop of `ApplyCoreTrafficEvents`
unfoldable pub validate_events : Wire → Bool → List CoreTrafficEvent → Result (Unit {0})
validate_events wire reset [] = ok tt
validate_events wire reset (e ∷ es) =
    validate_core_traffic_event wire e
    >> refuse (reset && not e.absolute) plain
    >> validate_events wire reset es

-- `seen[connectionID]`
unfoldable pub is_seen : String → List CoreTrafficEvent → Bool
is_seen id [] = false
is_seen id (e ∷ es) = str_eq e.connection_id id || is_seen id es

-- The loop over the open connections of `verifyCoreTrafficResetCoverage`.
unfoldable pub covers : String → List CoreTrafficEvent → List Connection → Result (Unit {0})
covers identity events [] = ok tt
covers identity events (c ∷ cs) =
    refuse
      (str_eq c.process_identity identity && not c.closed && not (is_seen c.connection_id events))
      core_traffic_gap
    >> covers identity events cs

-- `verifyCoreTrafficResetCoverage`
unfoldable pub verify_core_traffic_reset_coverage :
    String → List CoreTrafficEvent → Traffic → Result (Unit {0})
verify_core_traffic_reset_coverage identity events t = elim t.stream [
  | none ↦ ok tt
  | some s ↦
      if not (str_eq s.process_identity identity) || not s.ready
      then ok tt
      else covers identity events t.connections
]

-- `INSERT … SELECT` of the totals of the process `current` as those of `identity`
unfoldable pub carry_forward : String → String → List Total → List Total → List Total
carry_forward identity current [] rows = rows
carry_forward identity current (t ∷ ts) rows =
    let rest = carry_forward identity current ts rows in
    if str_eq t.process_identity current
    then write_total (record t { process_identity = identity }) rest
    else rest

-- `DELETE … WHERE process_identity != ?`
unfoldable pub only_totals : String → List Total → List Total
only_totals identity [] = []
only_totals identity (t ∷ ts) =
    let rest = only_totals identity ts in
    if str_eq t.process_identity identity then t ∷ rest else rest

-- `prepareCoreTrafficStream`
unfoldable pub prepare_core_traffic_stream : String → Bool → Traffic → Result Traffic
prepare_core_traffic_stream identity reset t = elim t.stream [
  | none ↦
      if not reset
      then err plain
      else ok (record t { stream = some (record { process_identity = identity; ready = false }) })
  | some s ↦
      if str_eq s.process_identity identity
      then (if not reset && not s.ready then err plain else ok t)
      else if not reset
      then err plain
      else ok (record {
        stream = some (record { process_identity = identity; ready = false });
        connections = [];
        clients =
            only_totals identity (carry_forward identity s.process_identity t.clients t.clients);
        listeners =
            only_totals identity
              (carry_forward identity s.process_identity t.listeners t.listeners);
      })
]

-- The second loop of `ApplyCoreTrafficEvents`
unfoldable pub apply_events : String → List CoreTrafficEvent → Traffic → Result Traffic
apply_events identity [] t = ok t
apply_events identity (e ∷ es) t =
    apply_core_traffic_event identity e t >>= λ t'. apply_events identity es t'

-- `UPDATE core_traffic_stream SET ready = 1`
abbrev marked_ready : Bool → Traffic → Traffic
marked_ready true t = record t {
  stream = elim t.stream [ none ↦ none | some s ↦ some (record s { ready = true }) ];
}
marked_ready false t = t

-- `ORDER BY closed_at_ms DESC, rowid DESC`, of a list in the order of `rowid`
unfoldable pub insert_closed : Connection → List Connection → List Connection
insert_closed c [] = c ∷ []
insert_closed c (d ∷ ds) =
    let rest = insert_closed c ds in
    if ltb d.closed_at_ms c.closed_at_ms then c ∷ d ∷ ds else d ∷ rest

unfoldable pub latest_closed : String → List Connection → List Connection
latest_closed identity [] = []
latest_closed identity (c ∷ cs) =
    let rest = latest_closed identity cs in
    if str_eq c.process_identity identity && c.closed then insert_closed c rest else rest

unfoldable pub is_retained : String → List Connection → Bool
is_retained id [] = false
is_retained id (c ∷ cs) = str_eq c.connection_id id || is_retained id cs

-- `DELETE FROM core_connection_traffic …` of the closed connections that are not retained
unfoldable pub delete_closed : String → List Connection → List Connection → List Connection
delete_closed identity retained [] = []
delete_closed identity retained (c ∷ cs) =
    let rest = delete_closed identity retained cs in
    if str_eq c.process_identity identity && c.closed && not (is_retained c.connection_id retained)
    then rest
    else c ∷ rest

unfoldable pub prune_connections : String → Traffic → Traffic
prune_connections identity t = record t {
  connections =
      delete_closed identity
        (take retained_closed_core_connections (latest_closed identity t.connections))
        t.connections;
}

-- `ApplyCoreTrafficEvents`
unfoldable pub apply_core_traffic_events :
    Wire → String → Bool → List CoreTrafficEvent → Traffic → Traffic × Result (Unit {0})
apply_core_traffic_events wire identity reset events t = transact t (do
  validate_process_identity identity
  validate_events wire reset events
  if reset then verify_core_traffic_reset_coverage identity events t else ok tt
  prepared ← prepare_core_traffic_stream identity reset t
  applied ← apply_events identity events prepared
  ok (prune_connections identity (marked_ready reset applied), tt))
