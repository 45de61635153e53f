-- ===== src/Examples/Core.antt =====
-- internal/state/sqlite/core_traffic.go, core_epoch.go and skew.go on concrete input: one connection
-- of one core process, the next core process and their epochs, and one reference.
use passwall_node.Prelude.{
  List, All, ◌==◌, ◌&&◌, arith, ℕ, ◌≡◌, ◌<◌, ◌⊎◌, refl, Bool, true, false, Option, none, some, [],
  ◌∷◌, String, pos, ok, is_space, is_blank, ends_well, is_trimmed, byte_length, Version,
  same_version,
}
use passwall_node.Skew.{
  Skew, is_reference, find_skew, write_skew, reference_refused, next_rounds, observe_reference_skew,
}
use passwall_node.Skew.History.{
  Call, observed, cleared, replay, IsAllowed, latest, streak, expected, replay-expected,
}
use passwall_node.CoreTraffic.{
  Wire, apply_core_traffic_events, validate_process_identity, validate_core_traffic_event,
  validate_events, prepare_core_traffic_stream, apply_events, prune_connections, latest_closed,
  delete_closed, carry_forward, only_totals,
}
use passwall_node.CoreTraffic.Rows.{
  CoreTrafficEvent, Connection, Total, Traffic, find_connection, write_connection, find_total,
  write_total, add_non_negative, increment_core_aggregate,
}
use passwall_node.CoreTraffic.Ledger.{
  next_counter, record_growth, continue_connection, apply_core_traffic_event,
}
use passwall_node.CoreTraffic.Conservation.{BothGrow, apply_core_traffic_events-BothGrow}
use passwall_node.CoreTraffic.Replay.{replayed_event}
use passwall_node.CoreTraffic.CarryForward.{SameCounts, prepare_core_traffic_stream-SameCounts}
use passwall_node.CoreEpoch.{
  CounterEpoch, claim_core_counter_epoch, identity_refused, first_epoch, claim_row, claim_stored,
}
use passwall_node.CoreEpoch.Identity.{no_claim, later_claim}

abbrev wire : Wire
wire = record {
  client_row_id = λ key. true;
  listener_row_id = λ key. true;
  printed_ip = λ ip. some ip;
}

abbrev event : Bool → ℕ → CoreTrafficEvent
event absolute up = record {
  connection_id = "x";
  client_key = "c";
  listener_key = "l";
  source_ip = "10.0.0.1";
  absolute = absolute;
  up_bytes = pos up;
  down_bytes = pos 5;
  closed = false;
  closed_at_ms = pos 0;
}

abbrev connection : ℕ → ℕ → Connection
connection up down = record {
  process_identity = "p";
  connection_id = "x";
  client_key = "c";
  listener_key = "l";
  source_ip = "10.0.0.1";
  up_bytes = up;
  down_bytes = down;
  closed = false;
  closed_at_ms = 0;
}

abbrev total : String → String → ℕ → ℕ → Total
total identity key up down = record {
  process_identity = identity;
  key = key;
  up_bytes = up;
  down_bytes = down;
}

abbrev ledger : ℕ → ℕ → Traffic
ledger up down = record {
  stream = some (record { process_identity = "p"; ready = true });
  connections = connection up down ∷ [];
  clients = total "p" "c" up down ∷ [];
  listeners = total "p" "l" up down ∷ [];
}

-- A delta of 7 and 5 bytes.
apply_delta :
    apply_core_traffic_events wire "p" false (event false 7 ∷ []) (ledger 10 20)
    ≡ (ledger 17 25, ok tt)
unfolding apply_core_traffic_events validate_process_identity validate_core_traffic_event
    validate_events prepare_core_traffic_stream apply_events prune_connections latest_closed
    delete_closed find_connection write_connection find_total write_total add_non_negative
    increment_core_aggregate next_counter record_growth continue_connection apply_core_traffic_event
    is_space ends_well is_trimmed byte_length
apply_delta = refl

apply_core_traffic_events-BothGrow_example :
    (up down : ℕ) × BothGrow up down (ledger 10 20) (ledger 17 25)
apply_core_traffic_events-BothGrow_example =
    apply_core_traffic_events-BothGrow wire "p" false (event false 7 ∷ []) (ledger 10 20)
      (ledger 17 25) refl apply_delta

apply_snapshot : apply_core_traffic_event "p" (event true 12) (ledger 10 5) ≡ ok (ledger 12 5)
unfolding find_connection write_connection find_total write_total add_non_negative
    increment_core_aggregate next_counter record_growth continue_connection apply_core_traffic_event
apply_snapshot = refl

replayed_event_example :
    apply_core_traffic_event "p" (event true 12) (ledger 12 5) ≡ ok (ledger 12 5)
replayed_event_example =
    replayed_event "p" (event true 12) (ledger 10 5) (ledger 12 5) refl apply_snapshot

abbrev switched : Traffic
switched = record {
  stream = some (record { process_identity = "q"; ready = false });
  connections = [];
  clients = total "q" "c" 10 20 ∷ [];
  listeners = total "q" "l" 10 20 ∷ [];
}

switch : prepare_core_traffic_stream "q" true (ledger 10 20) ≡ ok switched
unfolding prepare_core_traffic_stream carry_forward only_totals write_total
switch = refl

prepare_core_traffic_stream-SameCounts_example :
    ((key : String)
      → SameCounts
          (find_total "q" key switched.clients)
          (find_total "p" key (ledger 10 20).clients))
    × ((key : String)
        → SameCounts
            (find_total "q" key switched.listeners)
            (find_total "p" key (ledger 10 20).listeners))
    × (switched.connections ≡ [])
prepare_core_traffic_stream-SameCounts_example =
    prepare_core_traffic_stream-SameCounts "q" true (ledger 10 20) switched
      (record { process_identity = "p"; ready = true }) refl refl (refl, tt) (refl, tt) switch

abbrev held : String → ℕ → Option CounterEpoch
held identity epoch = some (record { process_identity = identity; counter_epoch = epoch })

claim_first : claim_core_counter_epoch "p" (some 41) none ≡ (held "p" 42, ok 42)
unfolding claim_core_counter_epoch identity_refused first_epoch claim_row is_blank is_space
    byte_length
claim_first = refl

claim_second : claim_core_counter_epoch "q" none (held "p" 42) ≡ (held "q" 43, ok 43)
unfolding claim_core_counter_epoch identity_refused claim_row claim_stored is_blank is_space
    byte_length
claim_second = refl

abbrev epoch : ℕ
epoch = 42

abbrev next_epoch : ℕ
next_epoch = 43

abbrev process : String
process = "p"

abbrev next_process : String
next_process = "q"

later_claim_example : (epoch < next_epoch) ⊎ ((next_epoch ≡ epoch) × (next_process ≡ process))
later_claim_example =
    later_claim "p" "q" (some 41) none none (held "p" 42) (held "p" 42) (held "q" 43) 42 43
      claim_first (no_claim (held "p" 42)) claim_second

abbrev zero_version : Version → Bool
zero_version v = v.epoch == 0 && v.version == 0

abbrev first_version : Version
first_version = record { epoch = 1; version = 4 }

abbrev skewed : ℕ → List Skew
skewed rounds =
    record { kind = "k"; reference_key = "r"; version = first_version; rounds = rounds } ∷ []

observe_first : observe_reference_skew zero_version "k" "r" first_version [] ≡ (skewed 1, ok 1)
unfolding observe_reference_skew reference_refused next_rounds find_skew write_skew is_blank
    is_space
observe_first = refl

-- Two observations of a version behind a clear, the newest first
abbrev observations : List Call
observations =
    observed "k" "r" first_version
    ∷ observed "k" "r" first_version
    ∷ cleared "k" "r"
    ∷ observed "k" "r" first_version
    ∷ []

observations-IsAllowed : All (IsAllowed zero_version) observations
unfolding reference_refused is_blank is_space
observations-IsAllowed = ((refl, refl), ((refl, refl), (refl, ((refl, refl), tt))))

observations-streak :
    expected "k" "r" observations (latest "k" "r" observations) ≡ find_skew "k" "r" (skewed 2)
unfolding latest streak same_version find_skew is_reference
observations-streak = refl

replay-expected_example :
    find_skew "k" "r" (replay zero_version observations)
    ≡ expected "k" "r" observations (latest "k" "r" observations)
replay-expected_example =
    replay-expected zero_version "k" "r" observations observations-IsAllowed (omega arith)
