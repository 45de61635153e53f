-- ===== src/Examples/Roster.antt =====
-- internal/state/sqlite/clients.go and counters.go on concrete input: one client, from its
-- materialisation to a closed gate, and a batch of one client and one listener.
use passwall_node.Prelude.{
  ℕ, ◌≡◌, refl, subst, Bool, true, false, ◌&&◌, Option, none, some, [], ◌∷◌, ℤ, pos, negsuc, ok,
  ltb, leb, All, text_leb, codes_leb,
}
use passwall_node.Clients.{
  ensure_client, update_counters, apply_client_counter, count_row, rolls_back, apply_quota,
  grant_row, grant_refused, apply_scheduled_quota, apply_scheduled_quota_tx, rollover_row,
  same_gate,
}
use passwall_node.Clients.Addresses.{
  normalize_ips, canonical_ips, contains, insert_text, sort_texts,
}
use passwall_node.Clients.Ceiling.{derive_gate, add_bytes}
use passwall_node.Clients.Rows.{
  armed, closed, ClientRuntime, QuotaGrant, CounterUpdate, Platform, new_client, find_client,
  put_client,
}
use passwall_node.Clients.Validity.{
  Reachable, empty, after, Step, ensured, counted_up, quota_applied, IsValid, Reachable-IsValid,
}
use passwall_node.Clients.Enforcement.{
  Follows, KeepsGrant, update_counters_follow, closed_stays_closed,
}
use passwall_node.Clients.Rollover.{RolledOver, scheduled_rollover, redelivered_quota}
use passwall_node.Listeners.Following.{ListenerFollows, update_listener_counters-ListenerFollows}
use passwall_node.Listeners.{
  update_listener_counters, ListenerRuntime, ListenerCounterUpdate, new_listener, find_listener,
  put_listener, apply_listener_counter, listener_rolls_back,
}
use passwall_node.CounterBatch.{
  CounterBatch, Counters, apply_counter_batch, validate_counter_batch, validate_clients,
  validate_listeners, batch_transaction, apply_clients, apply_listeners,
}
use passwall_node.CounterBatch.ClientLoop.{ClientRecorded}
use passwall_node.CounterBatch.ListenerLoop.{ListenerRecorded}
use passwall_node.CounterBatch.Recorded.{apply_counter_batch-Recorded}

abbrev due : ℕ → Option ℕ → ℤ → Bool
due ends none now = false
due ends (some next) (pos now) = ltb 0 ends && leb ends now
due ends (some next) (negsuc now) = false

abbrev platform : Platform
platform = record {
  canonical_ip = λ ip. some ip;
  quota_fingerprint = λ grant. "grant";
  refresh_due = due;
}

abbrev grant : QuotaGrant
grant = record {
  baseline_bytes = pos 0;
  headroom_bytes = some (pos 100);
  period_ends_at_ms = pos 500;
  next_period_headroom_bytes = some (pos 40);
}

abbrev usage : ℕ → CounterUpdate
usage up = record {
  key = "c";
  present = true;
  up_bytes = pos up;
  down_bytes = pos 50;
  counter_epoch = 1;
  live_ips = "b" ∷ "a" ∷ "b" ∷ [];
}

abbrev fresh : ClientRuntime
fresh = new_client "c" "s" 10

abbrev configured : ClientRuntime
configured = record fresh {
  gate = armed;
  baseline_bytes = some 0;
  headroom_bytes = some 100;
  period_ends_at_ms = 500;
  next_period_headroom_bytes = some 40;
  quota_fingerprint = "grant";
  updated_at_ms = 20;
}

abbrev used : ℕ → ℕ → ClientRuntime
used up at_ms = record configured {
  present = true;
  up_bytes = up;
  down_bytes = 50;
  counter_epoch = 1;
  live_ips = "a" ∷ "b" ∷ [];
  gate = closed;
  updated_at_ms = at_ms;
}

abbrev renewed : ClientRuntime
renewed = record configured {
  baseline_bytes = some 0;
  headroom_bytes = some 40;
  period_ends_at_ms = 0;
  next_period_headroom_bytes = none;
  updated_at_ms = 600;
}

configure : apply_quota platform "c" grant (pos 20) (fresh ∷ []) ≡ (configured ∷ [], ok tt)
unfolding apply_quota grant_refused grant_row derive_gate add_bytes find_client put_client
configure = refl

use_up : update_counters platform (usage 60) (pos 30) (configured ∷ []) ≡ (used 60 30 ∷ [], ok true)
unfolding update_counters apply_client_counter count_row rolls_back derive_gate add_bytes
    find_client put_client normalize_ips canonical_ips contains insert_text sort_texts text_leb
    codes_leb same_gate
use_up = refl

use_more :
    update_counters platform (usage 70) (pos 40) (used 60 30 ∷ []) ≡ (used 70 40 ∷ [], ok false)
unfolding update_counters apply_client_counter count_row rolls_back derive_gate add_bytes
    find_client put_client normalize_ips canonical_ips contains insert_text sort_texts text_leb
    codes_leb same_gate
use_more = refl

renew : apply_scheduled_quota platform "c" (pos 600) (configured ∷ []) ≡ (renewed ∷ [], ok true)
unfolding apply_scheduled_quota apply_scheduled_quota_tx rollover_row derive_gate add_bytes
    find_client put_client
renew = refl

materialise : (ensure_client "c" "s" (pos 10) []).0 ≡ fresh ∷ []
unfolding ensure_client find_client
materialise = refl

reached_closed : Reachable platform (used 60 30 ∷ [])
reached_closed =
    let step0 = subst (Step platform []) materialise (ensured "c" "s" (pos 10) []) in
    let step1 =
      subst (λ x. Step platform (fresh ∷ []) x.0) configure
        (quota_applied "c" grant (pos 20) (fresh ∷ [])) in
    let step2 =
      subst (λ x. Step platform (configured ∷ []) x.0) use_up
        (counted_up (usage 60) (pos 30) (configured ∷ [])) in
    after (after (after empty step0) step1) step2

Reachable-IsValid_example : All IsValid (used 60 30 ∷ [])
Reachable-IsValid_example = Reachable-IsValid platform reached_closed

closed_stays_closed_example :
    (new : ClientRuntime) × (find_client "c" (used 70 40 ∷ []) ≡ some new) × (new.gate ≡ closed)
unfolding find_client
closed_stays_closed_example =
    closed_stays_closed platform (usage 70) (pos 40) (used 60 30 ∷ []) (used 70 40 ∷ []) false
      (used 60 30) reached_closed refl refl refl use_more

update_counters_follow_example :
    (c new : ClientRuntime) × (find_client "c" (used 60 30 ∷ []) ≡ some c)
    × (find_client "c" (used 70 40 ∷ []) ≡ some new)
    × Follows c new
    × KeepsGrant c new
update_counters_follow_example =
    update_counters_follow platform (usage 70) (pos 40) (used 60 30 ∷ []) (used 70 40 ∷ []) false
      use_more

scheduled_rollover_example :
    (c new : ClientRuntime) × (h : ℕ) × (find_client "c" (configured ∷ []) ≡ some c)
    × (find_client "c" (renewed ∷ []) ≡ some new)
    × RolledOver h c new
scheduled_rollover_example =
    scheduled_rollover platform "c" (pos 600) (configured ∷ []) (renewed ∷ []) renew

redelivered_quota_example :
    apply_quota platform "c" grant (pos 700) (renewed ∷ []) ≡ (renewed ∷ [], ok tt)
redelivered_quota_example =
    redelivered_quota platform "c" grant (pos 20) (pos 600) (pos 700) (fresh ∷ []) (configured ∷ [])
      (renewed ∷ []) true configure renew refl

abbrev listener_usage : ListenerCounterUpdate
listener_usage = record {
  key = "l";
  present = true;
  up_bytes = pos 60;
  down_bytes = pos 50;
  counter_epoch = 1;
}

abbrev listened : ListenerRuntime
listened = record (new_listener "l" 10) {
  present = true;
  up_bytes = 60;
  down_bytes = 50;
  counter_epoch = 1;
  updated_at_ms = 30;
}

abbrev batch : CounterBatch
batch = record { clients = usage 60 ∷ []; listeners = listener_usage ∷ [] }

abbrev counters : Counters
counters = record { clients = configured ∷ []; listeners = new_listener "l" 10 ∷ [] }

abbrev recorded : Counters
recorded = record { clients = used 60 30 ∷ []; listeners = listened ∷ [] }

record_batch : apply_counter_batch platform batch (pos 30) counters ≡ (recorded, ok true)
unfolding apply_counter_batch validate_counter_batch validate_clients validate_listeners
    batch_transaction apply_clients apply_listeners apply_client_counter count_row rolls_back
    derive_gate add_bytes find_client put_client normalize_ips canonical_ips contains insert_text
    sort_texts text_leb codes_leb same_gate apply_listener_counter listener_rolls_back find_listener
    put_listener
record_batch = refl

apply_counter_batch-Recorded_example :
    All (ClientRecorded platform (pos 30) (used 60 30 ∷ [])) (usage 60 ∷ [])
    × All (ListenerRecorded (pos 30) (listened ∷ [])) (listener_usage ∷ [])
apply_counter_batch-Recorded_example =
    apply_counter_batch-Recorded platform batch (pos 30) counters recorded true record_batch

count_listener :
    update_listener_counters listener_usage (pos 30) (new_listener "l" 10 ∷ [])
    ≡ (listened ∷ [], ok tt)
unfolding update_listener_counters apply_listener_counter listener_rolls_back find_listener
    put_listener
count_listener = refl

update_listener_counters-ListenerFollows_example :
    (l m : ListenerRuntime) × (find_listener "l" (new_listener "l" 10 ∷ []) ≡ some l)
    × (find_listener "l" (listened ∷ []) ≡ some m)
    × ListenerFollows l m
update_listener_counters-ListenerFollows_example =
    update_listener_counters-ListenerFollows listener_usage (pos 30) (new_listener "l" 10 ∷ [])
      (listened ∷ []) count_listener
