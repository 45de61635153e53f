-- ===== src/CounterBatch.antt =====
-- internal/state/sqlite/counters.go: `ApplyCounterBatch`, one observation of all the counters, on the
-- tables of the clients and of the listeners.
pub mod Keys
pub mod ClientLoop
pub mod ListenerLoop
pub mod Recorded
use passwall_node.Prelude.{
  ◌||◌, Bool, false, List, [], ◌∷◌, String, if◌then◌else◌, ℤ, is_negative, plain, Result, ok, err,
  ◌>>=◌, ◌>>◌, refuse, transact,
}
use passwall_node.Clients.{apply_client_counter}
use passwall_node.Clients.Addresses.{contains}
use passwall_node.Clients.Rows.{ClientRuntime, CounterUpdate, Platform}
use passwall_node.Listeners.{ListenerRuntime, ListenerCounterUpdate, apply_listener_counter}

-- `CounterBatch`
pub record CounterBatch : Type 0 where
  pub clients : List CounterUpdate
  pub listeners : List ListenerCounterUpdate

-- The two tables that a batch is about.
pub record Counters : Type 0 where
  pub clients : List ClientRuntime
  pub listeners : List ListenerRuntime

-- The two loops of `validateCounterBatch`; `seen` is the keys of the updates that came first.
unfoldable pub validate_clients : List String → List CounterUpdate → Result (Unit {0})
validate_clients seen [] = ok tt
validate_clients seen (u ∷ us) =
    let rest = validate_clients (u.key ∷ seen) us in if contains u.key seen then err plain else rest

unfoldable pub validate_listeners : List String → List ListenerCounterUpdate → Result (Unit {0})
validate_listeners seen [] = ok tt
validate_listeners seen (u ∷ us) =
    let rest = validate_listeners (u.key ∷ seen) us in
    if contains u.key seen then err plain else rest

-- `validateCounterBatch`
unfoldable pub validate_counter_batch : CounterBatch → Result (Unit {0})
validate_counter_batch batch =
    validate_clients [] batch.clients >> validate_listeners [] batch.listeners

-- The loop over `batch.Listeners`
unfoldable pub apply_listeners :
    List ListenerCounterUpdate → ℤ → List ListenerRuntime → Result (List ListenerRuntime)
apply_listeners [] at_ms rows = ok rows
apply_listeners (u ∷ us) at_ms rows =
    apply_listener_counter u at_ms rows >>= λ rows'. apply_listeners us at_ms rows'

module _ (platform : Platform) where
  -- The loop over `batch.Clients`; the flag is `result.GateChanged`.
  unfoldable pub apply_clients :
      List CounterUpdate → ℤ → Bool → List ClientRuntime → Result (List ClientRuntime × Bool)
  apply_clients [] at_ms changed rows = ok (rows, changed)
  apply_clients (u ∷ us) at_ms changed rows = apply_client_counter platform u at_ms rows >>= λ r.
      apply_clients us at_ms (changed || r.1) r.0

  -- The transaction of `ApplyCounterBatch`
  unfoldable pub batch_transaction : CounterBatch → ℤ → Counters → Result (Counters × Bool)
  batch_transaction batch at_ms s = do
    r ← apply_clients batch.clients at_ms false s.clients
    listeners ← apply_listeners batch.listeners at_ms s.listeners
    ok (record { clients = r.0; listeners = listeners }, r.1)

  -- `ApplyCounterBatch`
  unfoldable pub apply_counter_batch : CounterBatch → ℤ → Counters → Counters × Result Bool
  apply_counter_batch batch at_ms s = transact s (do
    refuse (is_negative at_ms) plain
    validate_counter_batch batch
    batch_transaction batch at_ms s)
