-- ===== src/Listeners.antt =====
-- internal/state/sqlite/listeners.go: the counters of the listeners (`listener_runtime`), with the
-- types of internal/state/state.go. The table is a list of rows with `listener_key` as primary key.
pub mod Table
pub mod Following
use passwall_node.Prelude.{
  ℕ, Bool, false, ◌&&◌, ◌||◌, Option, none, some, List, [], ◌∷◌, ◌++◌, String, ltb, ◌==◌,
  if◌then◌else◌, str_eq, is_empty, ℤ, is_negative, to_ℕ, not_found, counter_rollback, plain, Result,
  ok, err, ◌>>=◌, transact,
}

-- `ListenerRuntime`
pub record ListenerRuntime : Type 0 where
  pub key : String
  pub present : Bool
  pub up_bytes : ℕ
  pub down_bytes : ℕ
  pub counter_epoch : ℕ
  pub updated_at_ms : ℕ

-- `ListenerCounterUpdate`
pub record ListenerCounterUpdate : Type 0 where
  pub key : String
  pub present : Bool
  pub up_bytes : ℤ
  pub down_bytes : ℤ
  pub counter_epoch : ℕ

-- The row that `EnsureListener` inserts; the other columns have their defaults.
abbrev pub new_listener : String → ℕ → ListenerRuntime
new_listener key at_ms = record {
  key = key;
  present = false;
  up_bytes = 0;
  down_bytes = 0;
  counter_epoch = 0;
  updated_at_ms = at_ms;
}

-- `Listener`: `SELECT … WHERE listener_key = ?`
unfoldable pub find_listener : String → List ListenerRuntime → Option ListenerRuntime
find_listener key [] = none
find_listener key (l ∷ ls) = if str_eq l.key key then some l else find_listener key ls

-- `UPDATE … WHERE listener_key = ?`, to the row `new`
unfoldable pub put_listener : ListenerRuntime → List ListenerRuntime → List ListenerRuntime
put_listener new [] = []
put_listener new (l ∷ ls) = (if str_eq l.key new.key then new else l) ∷ put_listener new ls

-- `EnsureListener`
unfoldable pub ensure_listener :
    String → ℤ → List ListenerRuntime → List ListenerRuntime × Result (Unit {0})
ensure_listener key at_ms rows =
    if is_empty key || is_negative at_ms then (rows, err plain) else elim (find_listener key rows) [
      | none ↦ (rows ++ new_listener key (to_ℕ at_ms) ∷ [], ok tt)
      | some l ↦ (rows, ok tt)
    ]

-- `update.CounterEpoch < current.CounterEpoch`, or the same epoch with a smaller counter
unfoldable pub listener_rolls_back : ListenerRuntime → ListenerCounterUpdate → Bool
listener_rolls_back l u =
    ltb u.counter_epoch l.counter_epoch
    || (u.counter_epoch == l.counter_epoch
        && (ltb (to_ℕ u.up_bytes) l.up_bytes || ltb (to_ℕ u.down_bytes) l.down_bytes))

-- The columns that a counter update sets.
abbrev pub listener_counted : ListenerCounterUpdate → ℕ → ListenerRuntime → ListenerRuntime
listener_counted u at_ms l = record l {
  present = u.present;
  up_bytes = to_ℕ u.up_bytes;
  down_bytes = to_ℕ u.down_bytes;
  counter_epoch = u.counter_epoch;
  updated_at_ms = at_ms;
}

-- `applyListenerCounter`
unfoldable pub apply_listener_counter :
    ListenerCounterUpdate → ℤ → List ListenerRuntime → Result (List ListenerRuntime)
apply_listener_counter u at_ms rows =
    if is_empty u.key || is_negative u.up_bytes || is_negative u.down_bytes || is_negative at_ms
    then err plain
    else elim (find_listener u.key rows) [
      | none ↦ err not_found
      | some l ↦
          if listener_rolls_back l u
          then err counter_rollback
          else ok (put_listener (listener_counted u (to_ℕ at_ms) l) rows)
    ]

-- `UpdateListenerCounters`
unfoldable pub update_listener_counters :
    ListenerCounterUpdate → ℤ → List ListenerRuntime → List ListenerRuntime × Result (Unit {0})
update_listener_counters u at_ms rows =
    transact rows (apply_listener_counter u at_ms rows >>= λ new. ok (new, tt))
