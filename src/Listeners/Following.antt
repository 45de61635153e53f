-- ===== src/Listeners/Following.antt =====
-- internal/state/sqlite/listeners.go: what an update makes of a listener's counters.
use passwall_node.Prelude.{
  ◌≤◌, ◌<◌, ◌≡◌, refl, some, List, ℤ, to_ℕ, ok, ◌>>=◌, ◌⊎◌, inl, inr, arith, Bool-cases,
  Option-cases, transact-ok, false,
}
use passwall_node.Listeners.{
  ListenerRuntime, ListenerCounterUpdate, find_listener, apply_listener_counter,
  update_listener_counters, listener_counted, listener_rolls_back,
}
use passwall_node.Listeners.Table.{find_listener-put_listener_key}

-- The counters of `m` are those of a later epoch, or none of them is below that of `l`.
abbrev pub ListenerFollows : ListenerRuntime → ListenerRuntime → Type 0
ListenerFollows l m =
    (l.counter_epoch < m.counter_epoch)
    ⊎ ((l.counter_epoch ≡ m.counter_epoch)
        × (l.up_bytes ≤ m.up_bytes)
        × (l.down_bytes ≤ m.down_bytes))

counted-ListenerFollows :
    (l : ListenerRuntime) (u : ListenerCounterUpdate) (at_ms : ℤ)
    → listener_rolls_back l u ≡ false
    → ListenerFollows l (listener_counted u (to_ℕ at_ms) l)
unfolding listener_rolls_back
counted-ListenerFollows l u at_ms h = ground (arith, h)

-- When a listener's counters are updated with success, the table held the listener, and its counters
-- are afterwards of a later epoch or none of them is below what it was.
pub update_listener_counters-ListenerFollows :
    (u : ListenerCounterUpdate) (at_ms : ℤ) (rows rows' : List ListenerRuntime)
    → update_listener_counters u at_ms rows ≡ (rows', ok tt)
    → (l m : ListenerRuntime) × (find_listener u.key rows ≡ some l)
      × (find_listener u.key rows' ≡ some m)
      × ListenerFollows l m
unfolding update_listener_counters apply_listener_counter
update_listener_counters-ListenerFollows u at_ms rows rows' h =
    let e = transact-ok rows (apply_listener_counter u at_ms rows >>= λ new. ok (new, tt)) h in
    elim (Option-cases (find_listener u.key rows)) [
      | inl f ↦ ground (arith, e, f)
      | inr (l, f) ↦ elim (Bool-cases (listener_rolls_back l u)) [
        | inl back ↦ ground (arith, e, f, back)
        | inr on ↦ (
          l,
          listener_counted u (to_ℕ at_ms) l,
          f,
          ground (
            arith,
            e,
            f,
            on,
            find_listener-put_listener_key u.key l (listener_counted u (to_ℕ at_ms) l) rows f refl,
          ),
          counted-ListenerFollows l u at_ms on,
        )
      ]
    ]
