-- ===== src/CounterBatch/ListenerLoop.antt =====
-- counters.go: the loop over the listeners of a batch.
use passwall_node.Prelude.{
  ◌≡◌, refl, sym, ◌∙◌, subst, true, false, some, List, [], ◌∷◌, String, str_eq, ℤ, to_ℕ, ok, arith,
  All, Bool-cases, Option-cases, inl, inr, >>=-eq-ok,
}
use passwall_node.Clients.Addresses.{contains}
use passwall_node.Listeners.{
  ListenerRuntime, ListenerCounterUpdate, find_listener, put_listener, apply_listener_counter,
  listener_counted, listener_rolls_back,
}
use passwall_node.Listeners.Table.{
  find_listener-key, find_listener-put_listener_key, find_listener-put_listener_other,
}
use passwall_node.CounterBatch.{validate_listeners, apply_listeners}
use passwall_node.CounterBatch.Keys.{differs, contains_more, contains_self}

-- The table of listeners holds the update of that time: the counters, the epoch and the presence.
abbrev pub ListenerRecorded : ℤ → List ListenerRuntime → ListenerCounterUpdate → Type 0
ListenerRecorded at_ms rows u =
    (l : ListenerRuntime) × (find_listener u.key rows ≡ some l)
    × (l.up_bytes ≡ to_ℕ u.up_bytes)
    × (l.down_bytes ≡ to_ℕ u.down_bytes)
    × (l.counter_epoch ≡ u.counter_epoch)
    × (l.present ≡ u.present)
    × (l.updated_at_ms ≡ to_ℕ at_ms)

listener_lem :
    (u : ListenerCounterUpdate) (at_ms : ℤ) (rows : List ListenerRuntime) (r : List ListenerRuntime)
    → apply_listener_counter u at_ms rows ≡ ok r
    → ListenerRecorded at_ms r u
      × ((k : String) → str_eq u.key k ≡ false → find_listener k r ≡ find_listener k rows)
unfolding apply_listener_counter
listener_lem u at_ms rows r h = elim (Option-cases (find_listener u.key rows)) [
  | inl f ↦ ground (arith, h, f)
  | inr (c, f) ↦ elim (Bool-cases (listener_rolls_back c u)) [
    | inl back ↦ ground (arith, h, f, back)
    | inr on ↦
        (let new : ListenerRuntime = listener_counted u (to_ℕ at_ms) c in
          let put : r ≡ put_listener new rows = ground (arith, h, f, on) in
          (
            (
              new,
              rw put (find_listener-put_listener_key u.key c new rows f refl),
              refl,
              refl,
              refl,
              refl,
              refl,
            ),
            λ k other. rw put (
                find_listener-put_listener_other k new rows
                  (subst (λ x. str_eq x k ≡ false) (sym (find_listener-key u.key rows c f)) other)),
          ))
  ]
]

listeners_untouched :
    (us : List ListenerCounterUpdate) (at_ms : ℤ) (seen : List String) (k : String)
    (rows : List ListenerRuntime) (r : List ListenerRuntime)
    → contains k seen ≡ true
    → validate_listeners seen us ≡ ok tt
    → apply_listeners us at_ms rows ≡ ok r
    → find_listener k r ≡ find_listener k rows
unfolding apply_listeners validate_listeners
listeners_untouched [] at_ms seen k rows r m v h = ground (arith, h)
listeners_untouched (u ∷ us) at_ms seen k rows r m v h =
    let (r1, first, rest) = >>=-eq-ok (apply_listener_counter u at_ms rows) _ h in
    let (_, others) = listener_lem u at_ms rows r1 first in
    elim (Bool-cases (contains u.key seen)) [
      | inl twice ↦ ground (arith, v, twice)
      | inr once ↦
          listeners_untouched us at_ms (u.key ∷ seen) k r1 r (contains_more k u.key seen m)
            (ground (arith, v, once)) rest
          ∙ others k (differs k u.key seen m once)
    ]

pub listeners-Recorded :
    (us : List ListenerCounterUpdate) (at_ms : ℤ) (seen : List String) (rows : List ListenerRuntime)
    (r : List ListenerRuntime)
    → validate_listeners seen us ≡ ok tt
    → apply_listeners us at_ms rows ≡ ok r
    → All (ListenerRecorded at_ms r) us
unfolding apply_listeners validate_listeners
listeners-Recorded [] at_ms seen rows r v h = tt
listeners-Recorded (u ∷ us) at_ms seen rows r v h =
    let (r1, first, rest) = >>=-eq-ok (apply_listener_counter u at_ms rows) _ h in
    let ((c, f, up, down, epoch, here, at), _) = listener_lem u at_ms rows r1 first in
    elim (Bool-cases (contains u.key seen)) [
      | inl twice ↦ ground (arith, v, twice)
      | inr once ↦
          (let v' : validate_listeners (u.key ∷ seen) us ≡ ok tt = ground (arith, v, once) in
            (
              (
                c,
                listeners_untouched us at_ms (u.key ∷ seen) u.key r1 r (contains_self u.key seen) v'
                      rest
                    ∙ f,
                up,
                down,
                epoch,
                here,
                at,
              ),
              listeners-Recorded us at_ms (u.key ∷ seen) r1 r v' rest,
            ))
    ]
