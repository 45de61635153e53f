-- ===== src/Clients/Enforcement.antt =====
-- internal/state/sqlite/clients.go: what a client's quota gate and counters go through.
use passwall_node.Prelude.{
  ℕ, ◌≤◌, ◌<◌, ◌≡◌, sym, subst, Bool, Option, none, some, List, ℤ, to_ℕ, ok, arith, Option-cases,
  Result-cases, ◌⊎◌, inl, inr, transact-ok,
}
use passwall_node.Clients.{update_counters, apply_client_counter, count_row, rolls_back}
use passwall_node.Clients.Rows.{Gate, closed, ClientRuntime, CounterUpdate, Platform, find_client}
use passwall_node.Clients.Ceiling.{derive_gate, add_bytes}
use passwall_node.Clients.Table.{find_client-All, find_client-put_client_key}
use passwall_node.Clients.Validity.{IsValid, Reachable, Reachable-IsValid, count_row-IsValid}

-- The counters of `d` are those of a later epoch, or none of them is below that of `c`.
abbrev pub Follows : ClientRuntime → ClientRuntime → Type 0
Follows c d =
    (c.counter_epoch < d.counter_epoch)
    ⊎ ((c.counter_epoch ≡ d.counter_epoch)
        × (c.up_bytes ≤ d.up_bytes)
        × (c.down_bytes ≤ d.down_bytes))

-- The columns that an update of the counters leaves as they were.
abbrev pub KeepsGrant : ClientRuntime → ClientRuntime → Type 0
KeepsGrant c d =
    (d.key ≡ c.key)
    × (d.subject ≡ c.subject)
    × (d.baseline_bytes ≡ c.baseline_bytes)
    × (d.headroom_bytes ≡ c.headroom_bytes)
    × (d.period_ends_at_ms ≡ c.period_ends_at_ms)
    × (d.next_period_headroom_bytes ≡ c.next_period_headroom_bytes)
    × (d.quota_fingerprint ≡ c.quota_fingerprint)

module _ (platform : Platform) where
  count_row-Follows :
      (u : CounterUpdate) (at_ms : ℕ) (c new : ClientRuntime)
      → count_row platform u at_ms c ≡ ok new
      → Follows c new × KeepsGrant c new × (new.counter_epoch ≡ u.counter_epoch)
  unfolding count_row rolls_back
  count_row-Follows u at_ms c new h = ground (arith, h)

  derive_gate_closed :
      (up down up' down' : ℕ) (b h : Option ℕ) (g : Gate)
      → up ≤ up'
      → down ≤ down'
      → derive_gate up down b h ≡ ok closed
      → derive_gate up' down' b h ≡ ok g
      → g ≡ closed
  unfolding derive_gate add_bytes
  derive_gate_closed up down up' down' none h g x y e f = ground (arith, e)
  derive_gate_closed up down up' down' (some b) none g x y e f = ground (arith, e)
  derive_gate_closed up down up' down' (some b) (some h) g x y e f = ground (arith, e, f, x, y)

  count_row_closed :
      (u : CounterUpdate) (at_ms : ℕ) (c new : ClientRuntime)
      → IsValid c
      → c.gate ≡ closed
      → u.counter_epoch ≡ c.counter_epoch
      → count_row platform u at_ms c ≡ ok new
      → new.gate ≡ closed
  count_row_closed u at_ms c new v shut same h =
      let (a, k, e) = count_row-Follows u at_ms c new h in
      let v' = (count_row-IsValid platform u at_ms c new v h).0 in
      let first : derive_gate c.up_bytes c.down_bytes c.baseline_bytes c.headroom_bytes
          ≡ ok closed =
        subst (λ g. derive_gate c.up_bytes c.down_bytes c.baseline_bytes c.headroom_bytes ≡ ok g)
          shut v.0 in
      let later : derive_gate new.up_bytes new.down_bytes c.baseline_bytes c.headroom_bytes
          ≡ ok new.gate =
        rw (sym k.2, sym k.3) v' in
      derive_gate_closed c.up_bytes c.down_bytes new.up_bytes new.down_bytes c.baseline_bytes
        c.headroom_bytes new.gate (ground (arith, a, e, same)) (ground (arith, a, e, same)) first
        later

  -- What a successful update has done to the row of its client.
  update_counters_lem :
      (u : CounterUpdate) (at_ms : ℤ) (rows rows' : List ClientRuntime) (changed : Bool)
      → update_counters platform u at_ms rows ≡ (rows', ok changed)
      → (c new : ClientRuntime) × (find_client u.key rows ≡ some c)
        × (find_client u.key rows' ≡ some new)
        × (count_row platform u (to_ℕ at_ms) c ≡ ok new)
  unfolding update_counters apply_client_counter
  update_counters_lem u at_ms rows rows' changed h =
      let e = transact-ok rows (apply_client_counter platform u at_ms rows) h in
      elim (Option-cases (find_client u.key rows)) [
        | inl f ↦ ground (arith, e, f)
        | inr (c, f) ↦ elim (Result-cases (count_row platform u (to_ℕ at_ms) c)) [
          | inl (new, w) ↦
              (let (_, k, _) = count_row-Follows u (to_ℕ at_ms) c new w in
                (
                  c,
                  new,
                  f,
                  ground (arith, e, f, w, find_client-put_client_key u.key c new rows f k.0),
                  w,
                ))
          | inr (x, w) ↦ ground (arith, e, f, w)
        ]
      ]

  -- When a client's counters are updated with success, the table held the client, its counters are
  -- afterwards of a later epoch or none of them is below what it was, and the update leaves the
  -- subject, the grant (baseline, headroom, the end of the period and the next headroom) and its
  -- fingerprint as they were.
  pub update_counters_follow :
      (u : CounterUpdate) (at_ms : ℤ) (rows rows' : List ClientRuntime) (changed : Bool)
      → update_counters platform u at_ms rows ≡ (rows', ok changed)
      → (c new : ClientRuntime) × (find_client u.key rows ≡ some c)
        × (find_client u.key rows' ≡ some new)
        × Follows c new
        × KeepsGrant c new
  update_counters_follow u at_ms rows rows' changed h =
      let (c, new, f, f', w) = update_counters_lem u at_ms rows rows' changed h in
      let (a, b, _) = count_row-Follows u (to_ℕ at_ms) c new w in (c, new, f, f', a, b)

  -- A client whose gate is closed, in a table that transactions make of an empty one, still has a
  -- closed gate after a successful update of its counters within the same epoch.
  pub closed_stays_closed :
      (u : CounterUpdate) (at_ms : ℤ) (rows rows' : List ClientRuntime) (changed : Bool)
      (c : ClientRuntime)
      → Reachable platform rows
      → find_client u.key rows ≡ some c
      → c.gate ≡ closed
      → u.counter_epoch ≡ c.counter_epoch
      → update_counters platform u at_ms rows ≡ (rows', ok changed)
      → (new : ClientRuntime) × (find_client u.key rows' ≡ some new) × (new.gate ≡ closed)
  closed_stays_closed u at_ms rows rows' changed c r f shut same h =
      let (d, new, f0, f', w) = update_counters_lem u at_ms rows rows' changed h in
      let all = Reachable-IsValid platform r in
      let v = find_client-All IsValid u.key rows all f0 in
      let v' = count_row-IsValid platform u (to_ℕ at_ms) d new v w in
      let (a, b, e) = count_row-Follows u (to_ℕ at_ms) d new w in
      let here : d ≡ c = ground (arith, f0, f) in
      (
        new,
        f',
        count_row_closed u (to_ℕ at_ms) d new v (subst (λ x. x.gate ≡ closed) (sym here) shut)
            (subst (λ x. u.counter_epoch ≡ x.counter_epoch) (sym here) same) w,
      )
