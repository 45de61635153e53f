-- ===== src/CounterBatch/ClientLoop.antt =====
-- counters.go: the loop over the clients of a batch.
use passwall_node.Prelude.{
  ℕ, ◌≡◌, sym, ◌∙◌, subst, Bool, true, false, ◌||◌, some, List, [], ◌∷◌, String, str_eq, ℤ, to_ℕ,
  ok, arith, All, Bool-cases, Option-cases, Result-cases, inl, inr, >>=-eq-ok,
}
use passwall_node.Clients.{apply_client_counter, count_row}
use passwall_node.Clients.Addresses.{contains, normalize_ips}
use passwall_node.Clients.Rows.{ClientRuntime, CounterUpdate, Platform, find_client, put_client}
use passwall_node.Clients.Table.{
  find_client-key, find_client-put_client_key, find_client-put_client_other,
}
use passwall_node.CounterBatch.{validate_clients, apply_clients}
use passwall_node.CounterBatch.Keys.{differs, contains_more, contains_self}

-- The table of clients holds the update of that time: the counters, the epoch, the presence, and the
-- live addresses in the form that they are stored in.
abbrev pub ClientRecorded : Platform → ℤ → List ClientRuntime → CounterUpdate → Type 0
ClientRecorded platform at_ms rows u =
    (c : ClientRuntime) × (find_client u.key rows ≡ some c)
    × (c.up_bytes ≡ to_ℕ u.up_bytes)
    × (c.down_bytes ≡ to_ℕ u.down_bytes)
    × (c.counter_epoch ≡ u.counter_epoch)
    × (c.present ≡ u.present)
    × (normalize_ips platform.canonical_ip u.live_ips ≡ ok c.live_ips)
    × (c.updated_at_ms ≡ to_ℕ at_ms)

module _ (platform : Platform) where
  recorded_ips :
      (u : CounterUpdate) (at_ms : ℕ) (c new : ClientRuntime)
      → count_row platform u at_ms c ≡ ok new
      → normalize_ips platform.canonical_ip u.live_ips ≡ ok new.live_ips
  unfolding count_row
  recorded_ips u at_ms c new h =
      elim (Result-cases (normalize_ips platform.canonical_ip u.live_ips)) [
        | inl (ips, e) ↦ ground (arith, h, e)
        | inr (x, e) ↦ ground (arith, h, e)
      ]

  client_lem :
      (u : CounterUpdate) (at_ms : ℤ) (rows : List ClientRuntime) (r : List ClientRuntime × Bool)
      → apply_client_counter platform u at_ms rows ≡ ok r
      → ClientRecorded platform at_ms r.0 u
        × ((k : String) → str_eq u.key k ≡ false → find_client k r.0 ≡ find_client k rows)
  unfolding apply_client_counter count_row
  client_lem u at_ms rows r h = elim (Option-cases (find_client u.key rows)) [
    | inl f ↦ ground (arith, h, f)
    | inr (c, f) ↦ elim (Result-cases (count_row platform u (to_ℕ at_ms) c)) [
      | inl (new, w) ↦
          (let key : new.key ≡ c.key = ground (arith, w) in
            let put : r.0 ≡ put_client new rows = ground (arith, h, f, w) in
            (
              (
                new,
                rw put (find_client-put_client_key u.key c new rows f key),
                ground (arith, w),
                ground (arith, w),
                ground (arith, w),
                ground (arith, w),
                recorded_ips u (to_ℕ at_ms) c new w,
                ground (arith, w),
              ),
              λ k other. rw put (
                  find_client-put_client_other k new rows (
                    subst (λ x. str_eq x k ≡ false) (sym (key ∙ find_client-key u.key rows c f))
                      other)),
            ))
      | inr (x, w) ↦ ground (arith, h, f, w)
    ]
  ]

  clients_untouched :
      (us : List CounterUpdate) (at_ms : ℤ) (b : Bool) (seen : List String) (k : String)
      (rows : List ClientRuntime) (r : List ClientRuntime × Bool)
      → contains k seen ≡ true
      → validate_clients seen us ≡ ok tt
      → apply_clients platform us at_ms b rows ≡ ok r
      → find_client k r.0 ≡ find_client k rows
  unfolding apply_clients validate_clients
  clients_untouched [] at_ms b seen k rows r m v h = ground (arith, h)
  clients_untouched (u ∷ us) at_ms b seen k rows r m v h =
      let (r1, first, rest) = >>=-eq-ok (apply_client_counter platform u at_ms rows) _ h in
      let (_, others) = client_lem u at_ms rows r1 first in
      elim (Bool-cases (contains u.key seen)) [
        | inl twice ↦ ground (arith, v, twice)
        | inr once ↦
            clients_untouched us at_ms (b || r1.1) (u.key ∷ seen) k r1.0 r
              (contains_more k u.key seen m) (ground (arith, v, once)) rest
            ∙ others k (differs k u.key seen m once)
      ]

  pub clients-Recorded :
      (us : List CounterUpdate) (at_ms : ℤ) (b : Bool) (seen : List String)
      (rows : List ClientRuntime) (r : List ClientRuntime × Bool)
      → validate_clients seen us ≡ ok tt
      → apply_clients platform us at_ms b rows ≡ ok r
      → All (ClientRecorded platform at_ms r.0) us
  unfolding apply_clients validate_clients
  clients-Recorded [] at_ms b seen rows r v h = tt
  clients-Recorded (u ∷ us) at_ms b seen rows r v h =
      let (r1, first, rest) = >>=-eq-ok (apply_client_counter platform u at_ms rows) _ h in
      let ((c, f, up, down, epoch, here, ips, at), _) = client_lem u at_ms rows r1 first in
      elim (Bool-cases (contains u.key seen)) [
        | inl twice ↦ ground (arith, v, twice)
        | inr once ↦
            (let v' : validate_clients (u.key ∷ seen) us ≡ ok tt = ground (arith, v, once) in
              (
                (
                  c,
                  clients_untouched us at_ms (b || r1.1) (u.key ∷ seen) u.key r1.0 r
                        (contains_self u.key seen) v' rest
                      ∙ f,
                  up,
                  down,
                  epoch,
                  here,
                  ips,
                  at,
                ),
                clients-Recorded us at_ms (b || r1.1) (u.key ∷ seen) r1.0 r v' rest,
              ))
      ]
