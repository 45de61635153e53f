-- ===== src/Clients/Rollover.antt =====
-- internal/state/sqlite/clients.go: a grant that is delivered again, and the period that rolls over.
use passwall_node.Prelude.{
  ℕ, ◌+◌, ◌≡◌, refl, sym, subst, Bool, true, false, none, some, List, String, ◌==◌, ℤ, is_negative,
  to_ℕ, str_eq, str_eq→eq, str_eq_refl, if◌then◌else◌, ok, arith, Bool-cases, Option-cases,
  Result-cases, ◌⊎◌, inl, inr, transact-ok, checked_add,
}
use passwall_node.Clients.{
  apply_quota, apply_scheduled_quota_tx, apply_scheduled_quota, grant_row, rollover_row,
  grant_refused,
}
use passwall_node.Clients.Rows.{armed, closed, ClientRuntime, QuotaGrant, Platform, find_client}
use passwall_node.Clients.Ceiling.{derive_gate, add_bytes}
use passwall_node.Clients.Table.{find_client-put_client_key}

-- `d` is `c` after a rollover to the headroom `h`: what was used is the baseline, the headroom is the
-- one of the grant's next period, no deadline is left, and the gate is closed exactly if `h` is 0.
abbrev pub RolledOver : ℕ → ClientRuntime → ClientRuntime → Type 0
RolledOver h c d =
    (c.next_period_headroom_bytes ≡ some h)
    × (d.baseline_bytes ≡ some (c.up_bytes + c.down_bytes))
    × (d.headroom_bytes ≡ some h)
    × (d.period_ends_at_ms ≡ 0)
    × (d.next_period_headroom_bytes ≡ none)
    × (d.gate ≡ (if h == 0 then closed else armed))
    × (d.up_bytes ≡ c.up_bytes)
    × (d.down_bytes ≡ c.down_bytes)
    × (d.quota_fingerprint ≡ c.quota_fingerprint)

-- The row of the client has the fingerprint `print`.
abbrev HoldsGrant : String → String → List ClientRuntime → Type 0
HoldsGrant print key rows =
    (c : ClientRuntime) × (find_client key rows ≡ some c) × (c.quota_fingerprint ≡ print)

module _ (platform : Platform) where
  rollover_row-RolledOver :
      (now : ℕ) (c new : ClientRuntime)
      → rollover_row platform now c ≡ ok new
      → (h : ℕ) × RolledOver h c new × (new.key ≡ c.key)
  unfolding rollover_row add_bytes derive_gate checked_add
  rollover_row-RolledOver now c new e = elim (Option-cases c.next_period_headroom_bytes) [
    | inl none_given ↦ ground (arith, e, none_given)
    | inr (h, given) ↦ (h, ground (arith, e, given), ground (arith, e, given))
  ]

  scheduled_lem :
      (key : String) (now : ℤ) (rows rows' : List ClientRuntime) (applied : Bool)
      → apply_scheduled_quota platform key now rows ≡ (rows', ok applied)
      → (c : ClientRuntime) × (find_client key rows ≡ some c)
        × (((applied ≡ false) × (rows' ≡ rows))
            ⊎ ((new : ClientRuntime) × (applied ≡ true)
                × (find_client key rows' ≡ some new)
                × (h : ℕ) × RolledOver h c new))
  unfolding apply_scheduled_quota apply_scheduled_quota_tx
  scheduled_lem key now rows rows' applied e =
      let t = transact-ok rows (apply_scheduled_quota_tx platform key now rows) e in
      elim (Option-cases (find_client key rows)) [
        | inl f ↦ ground (arith, t, f)
        | inr (c, f) ↦ (
          c,
          f,
          elim (Bool-cases
              (platform.refresh_due c.period_ends_at_ms c.next_period_headroom_bytes now)) [
                | inl due ↦ elim (Result-cases (rollover_row platform (to_ℕ now) c)) [
                  | inl (new, w) ↦
                      (let (h, r, k) = rollover_row-RolledOver (to_ℕ now) c new w in
                        inr (
                          new,
                          ground (arith, t, f, due, w),
                          ground
                              (arith, t, f, due, w, find_client-put_client_key key c new rows f k),
                          h,
                          r,
                        ))
                  | inr (x, w) ↦ ground (arith, t, f, due, w)
                ]
                | inr early ↦ inl (ground (arith, t, f, early))
              ],
        )
      ]

  -- When a scheduled rollover of a client's quota is applied, the client had a headroom for its next
  -- period, which is its headroom from then on; what it has used is its baseline, no deadline is left,
  -- the counters stay, and the gate is closed exactly if that headroom is 0.
  pub scheduled_rollover :
      (key : String) (now : ℤ) (rows rows' : List ClientRuntime)
      → apply_scheduled_quota platform key now rows ≡ (rows', ok true)
      → (c new : ClientRuntime) × (h : ℕ) × (find_client key rows ≡ some c)
        × (find_client key rows' ≡ some new)
        × RolledOver h c new
  scheduled_rollover key now rows rows' e =
      let (c, f, o) = scheduled_lem key now rows rows' true e in
      elim o [
        | inl (early, _) ↦ ground (arith, early)
        | inr (new, _, f', h, r) ↦ (c, new, h, f, f', r)
      ]

  apply_quota_lem :
      (key : String) (g : QuotaGrant) (at_ms : ℤ) (rows rows' : List ClientRuntime)
      → apply_quota platform key g at_ms rows ≡ (rows', ok tt)
      → (grant_refused key g at_ms ≡ false) × HoldsGrant (platform.quota_fingerprint g) key rows'
  unfolding apply_quota grant_row
  apply_quota_lem key g at_ms rows rows' e = elim (Bool-cases (grant_refused key g at_ms)) [
    | inl r ↦ ground (arith, e, r)
    | inr r ↦ (
      r,
      elim (Option-cases (find_client key rows)) [
        | inl f ↦ ground (arith, e, r, f)
        | inr (c, f) ↦
            elim (Bool-cases (str_eq c.quota_fingerprint (platform.quota_fingerprint g))) [
              | inl same ↦ (
                c,
                ground (arith, e, r, f, same),
                str_eq→eq c.quota_fingerprint (platform.quota_fingerprint g) same,
              )
              | inr other ↦ elim (Result-cases (grant_row platform g (to_ℕ at_ms) c)) [
                | inl (new, w) ↦ (
                  new,
                  ground (
                    arith,
                    e,
                    r,
                    f,
                    other,
                    w,
                    find_client-put_client_key key c new rows f (ground (arith, w)),
                  ),
                  ground (arith, w),
                )
                | inr (x, w) ↦ ground (arith, e, r, f, other, w)
              ]
            ]
      ],
    )
  ]

  still_accepted :
      (key : String) (g : QuotaGrant) (at_ms again_ms : ℤ)
      → grant_refused key g at_ms ≡ false
      → is_negative again_ms ≡ false
      → grant_refused key g again_ms ≡ false
  unfolding grant_refused
  still_accepted key g at_ms again_ms r n = ground (arith, r, n)

  known_quota :
      (key : String) (g : QuotaGrant) (at_ms : ℤ) (rows : List ClientRuntime)
      → grant_refused key g at_ms ≡ false
      → HoldsGrant (platform.quota_fingerprint g) key rows
      → apply_quota platform key g at_ms rows ≡ (rows, ok tt)
  unfolding apply_quota
  known_quota key g at_ms rows r (c, f, p) =
      rw (r, f) (rw (p, str_eq_refl (platform.quota_fingerprint g)) refl)

  -- A quota grant that has been applied, and is delivered again after the client's scheduled rollover
  -- was attempted, changes nothing: it succeeds and leaves the table as the rollover left it.
  pub redelivered_quota :
      (key : String) (g : QuotaGrant) (at_ms now again_ms : ℤ)
      (rows rows1 rows2 : List ClientRuntime) (applied : Bool)
      → apply_quota platform key g at_ms rows ≡ (rows1, ok tt)
      → apply_scheduled_quota platform key now rows1 ≡ (rows2, ok applied)
      → is_negative again_ms ≡ false
      → apply_quota platform key g again_ms rows2 ≡ (rows2, ok tt)
  redelivered_quota key g at_ms now again_ms rows rows1 rows2 applied q s n =
      let (r, (c, f, p)) = apply_quota_lem key g at_ms rows rows1 q in
      let (d, f1, o) = scheduled_lem key now rows1 rows2 applied s in
      let ready = still_accepted key g at_ms again_ms r n in
      elim o [
        | inl (_, same) ↦
            known_quota key g again_ms rows2 ready
              (c, subst (λ x. find_client key x ≡ some c) (sym same) f, p)
        | inr (new, _, f2, h, k) ↦
            known_quota key g again_ms rows2 ready (new, f2, ground (arith, k, f, f1, p))
      ]
