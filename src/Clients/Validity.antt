-- ===== src/Clients/Validity.antt =====
-- internal/state/sqlite/clients.go: what the rows of `client_runtime` satisfy between transactions.
use passwall_node.Prelude.{
  ℕ, ◌+◌, ◌≡◌, refl, Bool, false, not, ◌||◌, some, List, [], ◌∷◌, String, ◌==◌, ℤ, is_negative,
  to_ℕ, is_empty, str_eq, if◌then◌else◌, Result, ok, err, All, All-append, arith, Bool-cases,
  Option-cases, Result-cases, inl, inr, >>=-eq-ok, transact,
}
use passwall_node.Clients.{
  ensure_client, apply_client_counter, update_counters, apply_quota, apply_scheduled_quota_tx,
  apply_scheduled_quota, scheduled_loop, apply_scheduled_quotas, count_row, grant_row, rollover_row,
  is_given, grant_refused, due_keys,
}
use passwall_node.Clients.Addresses.{sort_texts}
use passwall_node.Clients.Rows.{
  ClientRuntime, CounterUpdate, QuotaGrant, Platform, new_client, find_client, put_client,
}
use passwall_node.Clients.Ceiling.{derive_gate}
use passwall_node.Clients.Table.{find_client-All, put_client-All}

-- The gate is the one that the counters and the grant give, and each half of a grant has its other half.
abbrev pub IsValid : ClientRuntime → Type 0
IsValid c =
    (derive_gate c.up_bytes c.down_bytes c.baseline_bytes c.headroom_bytes ≡ ok c.gate)
    × (is_given c.baseline_bytes ≡ is_given c.headroom_bytes)
    × (not (c.period_ends_at_ms == 0) ≡ is_given c.next_period_headroom_bytes)

new_client-IsValid : (key subject : String) (at_ms : ℕ) → IsValid (new_client key subject at_ms)
unfolding derive_gate
new_client-IsValid key subject at_ms = (refl, refl, refl)

module _ (platform : Platform) where
  pub count_row-IsValid :
      (u : CounterUpdate) (at_ms : ℕ) (c new : ClientRuntime)
      → IsValid c
      → count_row platform u at_ms c ≡ ok new
      → IsValid new
  unfolding count_row
  count_row-IsValid u at_ms c new v h = ground (arith, h, v)

  grant_row-IsValid :
      (key : String) (g : QuotaGrant) (at_ms : ℕ) (now : ℤ) (c new : ClientRuntime)
      → grant_refused key g now ≡ false
      → IsValid c
      → grant_row platform g at_ms c ≡ ok new
      → IsValid new
  unfolding grant_row grant_refused
  grant_row-IsValid key g at_ms now c new r v h = ground (arith, h, v, r)

  rollover_row-IsValid :
      (now : ℕ) (c new : ClientRuntime) → rollover_row platform now c ≡ ok new → IsValid new
  unfolding rollover_row
  rollover_row-IsValid now c new h = ground (arith, h)

  put_found :
      (m : ClientRuntime → Result ClientRuntime) (key : String) (rows : List ClientRuntime)
      (keeps : (c new : ClientRuntime) → IsValid c → m c ≡ ok new → IsValid new)
      {c new : ClientRuntime}
      → All IsValid rows
      → find_client key rows ≡ some c
      → m c ≡ ok new
      → All IsValid (put_client new rows)
  put_found m key rows keeps {c} {new} vs f h =
      put_client-All IsValid new rows (keeps c new (find_client-All IsValid key rows vs f) h) vs

  apply_client_counter-IsValid :
      (u : CounterUpdate) (at_ms : ℤ) (rows : List ClientRuntime) {r : List ClientRuntime × Bool}
      → All IsValid rows
      → apply_client_counter platform u at_ms rows ≡ ok r
      → All IsValid r.0
  unfolding apply_client_counter
  apply_client_counter-IsValid u at_ms rows vs h = elim (Option-cases (find_client u.key rows)) [
    | inl f ↦ ground (arith, h, f)
    | inr (c, f) ↦ elim (Result-cases (count_row platform u (to_ℕ at_ms) c)) [
      | inl (new, e) ↦ ground (
        arith,
        h,
        f,
        e,
        put_found (count_row platform u (to_ℕ at_ms)) u.key rows (count_row-IsValid u (to_ℕ at_ms))
            vs f e,
      )
      | inr (x, e) ↦ ground (arith, h, f, e)
    ]
  ]

  apply_scheduled_quota_tx-IsValid :
      (key : String) (now : ℤ) (rows : List ClientRuntime) {r : List ClientRuntime × Bool}
      → All IsValid rows
      → apply_scheduled_quota_tx platform key now rows ≡ ok r
      → All IsValid r.0
  unfolding apply_scheduled_quota_tx
  apply_scheduled_quota_tx-IsValid key now rows vs h = elim (Option-cases (find_client key rows)) [
    | inl f ↦ ground (arith, h, f)
    | inr (c, f) ↦ elim (Result-cases (rollover_row platform (to_ℕ now) c)) [
      | inl (new, e) ↦ ground (
        arith,
        h,
        f,
        e,
        vs,
        put_found (rollover_row platform (to_ℕ now)) key rows
            (λ c new _ e. rollover_row-IsValid (to_ℕ now) c new e) vs f e,
      )
      | inr (x, e) ↦ ground (arith, h, f, e, vs)
    ]
  ]

  scheduled_loop-IsValid :
      (now : ℤ) (keys : List String) (n : ℕ) (rows : List ClientRuntime)
      {r : List ClientRuntime × ℕ}
      → All IsValid rows
      → scheduled_loop platform now keys n rows ≡ ok r
      → All IsValid r.0
  unfolding scheduled_loop
  scheduled_loop-IsValid now [] n rows vs h = ground (arith, h, vs)
  scheduled_loop-IsValid now (key ∷ keys) n rows vs h =
      let (r, first, rest) = >>=-eq-ok (apply_scheduled_quota_tx platform key now rows) _ h in
      scheduled_loop-IsValid now keys (if r.1 then n + 1 else n) r.0
        (apply_scheduled_quota_tx-IsValid key now rows vs first) rest

  -- The rows that a transaction leaves, when each success keeps them valid.
  transact-IsValid :
      {A : Type 0} (rows : List ClientRuntime) (m : Result (List ClientRuntime × A))
      → All IsValid rows
      → ((r : List ClientRuntime × A) → m ≡ ok r → All IsValid r.0)
      → All IsValid (transact rows m).0
  transact-IsValid rows (ok r) vs keeps = keeps r refl
  transact-IsValid rows (err e) vs keeps = vs

  quota_body-IsValid :
      (key : String) (g : QuotaGrant) (at_ms : ℤ) (rows : List ClientRuntime)
      → All IsValid rows
      → All IsValid (apply_quota platform key g at_ms rows).0
  unfolding apply_quota
  quota_body-IsValid key g at_ms rows vs = elim (Bool-cases (grant_refused key g at_ms)) [
    | inl e ↦ rw e vs
    | inr e ↦ elim (Option-cases (find_client key rows)) [
      | inl f ↦ rw (e, f) vs
      | inr (c, f) ↦ elim (Bool-cases (str_eq c.quota_fingerprint (platform.quota_fingerprint g))) [
        | inl same ↦ rw (e, f) (rw same vs)
        | inr new ↦ elim (Result-cases (grant_row platform g (to_ℕ at_ms) c)) [
          | inl (new, w) ↦ ground (
            arith,
            e,
            f,
            w,
            put_found (grant_row platform g (to_ℕ at_ms)) key rows
                (λ c new v x. grant_row-IsValid key g (to_ℕ at_ms) at_ms c new e v x) vs f w,
          )
          | inr (x, w) ↦ ground (arith, e, f, w, vs)
        ]
      ]
    ]
  ]

-- One transaction on the table.
pub data Step (platform : Platform) : List ClientRuntime → List ClientRuntime → Type 0 where
  ensured :
      (key subject : String) (at_ms : ℤ) (rows : List ClientRuntime)
      → Step platform rows (ensure_client key subject at_ms rows).0
  counted_up :
      (u : CounterUpdate) (at_ms : ℤ) (rows : List ClientRuntime)
      → Step platform rows (update_counters platform u at_ms rows).0
  quota_applied :
      (key : String) (g : QuotaGrant) (at_ms : ℤ) (rows : List ClientRuntime)
      → Step platform rows (apply_quota platform key g at_ms rows).0
  scheduled :
      (key : String) (now : ℤ) (rows : List ClientRuntime)
      → Step platform rows (apply_scheduled_quota platform key now rows).0
  all_scheduled :
      (now : ℤ) (rows : List ClientRuntime)
      → Step platform rows (apply_scheduled_quotas platform now rows).0

-- The tables that transactions make of an empty one.
pub data Reachable (platform : Platform) : List ClientRuntime → Type 0 where
  empty : Reachable platform []
  after :
      {rows rows' : List ClientRuntime}
      → Reachable platform rows
      → Step platform rows rows'
      → Reachable platform rows'

ensure_client-IsValid :
    (key subject : String) (at_ms : ℤ) (rows : List ClientRuntime)
    → All IsValid rows
    → All IsValid (ensure_client key subject at_ms rows).0
unfolding ensure_client
ensure_client-IsValid key subject at_ms rows vs =
    let ext =
      All-append IsValid rows (new_client key subject (to_ℕ at_ms) ∷ []) vs
        (new_client-IsValid key subject (to_ℕ at_ms), tt) in
    elim (Bool-cases (is_empty key || is_empty subject || is_negative at_ms)) [
      | inl e ↦ rw e vs
      | inr e ↦ elim (Option-cases (find_client key rows)) [
        | inl f ↦ rw (e, f) ext
        | inr (c, f) ↦ rw (e, f) vs
      ]
    ]

-- A transaction, whichever it is and whether it succeeds or fails, keeps every row valid.
pub Step-IsValid :
    (platform : Platform) {rows rows' : List ClientRuntime}
    → Step platform rows rows'
    → All IsValid rows
    → All IsValid rows'
unfolding update_counters apply_scheduled_quota apply_scheduled_quotas
Step-IsValid p (ensured key subject at_ms rows) vs = ensure_client-IsValid key subject at_ms rows vs
Step-IsValid p (counted_up u at_ms rows) vs =
    transact-IsValid p rows (apply_client_counter p u at_ms rows) vs
      (λ r h. apply_client_counter-IsValid p u at_ms rows vs h)
Step-IsValid p (quota_applied key g at_ms rows) vs = quota_body-IsValid p key g at_ms rows vs
Step-IsValid p (scheduled key now rows) vs =
    transact-IsValid p rows (apply_scheduled_quota_tx p key now rows) vs
      (λ r h. apply_scheduled_quota_tx-IsValid p key now rows vs h)
Step-IsValid p (all_scheduled now rows) vs =
    transact-IsValid p rows (scheduled_loop p now (sort_texts (due_keys now rows)) 0 rows) vs
      (λ r h. scheduled_loop-IsValid p now (sort_texts (due_keys now rows)) 0 rows vs h)

-- In every table that transactions make of an empty one, each client's gate is the one that its
-- counters, baseline and headroom give, it has a baseline exactly if it has a headroom, and it has a
-- deadline of the period exactly if it has a headroom for the next one.
pub Reachable-IsValid :
    (platform : Platform) {rows : List ClientRuntime} → Reachable platform rows → All IsValid rows
Reachable-IsValid p empty = tt
Reachable-IsValid p (after r s) = Step-IsValid p s (Reachable-IsValid p r)
