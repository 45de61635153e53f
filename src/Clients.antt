-- ===== src/Clients.antt =====
-- internal/state/sqlite/clients.go: the counters, quota grants and quota gates of the roster's
-- clients (`client_runtime`), with the types of internal/state/state.go.
-- The table is a list of rows. `client_key` is its primary key, so an UPDATE by key rewrites the row
-- that the same transaction has read. Byte counts and instants that a caller passes are integers;
-- the columns have CHECK (… >= 0) and are natural numbers. SQLite's own failures are left out.
pub mod Rows
pub mod Table
pub mod Ceiling
pub mod Addresses
pub mod Validity
pub mod Enforcement
pub mod Rollover
use passwall_node.Prelude.{
  ℕ, ◌+◌, Bool, true, false, not, ◌&&◌, ◌||◌, Option, none, some, List, [], ◌∷◌, ◌++◌, String, ltb,
  leb, ◌==◌, if◌then◌else◌, str_eq, is_empty, ℤ, pos, negsuc, is_negative, to_ℕ, not_found,
  counter_rollback, plain, Result, ok, err, ◌>>=◌, ◌>>◌, refuse, transact,
}
use Rows.{
  Gate, unconfigured, armed, closed, ClientRuntime, QuotaGrant, CounterUpdate, Platform,
  find_client, put_client, new_client,
}
use Addresses.{normalize_ips, sort_texts}
use Ceiling.{derive_gate, add_bytes}

unfoldable pub same_gate : Gate → Gate → Bool
same_gate unconfigured unconfigured = true
same_gate armed armed = true
same_gate closed closed = true
same_gate _ _ = false

-- `EnsureClient`
unfoldable pub ensure_client :
    String → String → ℤ → List ClientRuntime → List ClientRuntime × Result (Unit {0})
ensure_client key subject at_ms rows =
    if is_empty key || is_empty subject || is_negative at_ms
    then (rows, err plain)
    else elim (find_client key rows) [
      | none ↦ (rows ++ new_client key subject (to_ℕ at_ms) ∷ [], ok tt)
      | some c ↦ (rows, if str_eq c.subject subject then ok tt else err plain)
    ]

-- `update.CounterEpoch < current.CounterEpoch`, or the same epoch with a smaller counter
unfoldable pub rolls_back : ClientRuntime → ℕ → ℕ → ℕ → Bool
rolls_back c epoch up down =
    ltb epoch c.counter_epoch
    || (epoch == c.counter_epoch && (ltb up c.up_bytes || ltb down c.down_bytes))

-- The columns that a counter update sets.
abbrev pub counted : CounterUpdate → Gate → List String → ℕ → ClientRuntime → ClientRuntime
counted u gate ips at_ms c = record c {
  present = u.present;
  up_bytes = to_ℕ u.up_bytes;
  down_bytes = to_ℕ u.down_bytes;
  counter_epoch = u.counter_epoch;
  gate = gate;
  updated_at_ms = at_ms;
  live_ips = ips;
}

-- `p != nil && *p < 0`
abbrev pub negative_part : Option ℤ → Bool
negative_part none = false
negative_part (some x) = is_negative x

abbrev pub is_zero : ℤ → Bool
is_zero (pos n) = n == 0
is_zero (negsuc n) = false

-- `(g.PeriodEndsAtMS == 0) != (g.NextPeriodHeadroomBytes == nil)`
abbrev pub half_given : ℤ → Option ℤ → Bool
half_given ends none = not (is_zero ends)
half_given ends (some next) = is_zero ends

-- The guards of `ApplyQuota`.
unfoldable pub grant_refused : String → QuotaGrant → ℤ → Bool
grant_refused key g at_ms =
    is_empty key
    || is_negative g.baseline_bytes
    || is_negative at_ms
    || negative_part g.headroom_bytes
    || half_given g.period_ends_at_ms g.next_period_headroom_bytes
    || is_negative g.period_ends_at_ms
    || negative_part g.next_period_headroom_bytes

abbrev pub column : Option ℤ → Option ℕ
column none = none
column (some x) = some (to_ℕ x)

-- `pointerIfConfigured`, and the `baseline` column
abbrev pub if_configured : ℤ → Option ℤ → Option ℕ
if_configured x none = none
if_configured x (some y) = some (to_ℕ x)

-- The columns that a grant sets.
abbrev pub granted : QuotaGrant → Gate → String → ℕ → ClientRuntime → ClientRuntime
granted g gate fingerprint at_ms c = record c {
  gate = gate;
  baseline_bytes = if_configured g.baseline_bytes g.headroom_bytes;
  headroom_bytes = column g.headroom_bytes;
  period_ends_at_ms = to_ℕ g.period_ends_at_ms;
  next_period_headroom_bytes = column g.next_period_headroom_bytes;
  quota_fingerprint = fingerprint;
  updated_at_ms = at_ms;
}

-- The columns that a scheduled rollover sets.
abbrev pub rolled_over : ℕ → ℕ → Gate → ℕ → ClientRuntime → ClientRuntime
rolled_over baseline headroom gate at_ms c = record c {
  gate = gate;
  baseline_bytes = some baseline;
  headroom_bytes = some headroom;
  period_ends_at_ms = 0;
  next_period_headroom_bytes = none;
  updated_at_ms = at_ms;
}

abbrev pub is_given : Option ℕ → Bool
is_given none = false
is_given (some x) = true

-- `period_ends_at_ms <= now`
abbrev reached : ℕ → ℤ → Bool
reached ends (pos now) = leb ends now
reached ends (negsuc n) = false

-- The query of `ApplyScheduledQuotas`; `ORDER BY client_key` is the sort of its result.
unfoldable pub due_keys : ℤ → List ClientRuntime → List String
due_keys now [] = []
due_keys now (c ∷ cs) =
    let rest = due_keys now cs in
    if ltb 0 c.period_ends_at_ms
      && is_given c.next_period_headroom_bytes
      && reached c.period_ends_at_ms now
    then c.key ∷ rest
    else rest

module _ (platform : Platform) where
  -- `applyClientCounter` of the row that it has read: the new row
  unfoldable pub count_row : CounterUpdate → ℕ → ClientRuntime → Result ClientRuntime
  count_row u at_ms c = do
    refuse (rolls_back c u.counter_epoch (to_ℕ u.up_bytes) (to_ℕ u.down_bytes)) counter_rollback
    gate ← derive_gate (to_ℕ u.up_bytes) (to_ℕ u.down_bytes) c.baseline_bytes c.headroom_bytes
    ips ← normalize_ips platform.canonical_ip u.live_ips
    ok (counted u gate ips at_ms c)

  -- `applyClientCounter`
  unfoldable pub apply_client_counter :
      CounterUpdate → ℤ → List ClientRuntime → Result (List ClientRuntime × Bool)
  apply_client_counter u at_ms rows =
      if is_empty u.key || is_negative u.up_bytes || is_negative u.down_bytes || is_negative at_ms
      then err plain
      else elim (find_client u.key rows) [
        | none ↦ err not_found
        | some c ↦ (do
          new ← count_row u (to_ℕ at_ms) c
          ok (put_client new rows, not (same_gate new.gate c.gate)))
      ]

  -- `UpdateCounters`
  unfoldable pub update_counters :
      CounterUpdate → ℤ → List ClientRuntime → List ClientRuntime × Result Bool
  update_counters u at_ms rows = transact rows (apply_client_counter u at_ms rows)

  -- `ApplyQuota` of the row that it has read: the new row
  unfoldable pub grant_row : QuotaGrant → ℕ → ClientRuntime → Result ClientRuntime
  grant_row g at_ms c = do
    gate ←
        derive_gate c.up_bytes c.down_bytes (if_configured g.baseline_bytes g.headroom_bytes)
          (column g.headroom_bytes)
    ok (granted g gate (platform.quota_fingerprint g) at_ms c)

  -- `ApplyQuota`
  unfoldable pub apply_quota :
      String → QuotaGrant → ℤ → List ClientRuntime → List ClientRuntime × Result (Unit {0})
  apply_quota key g at_ms rows = transact rows (do
    refuse (grant_refused key g at_ms) plain
    elim (find_client key rows) [
      | none ↦ err not_found
      | some c ↦
          if str_eq c.quota_fingerprint (platform.quota_fingerprint g)
          then ok (rows, tt)
          else (do new ← grant_row g (to_ℕ at_ms) c; ok (put_client new rows, tt))
    ])

  -- The rollover of a row that is due; a next headroom that is `nil` would be a panic.
  unfoldable pub rollover_row : ℕ → ClientRuntime → Result ClientRuntime
  rollover_row now c = do
    baseline ← add_bytes c.up_bytes c.down_bytes
    elim c.next_period_headroom_bytes [
      | none ↦ err plain
      | some headroom ↦ (do
        gate ← derive_gate c.up_bytes c.down_bytes (some baseline) (some headroom)
        ok (rolled_over baseline headroom gate now c))
    ]

  -- `applyScheduledQuotaTx`
  unfoldable pub apply_scheduled_quota_tx :
      String → ℤ → List ClientRuntime → Result (List ClientRuntime × Bool)
  apply_scheduled_quota_tx key now rows = elim (find_client key rows) [
    | none ↦ err not_found
    | some c ↦
        if platform.refresh_due c.period_ends_at_ms c.next_period_headroom_bytes now
        then (do new ← rollover_row (to_ℕ now) c; ok (put_client new rows, true))
        else ok (rows, false)
  ]

  -- `ApplyScheduledQuota`
  unfoldable pub apply_scheduled_quota :
      String → ℤ → List ClientRuntime → List ClientRuntime × Result Bool
  apply_scheduled_quota key now rows = transact rows (apply_scheduled_quota_tx key now rows)

  -- The loop of `ApplyScheduledQuotas` over the keys that its query lists.
  unfoldable pub scheduled_loop :
      ℤ → List String → ℕ → List ClientRuntime → Result (List ClientRuntime × ℕ)
  scheduled_loop now [] applied rows = ok (rows, applied)
  scheduled_loop now (key ∷ keys) applied rows = apply_scheduled_quota_tx key now rows >>= λ r.
      scheduled_loop now keys (if r.1 then applied + 1 else applied) r.0

  -- `ApplyScheduledQuotas`
  unfoldable pub apply_scheduled_quotas : ℤ → List ClientRuntime → List ClientRuntime × Result ℕ
  apply_scheduled_quotas now rows =
      transact rows (scheduled_loop now (sort_texts (due_keys now rows)) 0 rows)
