-- ===== src/Clients/Rows.antt =====
-- internal/state/state.go: `ClientRuntime`, `QuotaGrant` and `CounterUpdate`, with the table
-- `client_runtime` of internal/state/sqlite/store.go.
use passwall_node.Prelude.{
  ℕ, Bool, false, Option, none, some, List, [], ◌∷◌, String, str_eq, if◌then◌else◌, ℤ,
}

-- The values that the column `gate` may hold.
pub data Gate : Type 0 where
  unconfigured armed closed : Gate

-- `ClientRuntime`
pub record ClientRuntime : Type 0 where
  pub key : String
  pub subject : String
  pub present : Bool
  pub up_bytes : ℕ
  pub down_bytes : ℕ
  pub counter_epoch : ℕ
  pub live_ips : List String
  pub gate : Gate
  pub baseline_bytes : Option ℕ
  pub headroom_bytes : Option ℕ
  pub period_ends_at_ms : ℕ
  pub next_period_headroom_bytes : Option ℕ
  pub quota_fingerprint : String
  pub updated_at_ms : ℕ

-- `QuotaGrant`
pub record QuotaGrant : Type 0 where
  pub baseline_bytes : ℤ
  pub headroom_bytes : Option ℤ
  pub period_ends_at_ms : ℤ
  pub next_period_headroom_bytes : Option ℤ

-- `CounterUpdate`
pub record CounterUpdate : Type 0 where
  pub key : String
  pub present : Bool
  pub up_bytes : ℤ
  pub down_bytes : ℤ
  pub counter_epoch : ℕ
  pub live_ips : List String

-- What the code calls outside this repository: the canonical form of an IP address, the digest of a
-- grant, and the wire package's `QuotaEntry.RefreshDue` of a deadline and a next headroom.
pub record Platform : Type 0 where
  pub canonical_ip : String → Option String
  pub quota_fingerprint : QuotaGrant → String
  pub refresh_due : ℕ → Option ℕ → ℤ → Bool

-- The row that `EnsureClient` inserts; the other columns have their defaults.
abbrev pub new_client : String → String → ℕ → ClientRuntime
new_client key subject at_ms = record {
  key = key;
  subject = subject;
  present = false;
  up_bytes = 0;
  down_bytes = 0;
  counter_epoch = 0;
  live_ips = [];
  gate = unconfigured;
  baseline_bytes = none;
  headroom_bytes = none;
  period_ends_at_ms = 0;
  next_period_headroom_bytes = none;
  quota_fingerprint = "";
  updated_at_ms = at_ms;
}

-- `SELECT … WHERE client_key = ?`
unfoldable pub find_client : String → List ClientRuntime → Option ClientRuntime
find_client key [] = none
find_client key (c ∷ cs) = if str_eq c.key key then some c else find_client key cs

-- `UPDATE … WHERE client_key = ?`, to the row `new`
unfoldable pub put_client : ClientRuntime → List ClientRuntime → List ClientRuntime
put_client new [] = []
put_client new (c ∷ cs) = (if str_eq c.key new.key then new else c) ∷ put_client new cs
