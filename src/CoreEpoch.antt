-- ===== src/CoreEpoch.antt =====
-- internal/state/sqlite/core_epoch.go: the counter epoch of the core process (`core_counter_epoch`).
pub mod Identity
use passwall_node.Prelude.{
  ℕ, ◌+◌, ◌%◌, ◌^◌, Bool, ◌||◌, Option, none, some, String, if◌then◌else◌, ltb, ◌==◌, str_eq, codes,
  is_blank, byte_length, max_uint64, plain, Result, ok, err, ◌>>=◌, transact,
}

-- The row of `core_counter_epoch`
pub record CounterEpoch : Type 0 where
  pub process_identity : String
  pub counter_epoch : ℕ

-- The guard of `ClaimCoreCounterEpoch`
unfoldable pub identity_refused : String → Bool
identity_refused identity = is_blank (codes identity) || ltb 512 (byte_length (codes identity))

-- The first epoch, of eight random bytes read as a number; `none` is a failure of the random source.
unfoldable pub first_epoch : Option ℕ → Result ℕ
first_epoch none = err plain
first_epoch (some seed) = ok (seed % 2 ^ 62 + 1)

-- The claim of a process when a row is stored.
unfoldable pub claim_stored : String → CounterEpoch → Result (Option CounterEpoch × ℕ)
claim_stored identity row =
    if row.counter_epoch == 0
    then err plain
    else if str_eq row.process_identity identity
    then ok (some row, row.counter_epoch)
    else if row.counter_epoch == max_uint64
    then err plain
    else ok (
      some (record { process_identity = identity; counter_epoch = row.counter_epoch + 1 }),
      row.counter_epoch + 1,
    )

-- The transaction of `ClaimCoreCounterEpoch`
unfoldable pub claim_row :
    String → Option ℕ → Option CounterEpoch → Result (Option CounterEpoch × ℕ)
claim_row identity seed none = first_epoch seed >>= λ epoch.
    ok (some (record { process_identity = identity; counter_epoch = epoch }), epoch)
claim_row identity seed (some row) = claim_stored identity row

-- `ClaimCoreCounterEpoch`
unfoldable pub claim_core_counter_epoch :
    String → Option ℕ → Option CounterEpoch → Option CounterEpoch × Result ℕ
claim_core_counter_epoch identity seed row =
    if identity_refused identity
    then (row, err plain)
    else transact row (claim_row identity seed row)
