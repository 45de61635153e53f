-- ===== src/Pacing.antt =====
-- internal/agent/run.go: how long the runner waits between its rounds. Durations are nanoseconds.
-- What a round takes from outside is an argument: the context, the clock, what `SyncOnce` comes to,
-- and the random part of a backoff.
pub mod Backoff
use passwall_node.Prelude.{
  ℕ, suc, ◌+◌, ◌-◌, ◌*◌, ◌/◌, ◌%◌, ◌^◌, Bool, not, Option, none, some, if◌then◌else◌, ltb, ℤ,
  is_nonpositive, to_ℕ,
}

abbrev pub second : ℕ
second = 1000000000

abbrev pub max_failure_backoff : ℕ
max_failure_backoff = 30 * second

-- A product of two durations that are not negative, as an `int64`
unfoldable pub wrap_int64 : ℕ → ℤ
wrap_int64 n = let m = n % 2 ^ 64 in if ltb m (2 ^ 63) then ℤ.pos m else ℤ.negsuc (2 ^ 64 - m - 1)

-- `pollInterval`; the default stands in the wire package
unfoldable pub poll_interval : ℕ → ℤ → ℤ
poll_interval default_seconds seconds =
    if is_nonpositive seconds
    then wrap_int64 (default_seconds * second)
    else wrap_int64 (to_ℕ seconds * second)

-- How often the ceiling of `failureBackoff` doubles; the runner counts its failures from 1.
unfoldable pub backoff_shift : ℕ → ℕ
backoff_shift failures =
    let shift = (if ltb failures 1 then 1 else failures) - 1 in if ltb 5 shift then 5 else shift

-- The ceiling of `failureBackoff`
unfoldable pub backoff_ceiling : ℕ → ℕ
backoff_ceiling failures =
    let ceiling = second * 2 ^ backoff_shift failures in
    if ltb max_failure_backoff ceiling then max_failure_backoff else ceiling

-- `failureBackoff`, with what `cryptorand.Int` gives below the span, if it does not fail
unfoldable pub failure_backoff : ℕ → Option ℕ → ℕ
failure_backoff failures none = backoff_ceiling failures
failure_backoff failures (some n) = backoff_ceiling failures / 2 + n

-- The variables of `Run`, with the last envelope
pub record Runner (Envelope : Type 0) : Type 0 where
  pub last_envelope : Envelope
  pub last_full : Option ℕ
  pub failures : ℕ
  pub delay : ℤ

-- What a round takes from outside.
pub record Turn : Type 0 where
  pub now : ℕ
  pub cancelled : Bool
  pub random : Option ℕ

module _ (Envelope : Type 0) where
  -- `SyncResult`
  pub record SyncResult : Type 0 where
    pub envelope : Envelope
    pub report_was_full : Bool
    pub report_immediately : Bool

  -- What the runner uses of the wire package: `ShouldSendFull`, the poll seconds of an envelope, and
  -- their default.
  pub record PacingWire : Type 0 where
    pub should_send_full : Envelope → ℕ → Bool
    pub next_poll_seconds : Envelope → ℤ
    pub default_next_poll_seconds : ℕ

  module _ (wire : PacingWire) (max_int : ℕ) where
    -- `since`, in seconds; the clock does not go back
    unfoldable pub since_full : ℕ → Option ℕ → ℕ
    since_full now none = max_int
    since_full now (some last) = (now - last) / second

    -- Whether the round asks for a partial report
    unfoldable pub is_partial : ℕ → Runner Envelope → Bool
    is_partial now r = not (wire.should_send_full r.last_envelope (since_full now r.last_full))

    -- A round behind `SyncOnce`, which gives `none` for an error; `none` is the return of `Run`.
    unfoldable pub run_round : Turn → Option SyncResult → Runner Envelope → Option (Runner Envelope)
    run_round t none r =
        if t.cancelled
        then none
        else some (record r {
          failures = suc r.failures;
          delay = ℤ.pos (failure_backoff (suc r.failures) t.random);
        })
    run_round t (some result) r = some (record {
      last_envelope = result.envelope;
      last_full = if result.report_was_full then some t.now else r.last_full;
      failures = 0;
      delay =
          if result.report_immediately
          then ℤ.pos 0
          else poll_interval wire.default_next_poll_seconds
              (wire.next_poll_seconds result.envelope);
    })
