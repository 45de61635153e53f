-- ===== src/Pacing/Backoff.antt =====
-- run.go: how the wait grows with the failures in a row.
use passwall_node.Prelude.{
  ℕ, zero, suc, ◌+◌, ◌-◌, ◌*◌, ◌/◌, ◌≤◌, ◌<◌, min, ◌≡◌, refl, ap, false, Option, none, some, List,
  [], ◌∷◌, length, ℤ, arith, Bool-cases, inl, inr,
}
use passwall_node.Pacing.{
  second, max_failure_backoff, backoff_shift, backoff_ceiling, failure_backoff, Runner, Turn,
  PacingWire, run_round,
}

-- 2 to the `k`
pub doubled : ℕ → ℕ
doubled zero = 1
doubled (suc k) = 2 * doubled k

-- The longest wait behind `k` failures and one more: a second, doubled `k` times, or half a minute.
unfoldable pub longest : ℕ → ℕ
longest k = min (second * doubled k) max_failure_backoff

doubled_pos : (k : ℕ) → 1 ≤ doubled k
unfolding doubled
doubled_pos zero = omega arith
doubled_pos (suc k) = omega (arith, doubled_pos k)

late_shift : (k : ℕ) → backoff_shift (suc (suc (suc (suc (suc (suc k)))))) ≡ 5
unfolding backoff_shift
late_shift k = ground arith

backoff_ceiling-longest : (k : ℕ) → backoff_ceiling (suc k) ≡ longest k
unfolding backoff_ceiling backoff_shift longest doubled
backoff_ceiling-longest zero = refl
backoff_ceiling-longest (suc zero) = refl
backoff_ceiling-longest (suc (suc zero)) = refl
backoff_ceiling-longest (suc (suc (suc zero))) = refl
backoff_ceiling-longest (suc (suc (suc (suc zero)))) = refl
backoff_ceiling-longest (suc (suc (suc (suc (suc k))))) =
    rw (backoff_ceiling, late_shift k) (omega (arith, doubled_pos k))

module _ (Envelope : Type 0) (wire : PacingWire Envelope) (max_int : ℕ) where
  -- Failing rounds in a row
  unfoldable pub fail_rounds : List Turn → Runner Envelope → Option (Runner Envelope)
  fail_rounds [] r = some r
  fail_rounds (t ∷ ts) r = elim (run_round Envelope wire max_int t none r) [
    | none ↦ none
    | some r' ↦ fail_rounds ts r'
  ]

  -- The random part of a wait is below the span that it is drawn from.
  abbrev pub IsDrawn : ℕ → Option ℕ → Type 0
  IsDrawn failures none = Unit
  IsDrawn failures (some n) = n < backoff_ceiling failures - backoff_ceiling failures / 2

  failing :
      (ts : List Turn) (r s : Runner Envelope)
      → fail_rounds ts r ≡ some s
      → s.failures ≡ r.failures + length ts
  unfolding fail_rounds run_round
  failing [] r s h = ground (arith, h)
  failing (t ∷ ts) r s h = elim (Bool-cases (t.cancelled)) [
    | inl e ↦ cc ((rw (fail_rounds, e) at h))
    | inr e ↦ (let rest = failing ts _ s (rw (fail_rounds, e) at h) in omega (arith, rest))
  ]

  backoff_bounds :
      (k : ℕ) (random : Option ℕ)
      → IsDrawn (suc k) random
      → (longest k / 2 ≤ failure_backoff (suc k) random)
        × (failure_backoff (suc k) random ≤ longest k)
  unfolding failure_backoff
  backoff_bounds k none h =
      (omega (arith, backoff_ceiling-longest k), omega (arith, backoff_ceiling-longest k))
  backoff_bounds k (some n) h =
      (omega (arith, backoff_ceiling-longest k), omega (arith, backoff_ceiling-longest k))

  -- When a runner with no failures has had some failing rounds in a row and the next one fails too,
  -- the context not being cancelled, that round leaves it waiting for at most a second doubled once
  -- for each of the earlier ones, and at most 30 seconds, and for at least half of that; the random
  -- part of the wait is below the span that it is drawn from.
  pub fail_rounds-delay :
      (ts : List Turn) (t : Turn) (r s : Runner Envelope)
      → r.failures ≡ 0
      → fail_rounds ts r ≡ some s
      → t.cancelled ≡ false
      → IsDrawn (suc (length ts)) t.random
      → (d : ℕ) × (run_round Envelope wire max_int t none s
          ≡ some (record s { failures = suc (length ts); delay = ℤ.pos d }))
        × (longest (length ts) / 2 ≤ d)
        × (d ≤ longest (length ts))
  unfolding run_round
  fail_rounds-delay ts t r s fresh run live drawn =
      let count : s.failures ≡ length ts = omega (arith, failing ts r s run, fresh) in
      let bounds = backoff_bounds (length ts) t.random drawn in
      (failure_backoff (suc (length ts)) t.random, rw (live, ap suc count) refl, bounds.0, bounds.1)
