-- ===== src/Examples/Rounds.antt =====
-- internal/agent/run.go and readiness.go on concrete input: three failing rounds, and the checks of a
-- helper that comes up and fails again.
use passwall_node.Prelude.{
  ℕ, ◌/◌, ◌≤◌, ◌≡◌, refl, true, false, none, some, List, [], ◌∷◌, map, Option, String, pos, ltb,
  arith,
}
use passwall_node.Pacing.{
  Runner, Turn, PacingWire, run_round, failure_backoff, backoff_ceiling, backoff_shift,
}
use passwall_node.Pacing.Backoff.{longest, fail_rounds, fail_rounds-delay}
use passwall_node.Readiness.{
  new_readiness_gate, evaluate, check, is_steady, remember, report, readiness_unconfigured,
}
use passwall_node.Readiness.Changes.{reports, returns, changes, heard, reports-changes}

-- An envelope is its poll seconds.
abbrev wire : PacingWire ℕ
wire = record {
  should_send_full = λ e s. ltb 300 s;
  next_poll_seconds = λ e. pos e;
  default_next_poll_seconds = 30;
}

abbrev fresh : Runner ℕ
fresh = record { last_envelope = 60; last_full = none; failures = 0; delay = pos 0 }

abbrev turn : Turn
turn = record { now = 5; cancelled = false; random = some 7 }

abbrev failed_twice : Runner ℕ
failed_twice = record fresh { failures = 2; delay = pos 1000000007 }

twice : fail_rounds ℕ wire 1000 (turn ∷ turn ∷ []) fresh ≡ some failed_twice
unfolding fail_rounds run_round failure_backoff backoff_ceiling backoff_shift
twice = refl

fail_rounds-delay_example :
    (d : ℕ) × (run_round ℕ wire 1000 turn none failed_twice
      ≡ some (record failed_twice { failures = 3; delay = pos d }))
    × (longest 2 / 2 ≤ d)
    × (d ≤ longest 2)
unfolding backoff_ceiling backoff_shift
fail_rounds-delay_example =
    fail_rounds-delay ℕ wire 1000 (turn ∷ turn ∷ []) turn fresh failed_twice refl twice refl
      (omega arith)

abbrev checks : List (Option (Option String))
checks = some (some "no socket") ∷ some (some "no socket") ∷ some none ∷ some none ∷ none ∷ []

reported :
    reports checks (new_readiness_gate true)
    ≡ some "no socket" ∷ none ∷ some readiness_unconfigured ∷ []
unfolding reports check evaluate is_steady remember report new_readiness_gate
reported = refl

unheard : reports checks (new_readiness_gate false) ≡ []
unfolding reports check evaluate is_steady remember report new_readiness_gate
unheard = refl

reports-changes_example :
    (returns checks (new_readiness_gate true) ≡ map evaluate checks)
    × (reports checks (new_readiness_gate true) ≡ heard true (changes (map evaluate checks)))
reports-changes_example = reports-changes checks true
