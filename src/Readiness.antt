-- ===== src/Readiness.antt =====
-- internal/agent/readiness.go: the gate that tells its owner about changes of a check's result.
-- A result is `none` where the check passes, and else the text of its error.
pub mod Changes
use passwall_node.Prelude.{
  Bool, true, false, not, ◌&&◌, Option, none, some, List, [], ◌∷◌, String, if◌then◌else◌, str_eq,
}

-- `ReadinessGate`, less its functions; `has_on_change` is `g.onChange != nil`.
pub record ReadinessGate : Type 0 where
  pub has_on_change : Bool
  pub observed : Bool
  pub ready : Bool
  pub reason : String

-- `NewReadinessGate`, of whether it is given an `onChange`
unfoldable pub new_readiness_gate : Bool → ReadinessGate
new_readiness_gate has_on_change = record {
  has_on_change = has_on_change;
  observed = false;
  ready = false;
  reason = "";
}

abbrev pub readiness_unconfigured : String
readiness_unconfigured = "readiness check is not configured"

-- What the check gives; `none` is a gate with no check.
unfoldable pub evaluate : Option (Option String) → Option String
evaluate none = some readiness_unconfigured
evaluate (some result) = result

abbrev pub is_ready : Option String → Bool
is_ready none = true
is_ready (some reason) = false

abbrev pub reason_of : Option String → String
reason_of none = ""
reason_of (some reason) = reason

-- `a == b` on flags
abbrev pub same_flag : Bool → Bool → Bool
same_flag true b = b
same_flag false b = not b

-- `g.observed && ready == g.ready && reason == g.reason`
unfoldable pub is_steady : Option String → ReadinessGate → Bool
is_steady result g =
    g.observed && same_flag (is_ready result) g.ready && str_eq (reason_of result) g.reason

-- What the gate remembers of a result
unfoldable pub remember : Option String → ReadinessGate → ReadinessGate
remember result g = record g { observed = true; ready = is_ready result; reason = reason_of result }

-- `if g.onChange != nil { g.onChange(err) }`: what is reported
unfoldable pub report : Option String → ReadinessGate → List (Option String)
report result g = if g.has_on_change then result ∷ [] else []

-- `Check`, at what its check gives: the gate behind it, the result that it returns, and the results
-- that it reports.
unfoldable pub check :
    Option (Option String) → ReadinessGate → ReadinessGate × Option String × List (Option String)
check given g =
    let result = evaluate given in
    if is_steady result g
    then (g, result, [])
    else (remember result g, result, report result (remember result g))
