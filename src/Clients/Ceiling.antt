-- ===== src/Clients/Ceiling.antt =====
-- clients.go: `deriveGate` and `addBytes`.
use passwall_node.Prelude.{
  ℕ, Option, none, some, ltb, leb, if◌then◌else◌, plain, Result, ok, err, ◌>>=◌, checked_add,
}
use passwall_node.Clients.Rows.{Gate, unconfigured, armed, closed}

-- `addBytes`, of values that are not negative
unfoldable pub add_bytes : ℕ → ℕ → Result ℕ
unfolding checked_add
add_bytes a b = elim (checked_add a b) [ none ↦ err plain | some s ↦ ok s ]

-- `deriveGate`
unfoldable pub derive_gate : ℕ → ℕ → Option ℕ → Option ℕ → Result Gate
unfolding add_bytes
derive_gate up down none headroom = ok unconfigured
derive_gate up down (some baseline) none = ok unconfigured
derive_gate up down (some baseline) (some headroom) = do
  current ← add_bytes up down
  ceiling ← add_bytes baseline headroom
  ok (if ltb current baseline then unconfigured else if leb ceiling current then closed else armed)
