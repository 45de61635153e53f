-- ===== src/CounterBatch/Keys.antt =====
-- counters.go: the keys that the validation of a batch has seen.
use passwall_node.Prelude.{
  ◌≡◌, refl, subst, true, false, List, ◌∷◌, String, str_eq, str_eq→eq, str_eq_refl, arith,
  Bool-cases, inl, inr,
}
use passwall_node.Clients.Addresses.{contains}

-- A key that is among the keys seen is not one that is not.
pub differs :
    (k k' : String) (seen : List String)
    → contains k seen ≡ true
    → contains k' seen ≡ false
    → str_eq k' k ≡ false
differs k k' seen h h' = elim (Bool-cases (str_eq k' k)) [
  | inl e ↦ ground (arith, subst (λ x. contains x seen ≡ false) (str_eq→eq k' k e) h', h)
  | inr e ↦ e
]

pub contains_more :
    (k x : String) (seen : List String) → contains k seen ≡ true → contains k (x ∷ seen) ≡ true
unfolding contains
contains_more k x seen h = rw h (ground arith)

pub contains_self : (k : String) (seen : List String) → contains k (k ∷ seen) ≡ true
unfolding contains
contains_self k seen = rw (str_eq_refl k) refl
