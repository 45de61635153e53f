-- ===== src/Readiness/Changes.antt =====
-- readiness.go: the reports over any number of checks.
use passwall_node.Prelude.{
  ◌≡◌, refl, sym, ◌∙◌, ap, arith, Bool, true, false, Option, none, some, List, [], ◌∷◌, ◌++◌, map,
  String, if◌then◌else◌, str_eq, eq_iff, str_eq_refl, Bool-cases, inl, inr,
}
use passwall_node.Readiness.{
  ReadinessGate, new_readiness_gate, evaluate, is_steady, remember, report, check,
}

-- All reports of some calls of `Check`
unfoldable pub reports : List (Option (Option String)) → ReadinessGate → List (Option String)
reports [] g = []
reports (given ∷ rest) g = let (g', result, reported) = check given g in reported ++ reports rest g'

-- The results that some calls of `Check` return
unfoldable pub returns : List (Option (Option String)) → ReadinessGate → List (Option String)
returns [] g = []
returns (given ∷ rest) g = let (g', result, reported) = check given g in result ∷ returns rest g'

-- The same result
abbrev pub same_result : Option String → Option String → Bool
same_result none none = true
same_result (some a) (some b) = str_eq a b
same_result _ _ = false

-- The results that differ from the one before them
unfoldable pub changes_from : Option String → List (Option String) → List (Option String)
changes_from last [] = []
changes_from last (result ∷ results) =
    let rest = changes_from result results in
    if same_result result last then rest else result ∷ rest

-- The first result, and each one that differs from the one before it
unfoldable pub changes : List (Option String) → List (Option String)
changes [] = []
changes (result ∷ results) = result ∷ changes_from result results

-- What a gate with an `onChange`, and one without it, reports of some results
unfoldable pub heard : Bool → List (Option String) → List (Option String)
heard has_on_change results = if has_on_change then results else []

steady_after :
    (a b : Option String) (g : ReadinessGate) → is_steady a (remember b g) ≡ same_result a b
unfolding is_steady remember
steady_after none none g = str_eq_refl ""
steady_after none (some b) g = refl
steady_after (some a) none g = refl
steady_after (some a) (some b) g = refl

same_result→eq : (a b : Option String) → same_result a b ≡ true → a ≡ b
same_result→eq none none h = refl
same_result→eq none (some b) h = cc h
same_result→eq (some a) none h = cc h
same_result→eq (some a) (some b) h = ap some ((eq_iff a b).0 h)

remember_again :
    (a b : Option String) (g : ReadinessGate) → remember a (remember b g) ≡ remember a g
unfolding remember
remember_again a b g = refl

heard-report :
    (result : Option String) (results : List (Option String)) (g : ReadinessGate)
    → report result (remember result g) ++ heard g.has_on_change results
      ≡ heard g.has_on_change (result ∷ results)
unfolding report remember heard
heard-report result results g = ground arith

heard_none : (has_on_change : Bool) → heard has_on_change [] ≡ []
unfolding heard
heard_none true = refl
heard_none false = refl

reports_after :
    (givens : List (Option (Option String))) (last : Option String) (g : ReadinessGate)
    → reports givens (remember last g)
      ≡ heard g.has_on_change (changes_from last (map evaluate givens))
unfolding reports changes_from check
reports_after [] last g = sym (heard_none g.has_on_change)
reports_after (given ∷ rest) last g = elim (Bool-cases (same_result (evaluate given) last)) [
  | inl e ↦
      rw (reports, check, changes_from, steady_after (evaluate given) last g, e)
        (rw (same_result→eq (evaluate given) last e) (reports_after rest last g))
  | inr e ↦
      rw
        (
          reports,
          check,
          changes_from,
          steady_after (evaluate given) last g,
          e,
          remember_again (evaluate given) last g,
        )
        (ap (λ l. report (evaluate given) (remember (evaluate given) g) ++ l)
            (reports_after rest (evaluate given) g)
          ∙ heard-report (evaluate given) (changes_from (evaluate given) (map evaluate rest)) g)
]

returns-evaluate :
    (givens : List (Option (Option String))) (g : ReadinessGate)
    → returns givens g ≡ map evaluate givens
unfolding returns check
returns-evaluate [] g = refl
returns-evaluate (given ∷ rest) g = elim (Bool-cases (is_steady (evaluate given) g)) [
  | inl e ↦ rw (returns, check, e) (ap (λ l. evaluate given ∷ l) (returns-evaluate rest g))
  | inr e ↦
      rw (returns, check, e)
        (ap (λ l. evaluate given ∷ l) (returns-evaluate rest (remember (evaluate given) g)))
]

-- Over any calls of `Check` on a new gate, each returns what its check gives (or the error of a gate
-- with no check). A gate with an `onChange` reports the first result and each one that differs from
-- the one before it, and nothing else; a gate without one reports nothing.
pub reports-changes :
    (givens : List (Option (Option String))) (has_on_change : Bool)
    → (returns givens (new_readiness_gate has_on_change) ≡ map evaluate givens)
      × (reports givens (new_readiness_gate has_on_change)
          ≡ heard has_on_change (changes (map evaluate givens)))
unfolding reports changes check new_readiness_gate is_steady
reports-changes [] b = (returns-evaluate [] (new_readiness_gate b), sym (heard_none b))
reports-changes (given ∷ rest) b = (
  returns-evaluate (given ∷ rest) (new_readiness_gate b),
  ap (λ l. report (evaluate given) (remember (evaluate given) (new_readiness_gate b)) ++ l)
        (reports_after rest (evaluate given) (new_readiness_gate b))
      ∙ heard-report (evaluate given) (changes_from (evaluate given) (map evaluate rest))
          (new_readiness_gate b),
)
