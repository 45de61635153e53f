-- ===== src/Skew/Rounds.antt =====
-- skew.go: what one observation makes of the next one.
use passwall_node.Prelude.{
  ℕ, ◌+◌, ◌<◌, ◌≡◌, refl, Bool, true, false, none, some, List, [], ◌∷◌, String, if◌then◌else◌,
  str_eq_refl, max_int64, Version, same_version, ok, arith, Bool-cases, Result-cases, inl, inr,
}
use passwall_node.Skew.{
  Skew, is_reference, find_skew, write_skew, delete_skew, reference_refused, next_rounds,
  observe_reference_skew, clear_reference_skew,
}

is_reference_self : (s : Skew) → is_reference s.kind s.reference_key s ≡ true
unfolding is_reference
is_reference_self s = rw (str_eq_refl s.kind, str_eq_refl s.reference_key) refl

find_skew-write_skew :
    (new : Skew) (rows : List Skew)
    → find_skew new.kind new.reference_key (write_skew new rows) ≡ some new
unfolding find_skew write_skew
find_skew-write_skew new [] = rw (is_reference_self new) refl
find_skew-write_skew new (s ∷ rows) =
    elim (Bool-cases (is_reference new.kind new.reference_key s)) [
      | inl e ↦ rw e (rw (is_reference_self new) refl)
      | inr e ↦ rw e (rw e (find_skew-write_skew new rows))
    ]

find_skew-delete_skew :
    (kind key : String) (rows : List Skew) → find_skew kind key (delete_skew kind key rows) ≡ none
unfolding find_skew delete_skew
find_skew-delete_skew kind key [] = refl
find_skew-delete_skew kind key (s ∷ rows) = elim (Bool-cases (is_reference kind key s)) [
  | inl e ↦ rw e (find_skew-delete_skew kind key rows)
  | inr e ↦ rw e (rw e (find_skew-delete_skew kind key rows))
]

-- An observation that the guards let pass counts as `next_rounds` says.
observe_counts :
    (zero : Version → Bool) (kind key : String) (v : Version) (rows : List Skew) (n : ℕ)
    → reference_refused kind key ≡ false
    → zero v ≡ false
    → next_rounds v (find_skew kind key rows) ≡ ok n
    → (observe_reference_skew zero kind key v rows).1 ≡ ok n
unfolding observe_reference_skew
observe_counts zero kind key v rows n a b h = rw (a, b) (rw h refl)

-- A success leaves the row of the reference, with the version and the rounds of the call.
observe_stores :
    (zero : Version → Bool) (kind key : String) (v : Version) (rows rows' : List Skew) (n : ℕ)
    → observe_reference_skew zero kind key v rows ≡ (rows', ok n)
    → (reference_refused kind key ≡ false)
      × (find_skew kind key rows'
          ≡ some (record { kind = kind; reference_key = key; version = v; rounds = n }))
unfolding observe_reference_skew
observe_stores zero kind key v rows rows' n h = elim (Bool-cases (reference_refused kind key)) [
  | inl bad ↦ ground (arith, h, bad)
  | inr good ↦ elim (Result-cases (next_rounds v (find_skew kind key rows))) [
    | inl (m, e) ↦ (
      good,
      ground (
        arith,
        h,
        good,
        e,
        find_skew-write_skew (record { kind = kind; reference_key = key; version = v; rounds = n })
            rows,
      ),
    )
    | inr (x, e) ↦ ground (arith, h, good, e)
  ]
]

-- When a reference has been observed with success, and its next observation is of a version that is
-- not zero, the next one counts one round more if the version is the same, and one if it is another.
-- The number of rounds is below the largest `int64` in this.
pub observed_next :
    (zero : Version → Bool) (kind key : String) (v w : Version) (rows rows' : List Skew) (n : ℕ)
    → observe_reference_skew zero kind key v rows ≡ (rows', ok n)
    → zero w ≡ false
    → n < max_int64
    → (observe_reference_skew zero kind key w rows').1 ≡ ok (if same_version v w then n + 1 else 1)
unfolding next_rounds
observed_next zero kind key v w rows rows' n h nonzero small =
    let (good, found) = observe_stores zero kind key v rows rows' n h in
    observe_counts zero kind key w rows' (if same_version v w then n + 1 else 1) good nonzero
      (rw found (ground (arith, small)))

-- When a reference has been cleared with success, its next observation of a version that is not zero
-- counts one round.
pub cleared_next :
    (zero : Version → Bool) (kind key : String) (w : Version) (rows rows' : List Skew)
    → clear_reference_skew kind key rows ≡ (rows', ok tt)
    → zero w ≡ false
    → (observe_reference_skew zero kind key w rows').1 ≡ ok 1
unfolding clear_reference_skew next_rounds
cleared_next zero kind key w rows rows' h nonzero = elim (Bool-cases (reference_refused kind key)) [
  | inl bad ↦ ground (arith, h, bad)
  | inr good ↦
      (let cleared : rows' ≡ delete_skew kind key rows = ground (arith, h, good) in
        observe_counts zero kind key w rows' 1 good nonzero
          (rw cleared (rw (find_skew-delete_skew kind key rows) refl)))
]
