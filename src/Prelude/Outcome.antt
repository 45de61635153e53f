-- ===== src/Prelude/Outcome.antt =====
-- The results of fallible code, and the transactions of the state store.
use mathlib.Core.Path.{◌≡◌, refl}
use mathlib.Core.Bool.{Bool, true, false}
use mathlib.Core.Logic.{◌⊎◌, inl, inr}
use native.Mathlib.Omega.{arith}

-- The sentinel errors of internal/state/state.go and of releaseid/releaseid.go; `plain` is an error
-- that wraps none of them.
pub data Error : Type 0 where
  not_found stale_version version_conflict counter_rollback core_traffic_gap : Error
  invalid_state task_identity_conflict task_terminal_conflict plain : Error
  unknown_format segment_range not_tagged not_allocated ambiguous_revision not_candidate
        superseded_candidate not_advancing finalized :
      Error

pub data Result {ℓ} (Value : Type ℓ) : Type ℓ where
  ok : Value → Result Value
  err : Error → Result Value

-- `if test { return err }`
abbrev pub refuse : Bool → Error → Result (Unit {0})
refuse true e = err e
refuse false e = ok tt

infixl 5 ◌>>=◌
abbrev pub ◌>>=◌ {ℓ κ} : {X : Type ℓ} {Y : Type κ} → Result X → (X → Result Y) → Result Y
err why >>= next = err why
ok value >>= next = next value

-- A step that is only a test.
infixl 5 ◌>>◌
abbrev pub ◌>>◌ {κ} : {Y : Type κ} → Result (Unit {0}) → Result Y → Result Y
test >> rest = test >>= λ unit. rest

-- `BeginTx`, the body, and `Commit`, or `Rollback` where the body returns an error.
abbrev pub transact {ℓ} : {S A : Type ℓ} → S → Result (S × A) → S × Result A
transact s (ok (s', a)) = (s', ok a)
transact s (err e) = (s, err e)

abbrev pub IsOk {ℓ} : {A : Type ℓ} → Result A → Type 0
IsOk (ok a) = Unit
IsOk (err e) = ⊥

pub Result-cases {ℓ} :
    {A : Type ℓ} (r : Result A) → ((a : A) × (r ≡ ok a)) ⊎ ((e : Error) × (r ≡ err e))
Result-cases (ok a) = inl (a, refl)
Result-cases (err e) = inr (e, refl)

-- A chain that succeeds: its first step did, and so did the rest from there.
pub >>=-eq-ok {ℓ κ} :
    {X : Type ℓ} {Y : Type κ} (first : Result X) (next : X → Result Y) {y : Y}
    → (first >>= next) ≡ ok y
    → (x : X) × (first ≡ ok x) × (next x ≡ ok y)
>>=-eq-ok (err why) next done = cc done
>>=-eq-ok (ok x) next done = (x, refl, done)

-- A transaction that commits ran to its end, and one that fails leaves the state as it was.
pub transact-ok {ℓ} :
    {S A : Type ℓ} (s : S) (r : Result (S × A)) {s' : S} {a : A}
    → transact s r ≡ (s', ok a)
    → r ≡ ok (s', a)
transact-ok s (ok (t, b)) h = ground (arith, h)
transact-ok s (err e) h = ground (arith, h)

pub transact-err {ℓ} :
    {S A : Type ℓ} (s : S) (r : Result (S × A)) {s' : S} {e : Error}
    → transact s r ≡ (s', err e)
    → (s' ≡ s) × (r ≡ err e)
transact-err s (ok (t, b)) h = ground (arith, h)
transact-err s (err e) h = ground (arith, h)

-- A transaction leaves the state as it was, or it succeeds.
pub transact-cases {ℓ} :
    {S A : Type ℓ} (s : S) (r : Result (S × A))
    → ((transact s r).0 ≡ s) ⊎ ((a : A) × (transact s r ≡ ((transact s r).0, ok a)))
transact-cases s (ok (t, a)) = inr (a, refl)
transact-cases s (err e) = inl refl
