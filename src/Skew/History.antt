-- ===== src/Skew/History.antt =====
-- skew.go: the stored rounds of a reference against the calls that led to them.
use passwall_node.Prelude.{
  ℕ, suc, ◌≤◌, ◌<◌, ◌≡◌, refl, sym, ap, ◌∙◌, Bool, false, ◌&&◌, Option, none, some, List, [], ◌∷◌,
  String, length, All, if◌then◌else◌, ◌==◌, str_eq, str_eq→eq, str_eq_refl, eq_iff, max_int64,
  Version, same_version, same_version→eq, same_version_refl, ok, arith, Bool-cases, inl, inr,
}
use passwall_node.Skew.{
  Skew, is_reference, find_skew, write_skew, delete_skew, reference_refused, next_rounds,
  observe_reference_skew, clear_reference_skew,
}

-- A call of `ObserveReferenceSkew` or `ClearReferenceSkew`
pub data Call : Type 0 where
  observed : String → String → Version → Call
  cleared : String → String → Call

module _ (zero : Version → Bool) where
  -- The table after some calls on the empty one, the newest call first
  unfoldable pub replay : List Call → List Skew
  replay [] = []
  replay (observed kind key v ∷ calls) = (observe_reference_skew zero kind key v (replay calls)).0
  replay (cleared kind key ∷ calls) = (clear_reference_skew kind key (replay calls)).0

  -- A call that the guards let pass
  abbrev pub IsAllowed : Call → Type 0
  IsAllowed (observed kind key v) = (reference_refused kind key ≡ false) × (zero v ≡ false)
  IsAllowed (cleared kind key) = reference_refused kind key ≡ false

-- `kind` and `key` are those of the call
abbrev pub same_reference : String → String → String → String → Bool
same_reference kind key k r = str_eq k kind && str_eq r key

-- The version of the newest observation of a reference, if no clear is newer
unfoldable pub latest : String → String → List Call → Option Version
latest kind key [] = none
latest kind key (observed k r v ∷ calls) =
    let rest = latest kind key calls in if same_reference kind key k r then some v else rest
latest kind key (cleared k r ∷ calls) =
    let rest = latest kind key calls in if same_reference kind key k r then none else rest

-- How many of the newest calls on a reference are observations of a version
unfoldable pub streak : String → String → Version → List Call → ℕ
streak kind key v [] = 0
streak kind key v (observed k r w ∷ calls) =
    let rest = streak kind key v calls in
    if same_reference kind key k r then if same_version w v then suc rest else 0 else rest
streak kind key v (cleared k r ∷ calls) =
    let rest = streak kind key v calls in if same_reference kind key k r then 0 else rest

-- The row that a reference should have
abbrev pub expected : String → String → List Call → Option Version → Option Skew
expected kind key calls none = none
expected kind key calls (some v) =
    some
      (record { kind = kind; reference_key = key; version = v; rounds = streak kind key v calls })

find_skew_write :
    (kind key : String) (new : Skew) (rows : List Skew)
    → find_skew kind key (write_skew new rows)
      ≡ (if is_reference kind key new then some new else find_skew kind key rows)
unfolding find_skew write_skew is_reference
find_skew_write kind key new [] = refl
find_skew_write kind key new (s ∷ rows) = ground (
  arith,
  find_skew_write kind key new rows,
  eq_iff s.kind new.kind,
  eq_iff s.reference_key new.reference_key,
  eq_iff s.kind kind,
  eq_iff s.reference_key key,
  eq_iff new.kind kind,
  eq_iff new.reference_key key,
)

find_skew_delete :
    (kind key k r : String) (rows : List Skew)
    → find_skew kind key (delete_skew k r rows)
      ≡ (if same_reference kind key k r then none else find_skew kind key rows)
unfolding find_skew delete_skew is_reference
find_skew_delete kind key k r [] = ground arith
find_skew_delete kind key k r (s ∷ rows) = ground (
  arith,
  find_skew_delete kind key k r rows,
  eq_iff s.kind k,
  eq_iff s.reference_key r,
  eq_iff s.kind kind,
  eq_iff s.reference_key key,
  eq_iff k kind,
  eq_iff r key,
)

streak-le-length :
    (kind key : String) (v : Version) (calls : List Call) → streak kind key v calls ≤ length calls
unfolding streak
streak-le-length kind key v [] = omega arith
streak-le-length kind key v (observed k r w ∷ calls) =
    ground (arith, streak-le-length kind key v calls)
streak-le-length kind key v (cleared k r ∷ calls) =
    ground (arith, streak-le-length kind key v calls)

-- A version that is not the latest one has no streak.
streak-none :
    (kind key : String) (v : Version) (calls : List Call)
    → latest kind key calls ≡ none
    → streak kind key v calls ≡ 0
unfolding latest streak
streak-none kind key v [] h = refl
streak-none kind key v (observed k r w ∷ calls) h = ground (arith, h, streak-none kind key v calls)
streak-none kind key v (cleared k r ∷ calls) h = ground (arith, h, streak-none kind key v calls)

streak_other :
    (kind key : String) (v w : Version) (calls : List Call)
    → latest kind key calls ≡ some w
    → same_version w v ≡ false
    → streak kind key v calls ≡ 0
unfolding latest streak
streak_other kind key v w [] h e = cc h
streak_other kind key v w (observed k r u ∷ calls) h e =
    elim (Bool-cases (same_reference kind key k r)) [
      | inl here ↦
          (let it : u ≡ w = cc ((rw (latest, here) at h)) in
            let apart : same_version u v ≡ false = rw it e in rw (streak, here, apart) refl)
      | inr there ↦ rw (streak, there) (streak_other kind key v w calls (rw (latest, there) at h) e)
    ]
streak_other kind key v w (cleared k r ∷ calls) h e =
    elim (Bool-cases (same_reference kind key k r)) [
      | inl here ↦ cc ((rw (latest, here) at h))
      | inr there ↦ rw (streak, there) (streak_other kind key v w calls (rw (latest, there) at h) e)
    ]

-- One more observation counts one more round than the streak.
next_rounds-streak :
    (k r : String) (v : Version) (calls : List Call) (o : Option Version)
    → latest k r calls ≡ o
    → length calls < max_int64
    → next_rounds v (expected k r calls o) ≡ ok (suc (streak k r v calls))
unfolding next_rounds
next_rounds-streak k r v calls none h small = rw (streak-none k r v calls h) refl
next_rounds-streak k r v calls (some w) h small = elim (Bool-cases (same_version w v)) [
  | inl e ↦
      (let it : w ≡ v = same_version→eq w v e in
        let bound = streak-le-length k r w calls in
        let below : (streak k r w calls == max_int64) ≡ false = ground (arith, bound, small) in
        rw (next_rounds, e, below) (rw it (ap ok (omega arith))))
  | inr e ↦ rw (next_rounds, e, streak_other k r v w calls h e) refl
]

expected-cong :
    (kind key : String) (calls calls' : List Call) (o : Option Version)
    → ((v : Version) → streak kind key v calls' ≡ streak kind key v calls)
    → expected kind key calls' o ≡ expected kind key calls o
expected-cong kind key calls calls' none h = refl
expected-cong kind key calls calls' (some v) h =
    ap (λ n. some (record { kind = kind; reference_key = key; version = v; rounds = n })) (h v)

module _ (zero : Version → Bool) where
  observe_writes :
      (k r : String) (v : Version) (rows : List Skew) (n : ℕ)
      → reference_refused k r ≡ false
      → zero v ≡ false
      → next_rounds v (find_skew k r rows) ≡ ok n
      → (observe_reference_skew zero k r v rows).0
        ≡ write_skew (record { kind = k; reference_key = r; version = v; rounds = n }) rows
  unfolding observe_reference_skew
  observe_writes k r v rows n a b h = rw (observe_reference_skew, a, b, h) refl

  clear_deletes :
      (k r : String) (rows : List Skew)
      → reference_refused k r ≡ false
      → (clear_reference_skew k r rows).0 ≡ delete_skew k r rows
  unfolding clear_reference_skew
  clear_deletes k r rows a = rw a refl

  row_observed :
      (kind key k r : String) (v : Version) (calls : List Call)
      → find_skew kind key (replay zero calls) ≡ expected kind key calls (latest kind key calls)
      → (if is_reference kind key
            (record { kind = k; reference_key = r; version = v; rounds = suc (streak k r v calls) })
          then some (record {
            kind = k;
            reference_key = r;
            version = v;
            rounds = suc (streak k r v calls);
          })
          else find_skew kind key (replay zero calls))
        ≡ expected kind key (observed k r v ∷ calls) (latest kind key (observed k r v ∷ calls))
  unfolding is_reference latest streak
  row_observed kind key k r v calls h = elim (Bool-cases (same_reference kind key k r)) [
    | inl e ↦
        (let ek : k ≡ kind = str_eq→eq k kind (ground (arith, e)) in
          let er : r ≡ key = str_eq→eq r key (ground (arith, e)) in
          rw (ek, er)
            (rw (latest, streak, str_eq_refl kind, str_eq_refl key, same_version_refl v)
              (rw (str_eq_refl kind, str_eq_refl key) refl)))
    | inr e ↦ rw e (
        h
        ∙ sym (
            expected-cong kind key calls (observed k r v ∷ calls) (latest kind key calls)
              (λ w. rw (streak, e) refl)))
  ]

  row_cleared :
      (kind key k r : String) (calls : List Call)
      → find_skew kind key (replay zero calls) ≡ expected kind key calls (latest kind key calls)
      → (if same_reference kind key k r then none else find_skew kind key (replay zero calls))
        ≡ expected kind key (cleared k r ∷ calls) (latest kind key (cleared k r ∷ calls))
  unfolding latest streak
  row_cleared kind key k r calls h = elim (Bool-cases (same_reference kind key k r)) [
    | inl e ↦ rw (latest, e) refl
    | inr e ↦ rw e (
        h
        ∙ sym (
            expected-cong kind key calls (cleared k r ∷ calls) (latest kind key calls)
              (λ w. rw (streak, e) refl)))
  ]

  -- The row of a reference after any calls that the guards let pass, on the empty table, fewer than the
  -- largest `int64`: there is none if none of the calls observed the reference or a clear is newer, and
  -- else it holds the version of the newest observation and, for its rounds, how many of the newest
  -- calls on the reference are observations of that version.
  pub replay-expected :
      (kind key : String) (calls : List Call)
      → All (IsAllowed zero) calls
      → length calls ≤ max_int64
      → find_skew kind key (replay zero calls) ≡ expected kind key calls (latest kind key calls)
  unfolding replay
  replay-expected kind key [] ok_calls small = unfold find_skew latest in refl
  replay-expected kind key (observed k r v ∷ calls) ok_calls small =
      let before = replay-expected k r calls ok_calls.1 (omega arith) in
      let counted : next_rounds v (find_skew k r (replay zero calls))
          ≡ ok (suc (streak k r v calls)) =
        rw before (next_rounds-streak k r v calls (latest k r calls) refl (omega arith)) in
      rw
        (observe_writes k r v (replay zero calls) (suc (streak k r v calls)) ok_calls.0.0
          ok_calls.0.1 counted)
        (find_skew_write kind key
            (record { kind = k; reference_key = r; version = v; rounds = suc (streak k r v calls) })
            (replay zero calls)
          ∙ row_observed kind key k r v calls
              (replay-expected kind key calls ok_calls.1 (omega arith)))
  replay-expected kind key (cleared k r ∷ calls) ok_calls small =
      rw (clear_deletes k r (replay zero calls) ok_calls.0) (
        find_skew_delete kind key k r (replay zero calls)
        ∙ row_cleared kind key k r calls (replay-expected kind key calls ok_calls.1 (omega arith)))
