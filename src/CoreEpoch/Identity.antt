-- ===== src/CoreEpoch/Identity.antt =====
-- core_epoch.go: an epoch belongs to one core process, and later processes have later ones.
use passwall_node.Prelude.{
  ℕ, ◌<◌, ◌≡◌, refl, true, false, Option, none, some, String, str_eq, str_eq→eq, str_eq_refl, ok,
  arith, Bool-cases, ◌⊎◌, inl, inr, transact, ◌∙◌, sym, subst,
}
use passwall_node.CoreEpoch.{
  CounterEpoch, claim_core_counter_epoch, claim_row, claim_stored, first_epoch, identity_refused,
}

-- Claims of any processes, one after the other, and whether they succeed or fail.
pub data Claims : Option CounterEpoch → Option CounterEpoch → Type 0 where
  no_claim : (row : Option CounterEpoch) → Claims row row
  claimed :
      (identity : String) (seed : Option ℕ) {row row' : Option CounterEpoch}
      → Claims row row'
      → Claims row (claim_core_counter_epoch identity seed row').0

-- The stored row is at least as late as `epoch`, and if it is not later it is of the process.
abbrev Since : String → ℕ → Option CounterEpoch → Type 0
Since identity epoch none = ⊥
Since identity epoch (some row) =
    (epoch < row.counter_epoch) ⊎ ((row.counter_epoch ≡ epoch) × (row.process_identity ≡ identity))

-- A claim that succeeds stores its epoch and its process.
claim_stores :
    (identity : String) (seed : Option ℕ) (row row' : Option CounterEpoch) (epoch : ℕ)
    → claim_core_counter_epoch identity seed row ≡ (row', ok epoch)
    → (r : CounterEpoch) × (row' ≡ some r)
      × (r.counter_epoch ≡ epoch)
      × (r.process_identity ≡ identity)
unfolding claim_core_counter_epoch claim_row claim_stored first_epoch
claim_stores identity seed row row' epoch h = elim (Bool-cases (identity_refused identity)) [
  | inl bad ↦ ground (arith, h, bad)
  | inr good ↦ go row (rw good at h)
]
  where
    go :
        (row : Option CounterEpoch)
        → transact row (claim_row identity seed row) ≡ (row', ok epoch)
        → (r : CounterEpoch) × (row' ≡ some r)
          × (r.counter_epoch ≡ epoch)
          × (r.process_identity ≡ identity)
    go none h = (
      record { process_identity = identity; counter_epoch = epoch },
      ground (arith, h),
      refl,
      refl,
    )
    go (some r) h = elim (Bool-cases (str_eq r.process_identity identity)) [
      | inl same ↦ (
        r,
        ground (arith, h, same),
        ground (arith, h, same),
        str_eq→eq r.process_identity identity same,
      )
      | inr other ↦ (
        record { process_identity = identity; counter_epoch = epoch },
        ground (arith, h, other),
        refl,
        refl,
      )
    ]

claim-Since :
    (identity : String) (epoch : ℕ) (claimer : String) (seed : Option ℕ) (row : Option CounterEpoch)
    → Since identity epoch row
    → Since identity epoch (claim_core_counter_epoch claimer seed row).0
unfolding claim_core_counter_epoch claim_row claim_stored
claim-Since identity epoch claimer seed none s = elim s [ ]
claim-Since identity epoch claimer seed (some r) s = elim (Bool-cases (identity_refused claimer)) [
  | inl bad ↦ rw bad s
  | inr good ↦ elim (Bool-cases (str_eq r.process_identity claimer)) [
    | inl same ↦ ground (arith, good, same, s)
    | inr other ↦ ground (arith, good, other, s)
  ]
]

claims-Since :
    (identity : String) (epoch : ℕ) {row row' : Option CounterEpoch}
    → Claims row row'
    → Since identity epoch row
    → Since identity epoch row'
claims-Since identity epoch (no_claim row) s = s
claims-Since identity epoch (claimed claimer seed {row} {row'} cs) s =
    claim-Since identity epoch claimer seed row' (claims-Since identity epoch cs s)

-- An epoch that a process has claimed is its own: a claim that succeeds later, after any claims in
-- between, gives a greater epoch, or it gives the same one and is the same process's.
pub later_claim :
    (a b : String) (seed seed' : Option ℕ) (row0 row1 row2 row3 : Option CounterEpoch)
    (epoch epoch' : ℕ)
    → claim_core_counter_epoch a seed row0 ≡ (row1, ok epoch)
    → Claims row1 row2
    → claim_core_counter_epoch b seed' row2 ≡ (row3, ok epoch')
    → (epoch < epoch') ⊎ ((epoch' ≡ epoch) × (b ≡ a))
later_claim a b seed seed' row0 row1 row2 row3 epoch epoch' h cs h' =
    let (r1, w1, e1, i1) = claim_stores a seed row0 row1 epoch h in
    let (r3, w3, e3, i3) = claim_stores b seed' row2 row3 epoch' h' in
    let start : Since a epoch row1 = rw w1 (inr (e1, i1)) in
    let done = claim-Since a epoch b seed' row2 (claims-Since a epoch cs start) in
    let end : Since a epoch row3 = subst (λ x. Since a epoch x.0) h' done in
    let last : Since a epoch (some r3) = (rw w3 at end) in
    elim last [ inl l ↦ inl (omega (arith, l, e3)) | inr (e, i) ↦ inr (sym e3 ∙ e, sym i3 ∙ i) ]

claim_positive :
    (identity : String) (seed : Option ℕ) (row row' : Option CounterEpoch) (epoch : ℕ)
    → claim_core_counter_epoch identity seed row ≡ (row', ok epoch)
    → (identity_refused identity ≡ false) × (0 < epoch)
unfolding claim_core_counter_epoch claim_row claim_stored first_epoch
claim_positive identity seed none row' epoch h = ground (arith, h)
claim_positive identity seed (some r) row' epoch h =
    elim (Bool-cases (str_eq r.process_identity identity)) [
      | inl same ↦ ground (arith, h, same)
      | inr other ↦ ground (arith, h, other)
    ]

claim_own :
    (identity : String) (seed : Option ℕ) (r : CounterEpoch)
    → identity_refused identity ≡ false
    → r.process_identity ≡ identity
    → 0 < r.counter_epoch
    → claim_core_counter_epoch identity seed (some r) ≡ (some r, ok r.counter_epoch)
unfolding claim_core_counter_epoch claim_row claim_stored
claim_own identity seed r good own positive =
    let same : str_eq r.process_identity identity ≡ true = rw own (str_eq_refl identity) in
    ground (arith, good, same, positive)

-- A process that has claimed an epoch and claims again, with no other claim in between, gets the same
-- epoch, and the stored row stays.
claimed_again :
    (identity : String) (seed seed' : Option ℕ) (row row' : Option CounterEpoch) (epoch : ℕ)
    → claim_core_counter_epoch identity seed row ≡ (row', ok epoch)
    → claim_core_counter_epoch identity seed' row' ≡ (row', ok epoch)
claimed_again identity seed seed' row row' epoch h =
    let (r, w, e, i) = claim_stores identity seed row row' epoch h in
    let (good, positive) = claim_positive identity seed row row' epoch h in
    let own = claim_own identity seed' r good i (omega (arith, e, positive)) in
    ground (arith, own, w, e)
