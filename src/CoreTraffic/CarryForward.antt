-- ===== src/CoreTraffic/CarryForward.antt =====
-- core_traffic.go: the totals when a new core process replaces the one of the stored stream.
use passwall_node.Prelude.{
  ◌≡◌, refl, Bool, true, false, Option, none, some, List, [], ◌∷◌, String, str_eq, str_eq→eq,
  str_eq_refl, if◌then◌else◌, ok, arith, All, Bool-cases, inl, inr, sym, subst, ap,
}
use passwall_node.CoreTraffic.Rows.{Traffic, Total, Stream, find_total, write_total, up_of, down_of}
use passwall_node.CoreTraffic.{carry_forward, only_totals, prepare_core_traffic_stream}

-- The row is not one of the process.
abbrev pub IsOther : String → Total → Type 0
IsOther identity t = str_eq t.process_identity identity ≡ false

-- The counters of the client or listener `key` are the same.
abbrev pub SameCounts : Option Total → Option Total → Type 0
SameCounts a b = (up_of a ≡ up_of b) × (down_of a ≡ down_of b)

find_total-only_totals :
    (identity key : String) (rows : List Total)
    → find_total identity key (only_totals identity rows) ≡ find_total identity key rows
unfolding find_total only_totals
find_total-only_totals identity key [] = refl
find_total-only_totals identity key (t ∷ ts) =
    elim (Bool-cases (str_eq t.process_identity identity)) [
      | inl e ↦ rw e (
          rw e (
            ap (λ r. if str_eq t.key key then some t else r)
              (find_total-only_totals identity key ts)))
      | inr e ↦ rw e (find_total-only_totals identity key ts)
    ]

find_total_other :
    (identity key : String) (rows : List Total)
    → All (IsOther identity) rows
    → find_total identity key rows ≡ none
unfolding find_total
find_total_other identity key [] hs = refl
find_total_other identity key (t ∷ ts) hs = rw hs.0 (find_total_other identity key ts hs.1)

keep_first :
    (b : Bool) (new t : Total) (o : Option Total)
    → (if b then some new else o) ≡ (if b then some new else if b then some t else o)
keep_first true new t o = refl
keep_first false new t o = refl

apart : (x y key : String) → str_eq x y ≡ false → str_eq x key ≡ true → str_eq y key ≡ false
apart x y key k h = elim (Bool-cases (str_eq y key)) [
  | inl e ↦ ground (arith, subst (λ z. str_eq x z ≡ true) (sym (str_eq→eq y key e)) h, k)
  | inr e ↦ e
]

find_total-write_total_key :
    (new : Total) (key : String) (rows : List Total)
    → find_total new.process_identity key (write_total new rows)
      ≡ (if str_eq new.key key then some new else find_total new.process_identity key rows)
unfolding find_total write_total
find_total-write_total_key new key [] = rw (str_eq_refl new.process_identity) refl
find_total-write_total_key new key (t ∷ ts) =
    let rest = find_total-write_total_key new key ts in
    elim (Bool-cases (str_eq t.process_identity new.process_identity)) [
      | inr e ↦ rw e (rw e rest)
      | inl e ↦ elim (Bool-cases (str_eq t.key new.key)) [
        | inl k ↦
            (let same : str_eq t.key key ≡ str_eq new.key key =
                ap (λ x. str_eq x key) (str_eq→eq t.key new.key k) in
              rw (e, k)
                (rw (str_eq_refl new.process_identity, same)
                  (keep_first (str_eq new.key key) new t (find_total new.process_identity key ts))))
        | inr k ↦ elim (Bool-cases (str_eq t.key key)) [
          | inl here ↦ rw (e, k) (rw (e, here) (rw (apart t.key new.key key k here) refl))
          | inr gone ↦ rw (e, k) (rw (e, gone) rest)
        ]
      ]
    ]

carry_forward_lem :
    (identity current key : String) (ts rows : List Total)
    → All (IsOther identity) rows
    → SameCounts
        (find_total identity key (carry_forward identity current ts rows))
        (find_total current key ts)
unfolding carry_forward find_total
carry_forward_lem identity current key [] rows hs =
    rw (find_total_other identity key rows hs) (refl, refl)
carry_forward_lem identity current key (t ∷ ts) rows hs =
    let step =
      find_total-write_total_key (record t { process_identity = identity }) key
        (carry_forward identity current ts rows) in
    elim (Bool-cases (str_eq t.process_identity current)) [
      | inl e ↦ elim (Bool-cases (str_eq t.key key)) [
        | inl k ↦ rw (e, k) (rw step (rw k (refl, refl)))
        | inr k ↦ rw (e, k) (rw step (rw k (carry_forward_lem identity current key ts rows hs)))
      ]
      | inr e ↦ rw e (carry_forward_lem identity current key ts rows hs)
    ]

-- When the stream of another core process than the stored one is prepared with success, and no total
-- is stored under the new process, then each client and each listener has the same counters under the
-- new process as it had under the stored one, and the ledger of connections is empty.
pub prepare_core_traffic_stream-SameCounts :
    (identity : String) (reset : Bool) (t t' : Traffic) (s : Stream)
    → t.stream ≡ some s
    → str_eq s.process_identity identity ≡ false
    → All (IsOther identity) t.clients
    → All (IsOther identity) t.listeners
    → prepare_core_traffic_stream identity reset t ≡ ok t'
    → ((key : String)
        → SameCounts
            (find_total identity key t'.clients)
            (find_total s.process_identity key t.clients))
      × ((key : String)
          → SameCounts
              (find_total identity key t'.listeners)
              (find_total s.process_identity key t.listeners))
      × (t'.connections ≡ [])
unfolding prepare_core_traffic_stream
prepare_core_traffic_stream-SameCounts identity false t t' s f new cs ls h =
    ground (arith, (rw (f, new) at h))
prepare_core_traffic_stream-SameCounts identity true t t' s f new cs ls h =
    let clients : t'.clients
        ≡ only_totals identity (carry_forward identity s.process_identity t.clients t.clients) =
      ground (arith, (rw (f, new) at h)) in
    let listeners : t'.listeners
        ≡ only_totals identity (carry_forward identity s.process_identity t.listeners t.listeners) =
      ground (arith, (rw (f, new) at h)) in
    (
      λ key. rw clients (
          rw
            (find_total-only_totals identity key
              (carry_forward identity s.process_identity t.clients t.clients))
            (carry_forward_lem identity s.process_identity key t.clients t.clients cs)),
      λ key. rw listeners (
          rw
            (find_total-only_totals identity key
              (carry_forward identity s.process_identity t.listeners t.listeners))
            (carry_forward_lem identity s.process_identity key t.listeners t.listeners ls)),
      ground (arith, (rw (f, new) at h)),
    )
