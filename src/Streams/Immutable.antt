-- ===== src/Streams/Immutable.antt =====
-- streams.go: what a version of a stream stands for does not change.
use passwall_node.Prelude.{
  ◌≤◌, ◌<◌, ◌≡◌, refl, sym, ap, ◌∙◌, subst, true, false, none, some, List, [], ◌∷◌, String, ◌⊎◌,
  inl, inr, Version, arith, Bool-cases, Option-cases, if◌then◌else◌, str_eq, str_eq→eq,
}
use passwall_node.Streams.{
  StreamDocument, StoredStream, StreamPlatform, find_stream, accepted, cleared,
}
use passwall_node.Streams.Table.{
  Call, save, clear, call, Follows, call-Follows, save_stream-cases, clear-cases,
  find_stream-write_stream, find_stream-stream,
}
use passwall_node.Streams.Floor.{run}

-- What the store relies on of the wire's versions.
pub record VersionLaws (platform : StreamPlatform) : Type 0 where
  pub newer_irrefl : (v : Version) → platform.newer v v ≡ false
  pub newer_trans :
      (u v w : Version)
      → platform.newer u v ≡ true
      → platform.newer v w ≡ true
      → platform.newer u w ≡ true
  pub committed_nonzero : (v : Version) → platform.committed v ≡ true → platform.zero v ≡ false
  pub cleared_zero : platform.zero (record { epoch = 0; version = 0 }) ≡ true

module _ (platform : StreamPlatform) (laws : VersionLaws platform) where
  -- A row whose version is not cleared has that version's epoch for its floor.
  abbrev IsValid : StoredStream → Type 0
  IsValid r = platform.zero r.document.version ≡ false → r.epoch_floor ≡ r.document.version.epoch

  abbrev AllValid : List StoredStream → Type 0
  AllValid rows = (k : String) (r : StoredStream) → find_stream k rows ≡ some r → IsValid r

  Follows-IsValid : (r r' : StoredStream) → Follows platform r r' → IsValid r → IsValid r'
  Follows-IsValid r r' (inl e) v = rw e v
  Follows-IsValid r r' (inr (inl s)) v = λ z. s.floor_at
  Follows-IsValid r r' (inr (inr c)) v = λ z.
      (let q : platform.zero r'.document.version ≡ true = rw c.is_cleared laws.cleared_zero in cc)

  -- Where a stream had no row, a call leaves none or a valid one.
  fresh-IsValid :
      (c : Call platform) (k : String) (rows : List StoredStream) (r : StoredStream)
      → find_stream k rows ≡ none
      → find_stream k (call platform c rows) ≡ some r
      → IsValid r
  unfolding call accepted cleared
  fresh-IsValid (save doc) k rows r missing found = elim (save_stream-cases platform doc rows) [
    | inl e ↦ cc ((rw e at found))
    | inr (fine, e, sup) ↦
        (let now : (if str_eq doc.stream k then some (accepted doc) else find_stream k rows)
              ≡ some r =
            sym (find_stream-write_stream k (accepted doc) rows) ∙ (rw e at found) in
          elim (Bool-cases (str_eq doc.stream k)) [
            | inl same ↦ (let it : r ≡ accepted doc = cc ((rw same at now)) in rw it λ z. refl)
            | inr other ↦ cc ((rw other at now))
          ])
  ]
  fresh-IsValid (clear l observed) k rows r missing found =
      elim (clear-cases platform l observed rows) [
        | inl e ↦ cc ((rw e at found))
        | inr (q, at, high, e) ↦
            (let of_l : q.document.stream ≡ l = find_stream-stream l rows {r = q} at in
              let now : (if str_eq q.document.stream k
                    then some (cleared observed q)
                    else find_stream k rows)
                  ≡ some r =
                sym (find_stream-write_stream k (cleared observed q) rows) ∙ (rw e at found) in
              elim (Bool-cases (str_eq q.document.stream k)) [
                | inl same ↦ absurd (cc (str_eq→eq q.document.stream k same))
                | inr other ↦ cc ((rw other at now))
              ])
      ]

  nothing_found : AllValid []
  unfolding find_stream
  nothing_found k r found = cc found

  run-AllValid :
      (cs : List (Call platform)) (rows : List StoredStream)
      → AllValid rows
      → AllValid (run platform cs rows)
  unfolding run
  run-AllValid [] rows v = v
  run-AllValid (c ∷ cs) rows v = run-AllValid cs (call platform c rows) λ k r found.
      elim (Option-cases (find_stream k rows)) [
        | inl missing ↦ fresh-IsValid c k rows r missing found
        | inr (q, at) ↦
            (let (r', found', step) = call-Follows platform c k rows q at in
              let it : r' ≡ r = cc in subst IsValid it (Follows-IsValid q r' step (v k q at)))
      ]

  -- How a row stands to a committed document that the stream held before.
  abbrev Holds : StreamDocument → StoredStream → Type 0
  Holds d r =
      ((r.document.version ≡ d.version)
        × (r.document.etag ≡ d.etag)
        × (r.document.body ≡ d.body)
        × (d.version.epoch ≤ r.epoch_floor))
      ⊎ (d.version.epoch < r.epoch_floor)
      ⊎ ((platform.newer r.document.version d.version ≡ true)
          × (platform.zero r.document.version ≡ false)
          × (d.version.epoch ≤ r.epoch_floor))

  Follows-Holds :
      (d : StreamDocument) (r r' : StoredStream)
      → platform.committed d.version ≡ true
      → Follows platform r r'
      → Holds d r
      → Holds d r'
  Follows-Holds d r r' fine (inl e) h = rw e h
  Follows-Holds d r r' fine (inr (inr c)) (inl h) = inr (inl (omega (arith, c.floor_lt, h.3)))
  Follows-Holds d r r' fine (inr (inr c)) (inr (inl h)) = inr (inl (omega (arith, c.floor_lt, h)))
  Follows-Holds d r r' fine (inr (inr c)) (inr (inr h)) = inr (inl (omega (arith, c.floor_lt, h.2)))
  Follows-Holds d r r' fine (inr (inl s)) (inr (inl h)) = inr (inl (omega (arith, s.floor_le, h)))
  Follows-Holds d r r' fine (inr (inl s)) (inl h) = inr (
      inr (
        elim (s.is_newer) [
          | inl z ↦ absurd (cc (laws.committed_nonzero d.version fine))
          | inr n ↦ subst (λ v. platform.newer r'.document.version v ≡ true) h.0 n
        ],
        laws.committed_nonzero r'.document.version s.is_committed,
        omega (arith, s.floor_le, h.3),
      ))
  Follows-Holds d r r' fine (inr (inl s)) (inr (inr h)) = inr (
      inr (
        elim (s.is_newer) [
          | inl z ↦ absurd (cc h.1)
          | inr n ↦ laws.newer_trans r'.document.version r.document.version d.version n h.0
        ],
        laws.committed_nonzero r'.document.version s.is_committed,
        omega (arith, s.floor_le, h.2),
      ))

  run-Holds :
      (cs : List (Call platform)) (d : StreamDocument) (k : String) (rows : List StoredStream)
      (r : StoredStream)
      → platform.committed d.version ≡ true
      → find_stream k rows ≡ some r
      → Holds d r
      → (r' : StoredStream) × (find_stream k (run platform cs rows) ≡ some r') × Holds d r'
  unfolding run
  run-Holds [] d k rows r fine found h = (r, found, h)
  run-Holds (c ∷ cs) d k rows r fine found h =
      let (q, at_q, step) = call-Follows platform c k rows r found in
      run-Holds cs d k (call platform c rows) q fine at_q (Follows-Holds d r q fine step h)

  -- A row at the version of the earlier document holds that document.
  Holds-same :
      (d : StreamDocument) (r : StoredStream)
      → platform.committed d.version ≡ true
      → IsValid r
      → r.document.version ≡ d.version
      → Holds d r
      → (r.document.etag ≡ d.etag) × (r.document.body ≡ d.body)
  Holds-same d r fine valid same (inl h) = (h.1, h.2)
  Holds-same d r fine valid same (inr (inl h)) = absurd (
      omega (
        arith,
        h,
        valid (rw same (laws.committed_nonzero d.version fine)),
        ap (λ (v : Version). v.epoch) same,
      ))
  Holds-same d r fine valid same (inr (inr h)) =
      absurd
        (cc (laws.newer_irrefl d.version, subst (λ v. platform.newer v d.version ≡ true) same h.0))

  -- Two rows that a stream holds at different times of a run from the empty table, at the same
  -- committed version, have the same ETag and the same body: no save and no clear lets other bytes
  -- take a version that was accepted.
  pub version_identifies_body :
      (before after : List (Call platform)) (k : String) (r r' : StoredStream)
      → find_stream k (run platform before []) ≡ some r
      → find_stream k (run platform after (run platform before [])) ≡ some r'
      → platform.committed r.document.version ≡ true
      → r'.document.version ≡ r.document.version
      → (r'.document.etag ≡ r.document.etag) × (r'.document.body ≡ r.document.body)
  version_identifies_body before after k r r' found found' fine same =
      let valid : AllValid (run platform before []) = run-AllValid before [] (nothing_found) in
      let floor : r.epoch_floor ≡ r.document.version.epoch =
        valid k r found (laws.committed_nonzero r.document.version fine) in
      let (q, at_q, h) =
        run-Holds after r.document k (run platform before []) r fine found
          (inl (refl, refl, refl, omega (arith, floor))) in
      let it : q ≡ r' = cc in
      Holds-same r.document r' fine (run-AllValid after (run platform before []) valid k r' found')
        same (subst (Holds r.document) it h)
