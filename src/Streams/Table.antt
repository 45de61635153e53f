-- ===== src/Streams/Table.antt =====
-- streams.go: what one call of `SaveStream` or `ClearStreamForHigherEpoch` makes of a stream's row.
use passwall_node.Prelude.{
  ℕ, ◌≤◌, ◌<◌, ◌≡◌, refl, true, false, some, List, [], ◌∷◌, String, ◌⊎◌, inl, inr, if◌then◌else◌,
  leb, str_eq, str_eq→eq, eq_iff, ok, arith, Bool-cases, Option-cases, Result-cases,
}
use passwall_node.Streams.{
  StreamDocument, StoredStream, StreamPlatform, is_stream, find_stream, write_stream,
  validate_stream_document, supersedes, accepted, save_stream, cleared,
  clear_stream_for_higher_epoch,
}

pub find_stream-write_stream :
    (k : String) (new : StoredStream) (rows : List StoredStream)
    → find_stream k (write_stream new rows)
      ≡ (if str_eq new.document.stream k then some new else find_stream k rows)
unfolding find_stream write_stream
find_stream-write_stream k new [] = refl
find_stream-write_stream k new (r ∷ rows) = ground (
  arith,
  find_stream-write_stream k new rows,
  eq_iff r.document.stream new.document.stream,
  eq_iff r.document.stream k,
  eq_iff new.document.stream k,
)

-- The row found is of the stream.
pub find_stream-stream :
    (k : String) (rows : List StoredStream) {r : StoredStream}
    → find_stream k rows ≡ some r
    → r.document.stream ≡ k
unfolding find_stream
find_stream-stream k [] h = cc h
find_stream-stream k (x ∷ rows) {r = r} h =
    ground (arith, find_stream-stream k rows {r = r}, eq_iff x.document.stream k)

module _ (platform : StreamPlatform) where
  -- A call that changes the table.
  pub data Call : Type 0 where
    save : StreamDocument → Call
    clear : String → ℕ → Call

  unfoldable pub call : Call → List StoredStream → List StoredStream
  call (save doc) rows = (save_stream platform doc rows).0
  call (clear k observed) rows = (clear_stream_for_higher_epoch k observed rows).0

  -- The row that a later document leaves.
  pub record Saved (r r' : StoredStream) : Type 0 where
    pub is_committed : platform.committed r'.document.version ≡ true
    pub floor_at : r'.epoch_floor ≡ r'.document.version.epoch
    pub floor_le : r.epoch_floor ≤ r'.epoch_floor
    pub is_newer :
        (platform.zero r.document.version ≡ true)
        ⊎ (platform.newer r'.document.version r.document.version ≡ true)

  -- The row that a clear leaves.
  pub record Cleared (r r' : StoredStream) : Type 0 where
    pub is_cleared : r'.document.version ≡ record { epoch = 0; version = 0 }
    pub floor_lt : r.epoch_floor < r'.epoch_floor

  abbrev pub Follows : StoredStream → StoredStream → Type 0
  Follows r r' = (r' ≡ r) ⊎ Saved r r' ⊎ Cleared r r'

  validated :
      (doc : StreamDocument) (u : Unit {0})
      → validate_stream_document platform doc ≡ ok u
      → platform.committed doc.version ≡ true
  unfolding validate_stream_document
  validated doc u h = ground (arith, h)

  pub superseded :
      (doc : StreamDocument) (r : StoredStream)
      → supersedes platform doc r ≡ ok true
      → (r.epoch_floor ≤ doc.version.epoch)
        × ((platform.zero r.document.version ≡ true)
            ⊎ (platform.newer doc.version r.document.version ≡ true))
  unfolding supersedes
  superseded doc r h = ground (arith, h)

  -- A save leaves the table, or it writes a document that supersedes the one that is stored.
  abbrev pub Writes : StreamDocument → List StoredStream → Type 0
  Writes doc rows =
      (platform.committed doc.version ≡ true)
      × ((save_stream platform doc rows).0 ≡ write_stream (accepted doc) rows)
      × ((r : StoredStream)
          → find_stream doc.stream rows ≡ some r
          → supersedes platform doc r ≡ ok true)

  pub save_stream-cases :
      (doc : StreamDocument) (rows : List StoredStream)
      → ((save_stream platform doc rows).0 ≡ rows) ⊎ Writes doc rows
  unfolding save_stream
  save_stream-cases doc rows = elim (Result-cases (validate_stream_document platform doc)) [
    | inr (x, e) ↦ inl (rw e refl)
    | inl (u, e) ↦ elim (Option-cases (find_stream doc.stream rows)) [
      | inl none_found ↦ inr (validated doc u e, rw (e, none_found) refl, λ r q. cc)
      | inr (r, found) ↦ elim (Result-cases (supersedes platform doc r)) [
        | inr (x, refused) ↦ inl (rw (e, found) (rw refused refl))
        | inl (true, go) ↦ inr (
          validated doc u e,
          rw (e, found) (rw go refl),
          λ r' q. (let same : r' ≡ r = cc in rw same go),
        )
        | inl (false, stay) ↦ inl (rw (e, found) (rw stay refl))
      ]
    ]
  ]

  save-Follows :
      (doc : StreamDocument) (k : String) (rows : List StoredStream) (r : StoredStream)
      → find_stream k rows ≡ some r
      → (r' : StoredStream) × (find_stream k (save_stream platform doc rows).0 ≡ some r')
        × Follows r r'
  unfolding accepted
  save-Follows doc k rows r found = elim (save_stream-cases doc rows) [
    | inl e ↦ (r, rw e found, inl refl)
    | inr (fine, e, sup) ↦ elim (Bool-cases (str_eq doc.stream k)) [
      | inl same ↦
          (let later = superseded doc r (sup r (rw (str_eq→eq doc.stream k same) found)) in
            (
              accepted doc,
              rw (e, find_stream-write_stream k (accepted doc) rows) (rw same refl),
              inr (
                  inl (record {
                    is_committed = fine;
                    floor_at = refl;
                    floor_le = later.0;
                    is_newer = later.1;
                  })),
            ))
      | inr other ↦
          (r, rw (e, find_stream-write_stream k (accepted doc) rows) (rw other found), inl refl)
    ]
  ]

  -- A clear leaves the table, or it clears the row of its stream for an epoch above its floor.
  pub clear-cases :
      (k : String) (observed : ℕ) (rows : List StoredStream)
      → ((clear_stream_for_higher_epoch k observed rows).0 ≡ rows)
        ⊎ ((r : StoredStream) × (find_stream k rows ≡ some r)
            × (r.epoch_floor < observed)
            × ((clear_stream_for_higher_epoch k observed rows).0
                ≡ write_stream (cleared observed r) rows))
  unfolding clear_stream_for_higher_epoch
  clear-cases k observed rows = elim (Bool-cases (is_stream k)) [
    | inr e ↦ inl (rw e refl)
    | inl e ↦ elim (Option-cases (find_stream k rows)) [
      | inl e2 ↦ inl (rw (e, e2) refl)
      | inr (r, e2) ↦ elim (Bool-cases (leb observed r.epoch_floor)) [
        | inl low ↦ inl (rw (e, e2) (rw low refl))
        | inr high ↦ inr (r, e2, ground (arith, high), rw (e, e2) (rw high refl))
      ]
    ]
  ]

  clear-Follows :
      (l : String) (observed : ℕ) (k : String) (rows : List StoredStream) (r : StoredStream)
      → find_stream k rows ≡ some r
      → (r' : StoredStream) × (find_stream k (clear_stream_for_higher_epoch l observed rows).0
          ≡ some r')
        × Follows r r'
  unfolding cleared
  clear-Follows l observed k rows r found = elim (clear-cases l observed rows) [
    | inl e ↦ (r, rw e found, inl refl)
    | inr (q, at, high, e) ↦
        (let of_l : q.document.stream ≡ l = find_stream-stream l rows {r = q} at in
          elim (Bool-cases (str_eq l k)) [
            | inl same ↦
                (let it : q ≡ r = cc (str_eq→eq l k same) in
                  (
                    cleared observed q,
                    rw (e, find_stream-write_stream k (cleared observed q) rows, of_l)
                        (rw same refl),
                    inr (inr (record { is_cleared = refl; floor_lt = ground (arith, it) })),
                  ))
            | inr other ↦ (
              r,
              rw (e, find_stream-write_stream k (cleared observed q) rows, of_l) (rw other found),
              inl refl,
            )
          ])
  ]

  -- What one call makes of the row of a stream.
  pub call-Follows :
      (c : Call) (k : String) (rows : List StoredStream) (r : StoredStream)
      → find_stream k rows ≡ some r
      → (r' : StoredStream) × (find_stream k (call c rows) ≡ some r') × Follows r r'
  unfolding call
  call-Follows (save doc) k rows r found = save-Follows doc k rows r found
  call-Follows (clear l observed) k rows r found = clear-Follows l observed k rows r found
