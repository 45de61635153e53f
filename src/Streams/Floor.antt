-- ===== src/Streams/Floor.antt =====
-- streams.go: the epoch floor of a stream over any calls.
use passwall_node.Prelude.{
  ℕ, ◌≤◌, ◌<◌, ◌≡◌, refl, ap, true, false, some, List, [], ◌∷◌, String, inl, inr, leb, str_eq_refl,
  stale_version, Result, ok, err, arith, Bool-cases, Option-cases, Result-cases, same_version→eq,
  eq_iff,
}
use passwall_node.Streams.{
  StreamDocument, StoredStream, StreamPlatform, is_stream, find_stream, read_stream, stream,
  write_stream, validate_stream_document, differs, supersedes, accepted, save_stream, cleared,
  clear_stream_for_higher_epoch,
}
use passwall_node.Streams.Table.{
  Call, call, Follows, call-Follows, find_stream-write_stream, find_stream-stream,
}

-- The tables of two equal outcomes.
table_eq :
    {rows rows' : List StoredStream} {a b : Result (Unit {0})}
    → ◌≡◌ {A = List StoredStream × Result (Unit {0})} (rows, a) (rows', b)
    → rows ≡ rows'
table_eq h = ap (λ t. t.0) h

module _ (platform : StreamPlatform) where
  unfoldable pub run : List (Call platform) → List StoredStream → List StoredStream
  run [] rows = rows
  run (c ∷ cs) rows = run cs (call platform c rows)

  Follows-floor : (r r' : StoredStream) → Follows platform r r' → r.epoch_floor ≤ r'.epoch_floor
  Follows-floor r r' (inl e) = ground (arith, e)
  Follows-floor r r' (inr (inl s)) = s.floor_le
  Follows-floor r r' (inr (inr c)) = omega (arith, c.floor_lt)

  run-floor :
      (cs : List (Call platform)) (k : String) (rows : List StoredStream) (r : StoredStream)
      → find_stream k rows ≡ some r
      → (r' : StoredStream) × (find_stream k (run cs rows) ≡ some r')
        × (r.epoch_floor ≤ r'.epoch_floor)
  unfolding run
  run-floor [] k rows r found = (r, found, omega arith)
  run-floor (c ∷ cs) k rows r found =
      let (q, at_q, step) = call-Follows platform c k rows r found in
      let (r', at_r', le) = run-floor cs k (call platform c rows) q at_q in
      (r', at_r', omega (arith, le, Follows-floor r q step))

  below_floor :
      (doc : StreamDocument) (rows : List StoredStream) (r : StoredStream)
      → find_stream doc.stream rows ≡ some r
      → validate_stream_document platform doc ≡ ok tt
      → doc.version.epoch < r.epoch_floor
      → save_stream platform doc rows ≡ (rows, err stale_version)
  unfolding save_stream supersedes
  below_floor doc rows r found valid low = rw (valid, found) (ground (arith, low))

  after_clear :
      (k : String) (observed : ℕ) (rows rows' : List StoredStream) (r : StoredStream)
      → find_stream k rows ≡ some r
      → clear_stream_for_higher_epoch k observed rows ≡ (rows', ok tt)
      → (r' : StoredStream) × (find_stream k rows' ≡ some r') × (r'.epoch_floor ≡ observed)
  unfolding clear_stream_for_higher_epoch cleared
  after_clear k observed rows rows' r found h = elim (Bool-cases (is_stream k)) [
    | inr e ↦ cc ((rw (e) at h))
    | inl e ↦ elim (Bool-cases (leb observed r.epoch_floor)) [
      | inl low ↦ cc ((rw (e, found, low) at h))
      | inr high ↦
          (let e' : write_stream (cleared observed r) rows ≡ rows' =
              table_eq ((rw (e, found, high) at h)) in
            (
              cleared observed r,
              rw
                  (
                    ← e',
                    find_stream-write_stream k (cleared observed r) rows,
                    find_stream-stream k rows {r = r} found,
                    str_eq_refl k,
                  )
                  refl,
              refl,
            ))
    ]
  ]

  -- When a stream that holds a document was cleared with success for an epoch, a valid document of an
  -- older epoch is refused as stale after any further saves and clears, and changes nothing.
  pub old_epoch_refused :
      (k : String) (observed : ℕ) (rows rows' : List StoredStream) (r : StoredStream)
      (cs : List (Call platform)) (doc : StreamDocument)
      → find_stream k rows ≡ some r
      → clear_stream_for_higher_epoch k observed rows ≡ (rows', ok tt)
      → doc.stream ≡ k
      → validate_stream_document platform doc ≡ ok tt
      → doc.version.epoch < observed
      → save_stream platform doc (run cs rows') ≡ (run cs rows', err stale_version)
  old_epoch_refused k observed rows rows' r cs doc found done same valid old =
      let (q, at_q, floor) = after_clear k observed rows rows' r found done in
      let (p, at_p, le) = run-floor cs k rows' q at_q in
      below_floor doc (run cs rows') p (rw same at_p) valid (omega (arith, floor, le, old))

  -- What `Stream` reads of a stream that holds a row.
  stream_found :
      (k : String) (rows : List StoredStream) (r : StoredStream)
      → is_stream k ≡ true
      → find_stream k rows ≡ some r
      → stream k rows ≡ ok r.document
  unfolding stream read_stream
  stream_found k rows r known found = ground (arith, known, found)

  valid_stream :
      (doc : StreamDocument) (u : Unit {0})
      → validate_stream_document platform doc ≡ ok u
      → is_stream doc.stream ≡ true
  unfolding validate_stream_document
  valid_stream doc u h = ground (arith, h)

  unchanged :
      (doc : StreamDocument) (r : StoredStream)
      → supersedes platform doc r ≡ ok false
      → (r.document.version ≡ doc.version)
        × (r.document.etag ≡ doc.etag)
        × (r.document.body ≡ doc.body)
  unfolding supersedes differs
  unchanged doc r h = ground (
    arith,
    h,
    same_version→eq r.document.version doc.version,
    eq_iff r.document.etag doc.etag,
    eq_iff r.document.body doc.body,
  )

  -- After a successful save, the stream is read back at the version, the ETag and the body saved.
  pub save_stream-stream :
      (doc : StreamDocument) (rows rows' : List StoredStream)
      → save_stream platform doc rows ≡ (rows', ok tt)
      → (d : StreamDocument) × (stream doc.stream rows' ≡ ok d)
        × (d.version ≡ doc.version)
        × (d.etag ≡ doc.etag)
        × (d.body ≡ doc.body)
  unfolding save_stream accepted
  save_stream-stream doc rows rows' h =
      elim (Result-cases (validate_stream_document platform doc)) [
        | inr (x, e) ↦ cc ((rw e at h))
        | inl (u, e) ↦
            (let written : (write_stream (accepted doc) rows ≡ rows')
                  → stream doc.stream rows' ≡ ok doc =
                λ q. stream_found doc.stream rows' (accepted doc) (valid_stream doc u e) (
                  rw
                    (
                      ← q,
                      find_stream-write_stream doc.stream (accepted doc) rows,
                      str_eq_refl doc.stream,
                    )
                    refl) in
              elim (Option-cases (find_stream doc.stream rows)) [
                | inl e2 ↦ (doc, written (table_eq ((rw (e, e2) at h))), refl, refl, refl)
                | inr (r, e2) ↦ elim (Result-cases (supersedes platform doc r)) [
                  | inr (x, e3) ↦ cc ((rw (e, e2, e3) at h))
                  | inl (true, e3) ↦
                      (doc, written (table_eq ((rw (e, e2, e3) at h))), refl, refl, refl)
                  | inl (false, e3) ↦
                      (let q : rows ≡ rows' = table_eq ((rw (e, e2, e3) at h)) in
                        let u' = unchanged doc r e3 in
                        (
                          r.document,
                          stream_found doc.stream rows' r (valid_stream doc u e) (rw (← q) e2),
                          u'.0,
                          u'.1,
                          u'.2,
                        ))
                ]
              ])
      ]
