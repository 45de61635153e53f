-- ===== src/Streams.antt =====
-- internal/state/sqlite/streams.go: the accepted document of each stream, in `stream_documents`.
-- The BLOBs of the table's `uint64` are the numbers that they encode (Codec).
pub mod Table
pub mod Floor
pub mod Immutable
use passwall_node.Prelude.{
  ℕ, Bool, true, false, not, ◌&&◌, ◌||◌, Option, none, some, List, [], ◌∷◌, String, if◌then◌else◌,
  ltb, leb, str_eq, is_empty, ℤ, is_negative, Version, same_version, not_found, stale_version,
  version_conflict, invalid_state, plain, Result, ok, err, ◌>>=◌, ◌>>◌, refuse, transact,
}

-- `StreamDocument`; the body and the digest that is its ETag are texts.
pub record StreamDocument : Type 0 where
  pub stream : String
  pub version : Version
  pub etag : String
  pub body : String
  pub accepted_at_ms : ℤ

-- A row of `stream_documents`, which is what `storedStream` reads of it.
pub record StoredStream : Type 0 where
  pub document : StreamDocument
  pub epoch_floor : ℕ

-- What the file uses of other packages: `Version.Zero`, `Newer` and `Committed` of the wire,
-- `json.Valid`, and the hexadecimal SHA-256 of a body.
pub record StreamPlatform : Type 0 where
  pub zero : Version → Bool
  pub newer : Version → Version → Bool
  pub committed : Version → Bool
  pub json_valid : String → Bool
  pub digest : String → String

-- `validateStream`
unfoldable pub is_stream : String → Bool
is_stream s = str_eq s "config" || str_eq s "roster" || str_eq s "directives"

-- `WHERE stream = ?`
unfoldable pub find_stream : String → List StoredStream → Option StoredStream
find_stream k [] = none
find_stream k (r ∷ rows) = if str_eq r.document.stream k then some r else find_stream k rows

-- `readStream`
unfoldable pub read_stream : String → List StoredStream → Result StoredStream
read_stream k rows = elim (find_stream k rows) [ none ↦ err not_found | some r ↦ ok r ]

-- `Stream`
unfoldable pub stream : String → List StoredStream → Result StreamDocument
stream k rows = do refuse (not (is_stream k)) plain; r ← read_stream k rows; ok r.document

-- `INSERT … ON CONFLICT(stream) DO UPDATE SET` all the others
unfoldable pub write_stream : StoredStream → List StoredStream → List StoredStream
write_stream new [] = new ∷ []
write_stream new (r ∷ rows) =
    let rest = write_stream new rows in
    if str_eq r.document.stream new.document.stream then new ∷ rows else r ∷ rest

-- `current.document.ETag != doc.ETag || !bytes.Equal(current.document.Body, doc.Body)`
unfoldable pub differs : StreamDocument → StreamDocument → Bool
differs a b = not (str_eq a.etag b.etag) || not (str_eq a.body b.body)

-- The row that `SaveStream` writes.
unfoldable pub accepted : StreamDocument → StoredStream
accepted doc = record { document = doc; epoch_floor = doc.version.epoch }

module _ (platform : StreamPlatform) where
  -- `validateStreamDocument`
  unfoldable pub validate_stream_document : StreamDocument → Result (Unit {0})
  validate_stream_document doc = do
    refuse (not (is_stream doc.stream)) invalid_state
    refuse (not (platform.committed doc.version)) invalid_state
    refuse (is_negative doc.accepted_at_ms) invalid_state
    refuse (is_empty doc.body || not (platform.json_valid doc.body)) invalid_state
    refuse (not (str_eq doc.etag (platform.digest doc.body))) invalid_state
    ok tt

  -- The first case of `SaveStream`, the stream has a row: whether the document is to be written.
  unfoldable pub supersedes : StreamDocument → StoredStream → Result Bool
  supersedes doc current =
      if ltb doc.version.epoch current.epoch_floor
      then err stale_version
      else if same_version current.document.version doc.version
      then (if differs current.document doc then err version_conflict else ok false)
      else if not (platform.zero current.document.version)
          && not (platform.newer doc.version current.document.version)
      then err stale_version
      else ok true

  -- `SaveStream`
  unfoldable pub save_stream :
      StreamDocument → List StoredStream → List StoredStream × Result (Unit {0})
  save_stream doc rows = transact rows (do
    _ ← validate_stream_document doc
    elim (find_stream doc.stream rows) [
      | none ↦ ok (write_stream (accepted doc) rows, tt)
      | some current ↦ supersedes doc current >>= λ write.
          ok (if write then write_stream (accepted doc) rows else rows, tt)
    ])

-- The UPDATE of `ClearStreamForHigherEpoch`, on the row of the stream.
unfoldable pub cleared : ℕ → StoredStream → StoredStream
cleared observed r = record {
  document = record r.document { version = record { epoch = 0; version = 0 }; etag = "" };
  epoch_floor = observed;
}

-- `ClearStreamForHigherEpoch`
unfoldable pub clear_stream_for_higher_epoch :
    String → ℕ → List StoredStream → List StoredStream × Result (Unit {0})
clear_stream_for_higher_epoch k observed rows = transact rows (do
  refuse (not (is_stream k)) plain
  elim (find_stream k rows) [
    | none ↦ ok (rows, tt)
    | some current ↦
        if leb observed current.epoch_floor
        then err plain
        else ok (write_stream (cleared observed current) rows, tt)
  ])
