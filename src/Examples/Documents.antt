-- ===== src/Examples/Documents.antt =====
-- internal/state/sqlite/streams.go and version.go on concrete input: two documents of the roster, in
-- two epochs, and the bytes of a version.
use passwall_node.Prelude.{
  ℕ, ◌+◌, ◌*◌, ◌^◌, ◌≡◌, ◌↔◌, refl, Bool, true, false, ◌&&◌, ◌||◌, List, [], ◌∷◌, String, some, ltb,
  ◌==◌, pos, Version, same_version, stale_version, version_conflict, ok, err, arith,
}
use passwall_node.Codec.{encode_uint64, decode_uint64, decode_uint64_iff}
use passwall_node.Streams.{
  StreamDocument, StoredStream, StreamPlatform, is_stream, find_stream, stream, write_stream,
  validate_stream_document, differs, supersedes, accepted, save_stream, cleared,
  clear_stream_for_higher_epoch,
}
use passwall_node.Streams.Table.{Call, save, call}
use passwall_node.Streams.Floor.{run, old_epoch_refused, save_stream-stream}
use passwall_node.Streams.Immutable.{VersionLaws, version_identifies_body}

abbrev later : Version → Version → Bool
later a b = ltb b.epoch a.epoch || a.epoch == b.epoch && ltb b.version a.version

-- Versions in the order of their epochs and numbers, and a body that is its own digest.
abbrev platform : StreamPlatform
platform = record {
  zero = λ v. v.epoch == 0 && v.version == 0;
  newer = later;
  committed = λ v. ltb 0 v.epoch && ltb 0 v.version;
  json_valid = λ b. true;
  digest = λ b. b;
}

later_irrefl : (v : Version) → later v v ≡ false
later_irrefl v = ground arith

later_trans : (u v w : Version) → later u v ≡ true → later v w ≡ true → later u w ≡ true
later_trans u v w a b = ground arith

laws : VersionLaws platform
laws = record {
  newer_irrefl = later_irrefl;
  newer_trans = later_trans;
  committed_nonzero = λ v h. ground arith;
  cleared_zero = refl;
}

abbrev at : ℕ → ℕ → Version
at e v = record { epoch = e; version = v }

abbrev roster : ℕ → ℕ → String → StreamDocument
roster e v body = record {
  stream = "roster";
  version = at e v;
  etag = body;
  body = body;
  accepted_at_ms = pos 7;
}

abbrev first : StoredStream
first = record { document = roster 2 5 "one"; epoch_floor = 2 }

conflict_run :
    save_stream platform (roster 2 5 "two") (first ∷ []) ≡ (first ∷ [], err version_conflict)
unfolding save_stream validate_stream_document is_stream find_stream supersedes differs same_version
conflict_run = refl

abbrev cleared_rows : List StoredStream
cleared_rows = (clear_stream_for_higher_epoch "roster" 3 (first ∷ [])).0

cleared_done : clear_stream_for_higher_epoch "roster" 3 (first ∷ []) ≡ (cleared_rows, ok tt)
unfolding clear_stream_for_higher_epoch is_stream find_stream write_stream cleared
cleared_done = refl

found_first : find_stream "roster" (first ∷ []) ≡ some first
unfolding find_stream
found_first = refl

old_valid : validate_stream_document platform (roster 2 9 "old") ≡ ok tt
unfolding validate_stream_document is_stream
old_valid = refl

old_epoch_refused_example :
    save_stream platform
      (roster 2 9 "old")
      (run platform (save (roster 4 1 "four") ∷ []) cleared_rows)
    ≡ (run platform (save (roster 4 1 "four") ∷ []) cleared_rows, err stale_version)
old_epoch_refused_example =
    old_epoch_refused platform "roster" 3 (first ∷ []) cleared_rows first
      (save (roster 4 1 "four") ∷ []) (roster 2 9 "old") found_first cleared_done refl old_valid
      (omega arith)

save_stream-stream_example :
    (d : StreamDocument) × (stream "roster" (accepted (roster 3 1 "two") ∷ []) ≡ ok d)
    × (d.version ≡ at 3 1)
    × (d.etag ≡ "two")
    × (d.body ≡ "two")
unfolding save_stream validate_stream_document is_stream find_stream supersedes same_version
    write_stream accepted
save_stream-stream_example =
    save_stream-stream platform (roster 3 1 "two") (first ∷ []) (accepted (roster 3 1 "two") ∷ [])
      refl

abbrev started : List (Call platform)
started = save (roster 2 5 "one") ∷ []

abbrev tried : List (Call platform)
tried = save (roster 2 5 "two") ∷ save (roster 1 9 "three") ∷ []

version_identifies_body_example : ◌≡◌ {A = String} "one" "one" × ◌≡◌ {A = String} "one" "one"
unfolding run call save_stream validate_stream_document is_stream find_stream supersedes differs
    same_version write_stream accepted
version_identifies_body_example =
    version_identifies_body platform laws started tried "roster" first first refl refl refl refl

abbrev blob : List ℕ
blob = 255 ∷ 0 ∷ 0 ∷ 0 ∷ 0 ∷ 0 ∷ 1 ∷ 2 ∷ []

decode_uint64_iff_example :
    (decode_uint64 blob ≡ ok (255 * 2 ^ 56 + 258)) ↔ (blob ≡ encode_uint64 (255 * 2 ^ 56 + 258))
decode_uint64_iff_example = decode_uint64_iff blob (255 * 2 ^ 56 + 258) (omega arith) (omega arith)
