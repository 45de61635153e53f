-- ===== src/Diagnostics.antt =====
-- internal/diagnostics/ring.go: the agent's own events, bounded and in memory.
pub mod Truncate
pub mod Refine
use Prim.Native.Nat.{bit_and}
use passwall_node.Prelude.{
  ℕ, zero, suc, ◌+◌, ◌-◌, ◌%◌, Bool, not, ◌||◌, List, [], ◌∷◌, String, length, take, get_or, set,
  replicate, if◌then◌else◌, ltb, leb, ◌==◌, ℤ, is_nonpositive, to_ℕ,
}

-- `protocol.DiagnosticsEvent`; the summary is its bytes.
pub record DiagnosticsEvent : Type 0 where
  pub code : String
  pub at_ms : ℤ
  pub severity : String
  pub summary : List ℕ

-- The value that `make` fills a slice of events with.
abbrev pub zero_event : DiagnosticsEvent
zero_event = record { code = ""; at_ms = ℤ.pos 0; severity = ""; summary = [] }

-- `Ring`, less its mutex; a call takes what its clock reads.
pub record Ring : Type 0 where
  pub buffer : List DiagnosticsEvent
  pub head : ℕ
  pub length : ℕ

abbrev pub default_ring_capacity : ℕ
default_ring_capacity = 256

-- The capacity that `NewRing` takes.
unfoldable pub ring_capacity : ℤ → ℕ
ring_capacity n = if is_nonpositive n then default_ring_capacity else to_ℕ n

-- `NewRing`
unfoldable pub new_ring : ℤ → Ring
new_ring n = record { buffer = replicate (ring_capacity n) zero_event; head = 0; length = 0 }

-- `utf8Start`
unfoldable pub utf8_start : ℕ → Bool
utf8_start b = not (bit_and b 0xC0 == 0x80)

-- The loop of `truncateUTF8`, from `cut` down.
unfoldable pub rune_boundary : List ℕ → ℕ → ℕ
rune_boundary s zero = 0
rune_boundary s (suc cut) =
    let rest = rune_boundary s cut in if utf8_start (get_or s (suc cut) 0) then suc cut else rest

-- `truncateUTF8`
unfoldable pub truncate_utf8 : List ℕ → ℕ → List ℕ
truncate_utf8 s limit = if leb (length s) limit then s else take (rune_boundary s limit) s

-- What a producer reports: the arguments of `Record`, and what the clock reads in that call.
pub record Report : Type 0 where
  pub code : String
  pub severity : String
  pub summary : List ℕ
  pub at_ms : ℤ

-- What `Record` uses of the wire package: `IsDiagnosticsEventCode`, `IsDiagnosticsSeverity` and
-- `MaxDiagnosticsSummaryBytes`.
pub record DiagnosticsWire : Type 0 where
  pub is_event_code : String → Bool
  pub is_severity : String → Bool
  pub max_summary_bytes : ℕ

module _ (wire : DiagnosticsWire) where
  -- `!protocol.IsDiagnosticsEventCode(code) || !protocol.IsDiagnosticsSeverity(severity)`
  unfoldable pub malformed : Report → Bool
  malformed p = not (wire.is_event_code p.code) || not (wire.is_severity p.severity)

  -- The event that `Record` writes.
  unfoldable pub event_of : Report → DiagnosticsEvent
  event_of p = record {
    code = p.code;
    at_ms = p.at_ms;
    severity = p.severity;
    summary =
        if ltb wire.max_summary_bytes (length p.summary)
        then truncate_utf8 p.summary wire.max_summary_bytes
        else p.summary;
  }

  -- `Record`
  unfoldable pub record_event : Report → Ring → Ring
  record_event p r = if malformed p then r else record {
    buffer = set r.buffer r.head (event_of p);
    head = (r.head + 1) % length r.buffer;
    length = if ltb r.length (length r.buffer) then r.length + 1 else r.length;
  }

  -- The calls of `Record`, in order.
  unfoldable pub record_all : List Report → Ring → Ring
  record_all [] r = r
  record_all (p ∷ ps) r = record_all ps (record_event p r)

-- The index that `Snapshot` reads. The sum is never negative: no ring is longer than its buffer.
unfoldable pub snapshot_index : Ring → ℕ → ℕ
snapshot_index r offset = (r.head + offset + length r.buffer - r.length) % length r.buffer

-- The loop of `Snapshot`, with `left` rounds to go.
unfoldable pub snapshot_from : Ring → ℕ → ℕ → List DiagnosticsEvent
snapshot_from r zero offset = []
snapshot_from r (suc left) offset =
    get_or r.buffer (snapshot_index r offset) zero_event ∷ snapshot_from r left (offset + 1)

-- `Snapshot`
unfoldable pub snapshot : Ring → List DiagnosticsEvent
snapshot r = snapshot_from r r.length 0
