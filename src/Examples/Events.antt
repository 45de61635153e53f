-- ===== src/Examples/Events.antt =====
-- internal/diagnostics/ring.go on concrete input: a ring of two events and three reports, one of
-- them malformed, with summaries of at most three bytes.

use passwall_node.Prelude.{◌-◌, ◌≡◌, refl, List, [], ◌∷◌, length, drop, str_eq, not, pos}
use passwall_node.Diagnostics.{
  DiagnosticsEvent, Report, DiagnosticsWire, malformed, event_of, record_event, record_all,
  new_ring, ring_capacity, snapshot, snapshot_from, snapshot_index, rune_boundary, truncate_utf8,
  utf8_start,
}
use passwall_node.Diagnostics.Truncate.{Rune, rune, text, fitting, truncate_utf8-fitting}
use passwall_node.Diagnostics.Refine.{events, snapshot-record_all}

abbrev wire : DiagnosticsWire
wire = record {
  is_event_code = λ c. not (str_eq c "");
  is_severity = λ s. not (str_eq s "");
  max_summary_bytes = 3;
}

-- "aé", "bé" and "cé"
abbrev reports : List Report
reports =
    record { code = "first"; severity = "info"; summary = 97 ∷ 195 ∷ 169 ∷ []; at_ms = pos 1 }
    ∷ record { code = ""; severity = "info"; summary = []; at_ms = pos 2 }
    ∷ record {
      code = "second";
      severity = "info";
      summary = 98 ∷ 98 ∷ 195 ∷ 169 ∷ [];
      at_ms = pos 3;
    }
    ∷ record { code = "third"; severity = "warn"; summary = 99 ∷ []; at_ms = pos 4 }
    ∷ []

abbrev second : DiagnosticsEvent
second = record { code = "second"; at_ms = pos 3; severity = "info"; summary = 98 ∷ 98 ∷ [] }

abbrev third : DiagnosticsEvent
third = record { code = "third"; at_ms = pos 4; severity = "warn"; summary = 99 ∷ [] }

snapshot_run : snapshot (record_all wire reports (new_ring (pos 2))) ≡ second ∷ third ∷ []
unfolding snapshot snapshot_from snapshot_index record_all record_event malformed event_of new_ring
    ring_capacity truncate_utf8 rune_boundary utf8_start
snapshot_run = refl

snapshot-record_all_example :
    snapshot (record_all wire reports (new_ring (pos 2)))
    ≡ drop (length (events wire reports) - ring_capacity (pos 2)) (events wire reports)
snapshot-record_all_example = snapshot-record_all wire reports (pos 2)

abbrev two_runes : List Rune
two_runes = rune 97 [] ∷ rune 195 (169 ∷ []) ∷ []

truncate_utf8-fitting_example : truncate_utf8 (text two_runes) 2 ≡ text (fitting 2 two_runes)
unfolding utf8_start
truncate_utf8-fitting_example =
    truncate_utf8-fitting two_runes 2 ((refl, tt), ((refl, (refl, tt)), tt))
