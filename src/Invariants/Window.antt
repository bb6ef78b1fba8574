-- ===== src/Invariants/Window.antt =====
-- The observation window of a check: `build_observation_window`, the watermarks, and the form of the
-- window that the Kubernetes status carries.
use kube_data_guard.Common.{
  ◌==◌, Bool, false, Option, none, some, String, List, [], ◌∷◌, text_lt, if◌then◌else◌,
}
use kube_data_guard.Common.Int.{ℤ}
use kube_data_guard.Python.{
  truthy, is_none, value_text, Row, cell, Json, JsonFields, no_fields, field, scalar, null, text,
  text?, integer, integer?, or_default, get_default,
}
use kube_data_guard.Python.Clock.{Instant, iso, minus_seconds}
use kube_data_guard.Invariants.Report.{ObservationWindow}

-- `max(values)` of a list of texts, `None` where it is empty.
unfoldable pub max_text : List String → Option String
max_text [] = none
max_text (x ∷ xs) = elim (max_text xs) [
  | none ↦ some x
  | some y ↦ some (if text_lt x y then y else x)
]

-- `[str(row[name]) for row in rows if row.get(name)]`
unfoldable pub texts_of : String → List Row → List String
unfolding cell truthy value_text
texts_of name [] = []
texts_of name (row ∷ rows) =
    if truthy (cell name row)
    then value_text (cell name row) ∷ texts_of name rows
    else texts_of name rows

unfoldable pub latest_source_watermark : List Row → Option String
unfolding texts_of max_text
latest_source_watermark orders = max_text (texts_of "updated_at" orders)

unfoldable pub latest_bucket_watermark : List Row → Option String
unfolding texts_of max_text
latest_bucket_watermark summaries = max_text (texts_of "source_watermark" summaries)

-- The keyword arguments that every comparison hands to the window, and the clock's reading.
pub record WindowArgs : Type 0 where
  pub max_lag_seconds : ℤ
  pub checked_at : Option Instant
  pub target_read_at : Option Instant
  pub stream_topic : Option String
  pub stream_offset_start : Option ℤ
  pub stream_offset_end : Option ℤ
  pub source_lsn : Option String
  pub cdc_frontier : Option Json
  pub now : Instant

-- `a or b` of optional texts
abbrev pub or_text : Option String → Option String → Option String
or_text none b = b
or_text (some s) b = if s == "" then b else some s

abbrev pub or_now : Option Instant → Instant → Instant
or_now none now = now
or_now (some t) now = t

-- Instants are unbounded, so that a lag which leaves the years of Python raises no OverflowError here.
abbrev pub build_observation_window :
    List Row → WindowArgs → Option String → Option Json → Option Json → String → ObservationWindow
unfolding latest_source_watermark iso
build_observation_window source_orders args source_watermark source_scan checksum_tree
      completeness =
    let checked_at = or_now args.checked_at args.now in
    let target_read_at = or_now args.target_read_at args.now in
    record {
      checked_at = iso checked_at;
      target_read_at = iso target_read_at;
      max_lag_seconds = args.max_lag_seconds;
      eligible_records_before = iso (minus_seconds checked_at args.max_lag_seconds);
      source_watermark = or_text source_watermark (latest_source_watermark source_orders);
      source_lsn = args.source_lsn;
      stream_topic = args.stream_topic;
      stream_offset_start = args.stream_offset_start;
      stream_offset_end = args.stream_offset_end;
      cdc_frontier = args.cdc_frontier;
      source_scan = source_scan;
      checksum_tree = checksum_tree;
      completeness = completeness;
    }

unfoldable pub window_to_dict : ObservationWindow → JsonFields
window_to_dict w = field "checked_at" (text w.checked_at) (
    field "target_read_at" (text w.target_read_at) (
      field "max_lag_seconds" (integer w.max_lag_seconds) (
        field "eligible_records_before" (text w.eligible_records_before) (
          field "source_watermark" (text? w.source_watermark) (
            field "source_lsn" (text? w.source_lsn) (
              field "stream_topic" (text? w.stream_topic) (
                field "stream_offset_start" (integer? w.stream_offset_start) (
                  field "stream_offset_end" (integer? w.stream_offset_end) (
                    field "cdc_frontier" (or_default w.cdc_frontier null) (
                      field "source_scan" (or_default w.source_scan null) (
                        field "checksum_tree" (or_default w.checksum_tree null)
                          (field "completeness" (text w.completeness) no_fields))))))))))))

abbrev pub is_null : Json → Bool
is_null (scalar v) = is_none v
is_null _ = false

-- `{key: value for key, value in payload.items() if value is not None}`
unfoldable pub without_nulls : JsonFields → JsonFields
without_nulls no_fields = no_fields
without_nulls (field k j rest) =
    let kept = without_nulls rest in if is_null j then kept else field k j kept

-- `window.get(k)`
abbrev pub read : JsonFields → String → Json
unfolding get_default
read window k = get_default k null window

unfoldable pub kubernetes_observation_window : Option JsonFields → Option JsonFields
unfolding get_default without_nulls
kubernetes_observation_window none = none
kubernetes_observation_window (some w) = some (
    without_nulls (
      field "checkedAt" (read w "checked_at") (
        field "targetReadAt" (read w "target_read_at") (
          field "maxLagSeconds" (read w "max_lag_seconds") (
            field "eligibleRecordsBefore" (read w "eligible_records_before") (
              field "sourceWatermark" (read w "source_watermark") (
                field "sourceLSN" (read w "source_lsn") (
                  field "streamTopic" (read w "stream_topic") (
                    field "streamOffsetStart" (read w "stream_offset_start") (
                      field "streamOffsetEnd" (read w "stream_offset_end") (
                        field "cdcFrontier" (read w "cdc_frontier") (
                          field "sourceScan" (read w "source_scan") (
                            field "checksumTree" (read w "checksum_tree")
                              (field "completeness" (read w "completeness") no_fields))))))))))))))
