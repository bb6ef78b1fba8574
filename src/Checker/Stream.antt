-- ===== src/Checker/Stream.antt =====
-- The evidence of a check in src/dataguard/checker.py: what the services of the change stream answer, and
-- the frontier and the keyword arguments made of it.
use kube_data_guard.Common.{false, Option, none, some, String, []}
use kube_data_guard.Common.Int.{ℤ, pos}
use kube_data_guard.Python.{
  Outcome, ok, raise, Error, key_error, type_error, attribute_error, value_error, system_exit,
  runtime_error, JsonFields, field, no_fields, object, text, boolean,
}
use kube_data_guard.Python.Clock.{Instant}
use kube_data_guard.Merkle.{◌&◌}
use kube_data_guard.Frontier.{Outbox, StreamOffsets, TargetFrontier, Positions, build_cdc_frontier}
use kube_data_guard.Events.{TopicAnswer, topic_offset_range, no_offsets}
use kube_data_guard.Invariants.Window.{WindowArgs}

-- The answers that the evidence of a check is made of.
pub record StreamServices : Type 0 where
  pub order_events_topic : String
  pub topic_offsets : Outcome TopicAnswer
  pub current_wal_lsn : Outcome String
  pub outbox_frontier : ℤ → Outcome Outbox
  pub target_offset_frontier : Outcome TargetFrontier

-- A failure to read the offsets is as good as no partitions.
unfoldable pub stream_offsets : Outcome TopicAnswer → StreamOffsets
unfolding topic_offset_range
stream_offsets (ok a) = topic_offset_range a
stream_offsets (raise e) = no_offsets

abbrev pub source_lsn_or_none : Outcome String → Option String
source_lsn_or_none (ok lsn) = some lsn
source_lsn_or_none (raise e) = none

-- `str(exc)`
abbrev pub error_text : Error → String
error_text (key_error k) = "'" & k & "'"
error_text type_error = ""
error_text attribute_error = ""
error_text (value_error m) = m
error_text (system_exit m) = m
error_text (runtime_error m) = m

abbrev pub outbox_or_error : Outcome Outbox → Outbox
outbox_or_error (ok o) = o
outbox_or_error (raise e) = record {
  available = false;
  published_count = pos 0;
  unpublished_count = pos 0;
  offset_recorded_count = pos 0;
  published_offsets = [];
  payload = object (
      field "mode" (text "postgres-outbox")
        (field "available" (boolean false) (field "error" (text (error_text e)) no_fields)));
}

abbrev pub target_or_error : Outcome TargetFrontier → TargetFrontier
target_or_error (ok t) = t
target_or_error (raise e) = record {
  available = false;
  applied_offsets = [];
  payload = object (
      field "system" (text "opensearch")
        (field "available" (boolean false) (field "error" (text (error_text e)) no_fields)));
}

abbrev pub given_or_target : Option TargetFrontier → StreamServices → TargetFrontier
given_or_target none s = target_or_error s.target_offset_frontier
given_or_target (some t) s = t

-- What `build_check_cdc_frontier` hands to `build_cdc_frontier`.
unfoldable pub check_positions :
    StreamServices → ℤ → Option String → Option String → Instant → Option TargetFrontier → Positions
unfolding stream_offsets
check_positions s max_lag_seconds source_lsn source_watermark target_read_at target_frontier =
    record {
      source_lsn = source_lsn;
      source_watermark = source_watermark;
      outbox = some (outbox_or_error (s.outbox_frontier max_lag_seconds));
      offsets = stream_offsets s.topic_offsets;
      stream_topic = s.order_events_topic;
      target_read_at = target_read_at;
      target_frontier = some (given_or_target target_frontier s);
    }

unfoldable pub build_check_cdc_frontier :
    StreamServices
    → ℤ
    → Option String
    → Option String
    → Instant
    → Option TargetFrontier
    → JsonFields
unfolding check_positions build_cdc_frontier
build_check_cdc_frontier s max_lag_seconds source_lsn source_watermark target_read_at
      target_frontier =
    build_cdc_frontier
      (check_positions s max_lag_seconds source_lsn source_watermark target_read_at target_frontier)

-- The keyword arguments that every check hands to its comparison, by the two readings of the clock.
unfoldable pub stream_args :
    StreamServices → Instant → Instant → ℤ → Option String → Option TargetFrontier → WindowArgs
unfolding stream_offsets build_check_cdc_frontier
stream_args s checked_at target_read_at max_lag_seconds source_watermark target_frontier =
    let lsn = source_lsn_or_none s.current_wal_lsn in
    let offsets = stream_offsets s.topic_offsets in
    record {
      max_lag_seconds = max_lag_seconds;
      checked_at = some checked_at;
      target_read_at = some target_read_at;
      stream_topic = some s.order_events_topic;
      stream_offset_start = offsets.offset_start;
      stream_offset_end = offsets.offset_end;
      source_lsn = lsn;
      cdc_frontier = some (
          object (
            build_check_cdc_frontier s max_lag_seconds lsn source_watermark target_read_at
              target_frontier));
      now = target_read_at;
    }
