-- ===== src/Invariants/Report.antt =====
-- The report of a check (`ObservationWindow` and `DriftReport` of src/dataguard/invariants.py) and the
-- items that it lists.
use kube_data_guard.Common.{
  ℕ, ◌+◌, ◌==◌, Bool, Option, none, String, List, [], length, nat_eq, if◌then◌else◌,
}
use kube_data_guard.Common.Int.{ℤ}
use kube_data_guard.Python.{Value, Row, Json}

pub record Mismatch : Type 0 where
  pub name : String
  pub source : Value
  pub target : Value

pub record MissingItem : Type 0 where
  pub order_id : Value
  pub reason : String
  pub bucket : Option String
  pub source : Row

pub record StaleItem : Type 0 where
  pub order_id : Value
  pub reason : String
  pub bucket : Option String
  pub mismatches : List Mismatch
  pub source : Row
  pub target : Row

pub record AggregateItem : Type 0 where
  pub name : String
  pub source : Json
  pub target : Json
  pub reason : String

pub record FreshnessItem : Type 0 where
  pub order_id : Value
  pub reason : String
  pub source_updated_at : Value
  pub target_indexed_at : Option String
  pub observed_lag_seconds : Option ℤ
  pub max_lag_seconds : ℤ
  pub source_lsn : Option String

pub record ObservationWindow : Type 0 where
  pub checked_at : String
  pub target_read_at : String
  pub max_lag_seconds : ℤ
  pub eligible_records_before : String
  pub source_watermark : Option String
  pub source_lsn : Option String
  pub stream_topic : Option String
  pub stream_offset_start : Option ℤ
  pub stream_offset_end : Option ℤ
  pub cdc_frontier : Option Json
  pub source_scan : Option Json
  pub checksum_tree : Option Json
  pub completeness : String

abbrev pub check_complete : String
check_complete = "complete"

abbrev pub status_healthy : String
status_healthy = "Healthy"

abbrev pub status_drift_detected : String
status_drift_detected = "DriftDetected"

abbrev pub status_check_failed : String
status_check_failed = "CheckFailed"

abbrev pub status_unknown : String
status_unknown = "Unknown"

pub record DriftReport : Type 0 where
  pub invariant : String
  pub checked_records : ℤ
  pub missing : List MissingItem
  pub stale : List StaleItem
  pub aggregate_mismatches : List AggregateItem
  pub freshness_violations : List FreshnessItem
  pub freshness_breaches : List FreshnessItem
  pub guarantee : String
  pub observation_window : Option ObservationWindow
  pub check_status : String

-- The defaults of the fields.
abbrev pub new_report : String → ℤ → DriftReport
new_report invariant checked_records = record {
  invariant = invariant;
  checked_records = checked_records;
  missing = [];
  stale = [];
  aggregate_mismatches = [];
  freshness_violations = [];
  freshness_breaches = [];
  guarantee = "existence";
  observation_window = none;
  check_status = check_complete;
}

unfoldable pub drift_count : DriftReport → ℕ
drift_count r =
    length r.missing
    + length r.stale
    + length r.aggregate_mismatches
    + length r.freshness_violations

unfoldable pub report_status : DriftReport → String
report_status r =
    if r.check_status == check_complete
    then (if nat_eq (drift_count r) 0 then status_healthy else status_drift_detected)
    else if r.check_status == "failed"
    then status_check_failed
    else status_unknown

unfoldable pub healthy : DriftReport → Bool
healthy r = report_status r == status_healthy

unfoldable pub phase : DriftReport → String
phase r = report_status r
