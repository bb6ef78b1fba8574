-- ===== src/Invariants/Status.antt =====
-- What a report shows: its counterexamples, its JSON form and its compact Kubernetes status.
pub mod Counts
use kube_data_guard.Common.{Bool, Option, none, some, String, List, [], ◌∷◌, ◌++◌, map, length}
use kube_data_guard.Common.Int.{ℤ}
use kube_data_guard.Python.{
  Value, Row, cell, get_default, Json, JsonFields, no_fields, field, scalar, object, null, text,
  text?, number, integer, integer?, boolean, list, row_json,
}
use kube_data_guard.Invariants.Report.{
  Mismatch, MissingItem, StaleItem, AggregateItem, FreshnessItem, ObservationWindow, DriftReport,
  drift_count, report_status, healthy, phase,
}
use kube_data_guard.Invariants.Window.{window_to_dict, kubernetes_observation_window}

abbrev pub mismatch_json : Mismatch → Json
mismatch_json m = object (
    field "field" (text m.name)
      (field "source" (scalar m.source) (field "target" (scalar m.target) no_fields)))

abbrev pub mismatches_json : List Mismatch → Json
mismatches_json ms = list (map mismatch_json ms)

abbrev pub missing_example : MissingItem → Json
unfolding cell
missing_example m = object (
    field "type" (text "missing") (
      field "order_id" (scalar m.order_id) (
        field "reason" (text m.reason) (
          field "source_version" (scalar (cell "version" m.source)) (
            field "source_updated_at" (scalar (cell "updated_at" m.source))
              (field "expected_target" (text "OpenSearch orders document") no_fields))))))

abbrev pub stale_example : StaleItem → Json
unfolding cell
stale_example s = object (
    field "type" (text "stale") (
      field "order_id" (scalar s.order_id) (
        field "reason" (text s.reason) (
          field "source_version" (scalar (cell "version" s.source)) (
            field "target_version" (scalar (cell "version" s.target)) (
              field "source_updated_at" (scalar (cell "updated_at" s.source)) (
                field "target_indexed_at" (scalar (cell "indexed_at" s.target))
                  (field "mismatches" (mismatches_json s.mismatches) no_fields))))))))

abbrev pub aggregate_example : AggregateItem → Json
aggregate_example a = object (
    field "type" (text "aggregate_mismatch") (
      field "field" (text a.name) (
        field "source" a.source
          (field "target" a.target (field "reason" (text a.reason) no_fields)))))

abbrev pub freshness_example : FreshnessItem → Json
freshness_example v = object (
    field "type" (text "freshness_lag") (
      field "order_id" (scalar v.order_id) (
        field "reason" (text v.reason) (
          field "source_updated_at" (scalar v.source_updated_at) (
            field "target_indexed_at" (text? v.target_indexed_at) (
              field "observed_lag_seconds" (integer? v.observed_lag_seconds)
                (field "max_lag_seconds" (integer v.max_lag_seconds) no_fields)))))))

unfoldable pub counterexamples : DriftReport → List Json
counterexamples r =
    map missing_example r.missing
    ++ (map stale_example r.stale
        ++ (map aggregate_example r.aggregate_mismatches
            ++ map freshness_example r.freshness_violations))

abbrev pub with_bucket : Option String → JsonFields → JsonFields
with_bucket none rest = rest
with_bucket (some b) rest = field "bucket" (text b) rest

-- The items as they stand in the report's JSON.
abbrev pub missing_json : MissingItem → Json
missing_json m = object (
    field "order_id" (scalar m.order_id) (
      field "reason" (text m.reason)
        (with_bucket m.bucket (field "source" (row_json m.source) no_fields))))

abbrev pub stale_json : StaleItem → Json
stale_json s = object (
    field "order_id" (scalar s.order_id) (
      field "reason" (text s.reason) (
        with_bucket s.bucket (
          field "mismatches" (mismatches_json s.mismatches)
            (field "source" (row_json s.source) (field "target" (row_json s.target) no_fields))))))

abbrev pub aggregate_json : AggregateItem → Json
aggregate_json a = object (
    field "field" (text a.name) (
      field "source" a.source (field "target" a.target (field "reason" (text a.reason) no_fields))))

abbrev pub freshness_json : FreshnessItem → Json
freshness_json v = object (
    field "order_id" (scalar v.order_id) (
      field "reason" (text v.reason) (
        field "source_updated_at" (scalar v.source_updated_at) (
          field "target_indexed_at" (text? v.target_indexed_at) (
            field "observed_lag_seconds" (integer? v.observed_lag_seconds) (
              field "max_lag_seconds" (integer v.max_lag_seconds)
                (field "source_lsn" (text? v.source_lsn) no_fields)))))))

abbrev pub window_fields : Option ObservationWindow → Option JsonFields
unfolding window_to_dict
window_fields none = none
window_fields (some w) = some (window_to_dict w)

abbrev pub fields_json : Option JsonFields → Json
fields_json none = null
fields_json (some d) = object d

abbrev pub checked_at_of : Option JsonFields → Json
unfolding get_default
checked_at_of none = null
checked_at_of (some d) = get_default "checkedAt" null d

unfoldable pub kubernetes_status : Option String → DriftReport → JsonFields
unfolding kubernetes_observation_window healthy phase counterexamples drift_count
kubernetes_status report_ref r =
    let status_window = kubernetes_observation_window (window_fields r.observation_window) in
    field "healthy" (boolean (healthy r)) (
      field "phase" (text (phase r)) (
        field "guarantee" (text r.guarantee) (
          field "checkStatus" (text r.check_status) (
            field "driftCount" (number (drift_count r)) (
              field "counterexampleCount" (number (length (counterexamples r))) (
                field "sloBreachCount" (number (length r.freshness_breaches)) (
                  field "checkedRecords" (integer r.checked_records) (
                    field "lastCheckedAt" (checked_at_of status_window) (
                      field "observationWindow" (fields_json status_window)
                        (field "reportRef" (text? report_ref) no_fields))))))))))

unfoldable pub to_dict : DriftReport → JsonFields
unfolding kubernetes_status report_status
to_dict r = field "invariant" (text r.invariant) (
    field "guarantee" (text r.guarantee) (
      field "status" (text (report_status r)) (
        field "phase" (text (phase r)) (
          field "healthy" (boolean (healthy r)) (
            field "check_status" (text r.check_status) (
              field "checked_records" (integer r.checked_records) (
                field "drift_count" (number (drift_count r)) (
                  field "missing" (list (map missing_json r.missing)) (
                    field "stale" (list (map stale_json r.stale)) (
                      field "aggregate_mismatches"
                        (list (map aggregate_json r.aggregate_mismatches))
                        (field "freshness_violations"
                          (list (map freshness_json r.freshness_violations))
                          (field "freshness_breaches"
                            (list (map freshness_json r.freshness_breaches))
                            (field "slo_breach_count" (number (length r.freshness_breaches)) (
                              field "counterexamples" (list (counterexamples r)) (
                                field "observation_window"
                                  (fields_json (window_fields r.observation_window))
                                  (field "kubernetes_status" (object (kubernetes_status none r))
                                    no_fields))))))))))))))))
