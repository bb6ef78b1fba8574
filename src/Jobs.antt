-- ===== src/Jobs.antt =====
-- The parts of src/dataguard/cli.py that are not input and output: which check an invariant names, the
-- guarantee it has, and the results that the check job and the repair job report.
pub mod Honest
pub mod CheckJob
use kube_data_guard.Common.{
  ◌==◌, Bool, true, false, not, Option, none, some, String, List, [], ◌∷◌, is_empty, if◌then◌else◌,
}
use kube_data_guard.Common.Int.{ℤ, pos}
use kube_data_guard.Python.{
  Outcome, ok, raise, system_exit, ◌>>=◌, ◌>>◌, guard, Value, Json, JsonFields, object, field,
  no_fields, get_default, set_field, null, text, integer, number, boolean, list, json_truthy,
}
use kube_data_guard.Python.Clock.{Instant, iso, minus_seconds}
use kube_data_guard.Invariants.Report.{DriftReport, healthy}
use kube_data_guard.Invariants.Status.{kubernetes_status, to_dict}

pub record QueryCall : Type 0 where
  pub invariant_name : String
  pub source_query : String
  pub target_query : String
  pub key_field : String
  pub compare_fields : List String
  pub max_lag_seconds : ℤ
  pub source_scan_page_size : ℤ
  pub source_resume_after_key : Option String
  pub source_checkpoint_id : String
  pub source_reset_checkpoint : Bool
  pub source_max_pages : ℤ
  pub check_id : String

-- The calls of the checker.
pub data CheckCall : Type 0 where
  paid_orders_indexed paid_orders_aggregate paid_orders_freshness : ℤ → CheckCall
  paid_orders_redis_freshness paid_orders_clickhouse_aggregate : ℤ → CheckCall
  paid_orders_checksum : ℤ → ℤ → CheckCall
  query_invariant : QueryCall → CheckCall

pub record CheckArgs : Type 0 where
  pub max_lag_seconds : ℤ
  pub invariant_name : Option String
  pub source_query : Option String
  pub target_query : Option String
  pub key_field : String
  pub compare_fields : List String
  pub source_scan_page_size : ℤ
  pub source_resume_after_key : String
  pub source_checkpoint_id : String
  pub source_reset_checkpoint : Bool
  pub source_max_pages : ℤ
  pub checksum_prefix_length : ℤ
  pub check_id : String

-- `text or default`, of a text that may be absent.
abbrev pub text_or : Option String → String → String
text_or none default = default
text_or (some s) default = if s == "" then default else s

abbrev pub given : Option String → Bool
given s = not (text_or s "" == "")

unfoldable pub query_call : CheckArgs → Outcome CheckCall
query_call a = do
  guard (given a.source_query) (system_exit "--source-query is required for query invariants")
  guard (given a.target_query) (system_exit "--target-query is required for query invariants")
  ok (
      query_invariant (record {
        invariant_name = text_or a.invariant_name "query-invariant";
        source_query = text_or a.source_query "";
        target_query = text_or a.target_query "";
        key_field = a.key_field;
        compare_fields = a.compare_fields;
        max_lag_seconds = a.max_lag_seconds;
        source_scan_page_size = a.source_scan_page_size;
        source_resume_after_key =
            if a.source_resume_after_key == "" then none else some a.source_resume_after_key;
        source_checkpoint_id = a.source_checkpoint_id;
        source_reset_checkpoint = a.source_reset_checkpoint;
        source_max_pages = a.source_max_pages;
        check_id = a.check_id;
      }))

unfoldable pub check_invariant : String → CheckArgs → Outcome CheckCall
unfolding query_call
check_invariant invariant a =
    if invariant == "existence"
    then ok (paid_orders_indexed a.max_lag_seconds)
    else if invariant == "aggregate"
    then ok (paid_orders_aggregate a.max_lag_seconds)
    else if invariant == "checksum"
    then ok (paid_orders_checksum a.max_lag_seconds a.checksum_prefix_length)
    else if invariant == "freshness"
    then ok (paid_orders_freshness a.max_lag_seconds)
    else if invariant == "redis-freshness"
    then ok (paid_orders_redis_freshness a.max_lag_seconds)
    else if invariant == "clickhouse-aggregate"
    then ok (paid_orders_clickhouse_aggregate a.max_lag_seconds)
    else if invariant == "query"
    then query_call a
    else raise (system_exit "unknown invariant")

unfoldable pub guarantee_for_invariant : String → List String → String
guarantee_for_invariant invariant compare_fields =
    if invariant == "aggregate"
    then "aggregate"
    else if invariant == "checksum"
    then "checksumMerkle"
    else if invariant == "freshness"
    then "boundedFreshness"
    else if invariant == "redis-freshness"
    then "boundedFreshness"
    else if invariant == "clickhouse-aggregate"
    then "aggregate"
    else if invariant == "query"
    then (if is_empty compare_fields then "existence" else "existence+fieldEquality")
    else "existence+fieldEquality"

pub record FailedCheck : Type 0 where
  pub invariant_name : String
  pub invariant : String
  pub max_lag_seconds : ℤ
  pub observed_generation : ℤ
  pub check_id : String
  pub reason : String
  pub compare_fields : List String

abbrev pub with_check_id : String → JsonFields
with_check_id check_id =
    if check_id == "" then no_fields else field "checkID" (text check_id) no_fields

-- The status, and the payload that carries it; `now` is the clock's reading.
unfoldable pub check_failed_status : Instant → FailedCheck → JsonFields
unfolding iso guarantee_for_invariant
check_failed_status now f = field "healthy" (boolean false) (
    field "phase" (text "CheckFailed") (
      field "guarantee" (text (guarantee_for_invariant f.invariant f.compare_fields)) (
        field "checkStatus" (text "failed") (
          field "driftCount" (number 0) (
            field "counterexampleCount" (number 1) (
              field "checkedRecords" (number 0) (
                field "lastCheckedAt" (text (iso now)) (
                  field "observationWindow"
                    (object (
                      field "checkedAt" (text (iso now)) (
                        field "targetReadAt" (text (iso now)) (
                          field "maxLagSeconds" (integer f.max_lag_seconds) (
                            field "eligibleRecordsBefore"
                              (text (iso (minus_seconds now f.max_lag_seconds)))
                              (field "completeness" (text "failed") no_fields))))))
                    (field "observedGeneration" (integer f.observed_generation)
                      (field "reason" (text f.reason) (with_check_id f.check_id)))))))))))

unfoldable pub check_failed_payload : Instant → FailedCheck → JsonFields
unfolding iso guarantee_for_invariant check_failed_status
check_failed_payload now f = field "kind" (text "KubeDataGuardCheckFailureReport") (
    field "invariant" (text f.invariant_name) (
      field "status" (text "CheckFailed") (
        field "healthy" (boolean false) (
          field "guarantee" (text (guarantee_for_invariant f.invariant f.compare_fields)) (
            field "check_status" (text "failed") (
              field "drift_count" (number 0) (
                field "checked_records" (number 0) (
                  field "counterexamples"
                    (list (
                      object (
                        field "type" (text "checker_failure")
                          (field "reason" (text f.reason) no_fields))
                      ∷ []))
                    (field "observation_window"
                      (object (
                        field "checked_at" (text (iso now)) (
                          field "target_read_at" (text (iso now)) (
                            field "max_lag_seconds" (integer f.max_lag_seconds) (
                              field "eligible_records_before"
                                (text (iso (minus_seconds now f.max_lag_seconds)))
                                (field "completeness" (text "failed") no_fields))))))
                      (field "kubernetes_status" (object (check_failed_status now f))
                        (with_check_id f.check_id)))))))))))

unfoldable pub build_check_failed_job_result : Instant → FailedCheck → JsonFields × JsonFields
unfolding check_failed_payload check_failed_status
build_check_failed_job_result now f = (check_failed_payload now f, check_failed_status now f)

pub record RepairJob : Type 0 where
  pub invariant_name : String
  pub source_report_ref : String
  pub repair_report_ref : String
  pub repair_result : JsonFields
  pub repair_action : String
  pub verification : DriftReport
  pub verification_payload : JsonFields
  pub observed_generation : ℤ
  pub check_id : String

abbrev pub set_check_id : String → JsonFields → JsonFields
set_check_id check_id status =
    if check_id == "" then status else set_field "checkID" (text check_id) status

abbrev pub set_failed : JsonFields → JsonFields
set_failed status =
    set_field "reason" (text "repair verification still found drift")
      (set_field "healthy" (boolean false) (set_field "phase" (text "RepairFailed") status))

-- The verification's status with what the job adds to it.
unfoldable pub annotated_status : RepairJob → JsonFields
unfolding kubernetes_status set_field
annotated_status j =
    let started = kubernetes_status (some j.repair_report_ref) j.verification in
    let observed = set_field "observedGeneration" (integer j.observed_generation) started in
    set_field "repairAction" (text j.repair_action)
      (set_field "repairRef" (text j.repair_report_ref) (set_check_id j.check_id observed))

unfoldable pub repair_job_status : RepairJob → JsonFields
unfolding annotated_status set_field healthy
repair_job_status j =
    if healthy j.verification then annotated_status j else set_failed (annotated_status j)

-- `verification_payload or verification.to_dict()`
abbrev pub payload_or : JsonFields → DriftReport → JsonFields
payload_or no_fields r = to_dict r
payload_or (field k v d) r = field k v d

unfoldable pub build_repair_job_result : RepairJob → JsonFields × JsonFields
unfolding repair_job_status get_default to_dict
build_repair_job_result j =
    let status = repair_job_status j in
    (
      field "kind" (text "KubeDataGuardRepairReport") (
          field "invariant" (text j.invariant_name) (
            field "sourceReportRef" (text j.source_report_ref) (
              field "repair" (object j.repair_result) (
                field "verification" (object (payload_or j.verification_payload j.verification)) (
                  field "status" (get_default "phase" null status)
                    (field "healthy" (get_default "healthy" null status) no_fields)))))),
      status,
    )
