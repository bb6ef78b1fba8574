-- ===== src/Jobs/CheckJob.antt =====
-- `run_check_job` of src/dataguard/cli.py: the check that the arguments name, and the payload and status
-- that the job publishes. The reference of the written report is what the report store answers.
pub mod Publishes
use kube_data_guard.Common.{
  ◌==◌, Bool, true, false, not, Option, none, some, String, List, ℕ, if◌then◌else◌,
}
use kube_data_guard.Common.Int.{ℤ, pos_part}
use kube_data_guard.Python.{
  Outcome, ok, raise, Error, key_error, type_error, attribute_error, value_error, system_exit,
  runtime_error, ◌>>=◌, Value, truthy, value_text, Json, JsonFields, object, text, integer,
  set_field,
}
use kube_data_guard.Python.Clock.{Instant}
use kube_data_guard.Merkle.{◌&◌}
use kube_data_guard.Invariants.Report.{DriftReport}
use kube_data_guard.Invariants.Status.{kubernetes_status, to_dict}
use kube_data_guard.Checkpoints.{Blobs, Settings, update_checkpoint_report_ref}
use kube_data_guard.Reporting.{entry, part}
use kube_data_guard.Checker.{
  Services, error_text, check_paid_orders_indexed, check_paid_orders_aggregate,
  check_paid_orders_freshness, check_paid_orders_redis_freshness,
  check_paid_orders_clickhouse_aggregate, check_paid_orders_checksum,
}
use kube_data_guard.Checker.Query.{QueryServices, value_of, and_then, check_query_invariant}
use kube_data_guard.Jobs.{
  CheckCall, paid_orders_indexed, paid_orders_aggregate, paid_orders_freshness,
  paid_orders_redis_freshness, paid_orders_clickhouse_aggregate, paid_orders_checksum,
  query_invariant, CheckArgs, check_invariant, FailedCheck, build_check_failed_job_result,
  set_check_id,
}

-- The name of the exception's class.
abbrev pub error_name : Error → String
error_name (key_error k) = "KeyError"
error_name type_error = "TypeError"
error_name attribute_error = "AttributeError"
error_name (value_error m) = "ValueError"
error_name (system_exit m) = "SystemExit"
error_name (runtime_error m) = "RuntimeError"

-- `except Exception` takes every error but the exit of the program.
abbrev pub is_exception : Error → Bool
is_exception (system_exit m) = false
is_exception _ = true

-- `update_scan_checkpoint_report_ref`
unfoldable pub update_scan_checkpoint_report_ref :
    (blobs : Blobs) → Settings → String → JsonFields → String → blobs.State → Outcome blobs.State
unfolding entry truthy value_text update_checkpoint_report_ref
update_scan_checkpoint_report_ref blobs settings now payload report_ref state =
    let source_scan = part (entry (part (entry payload "observation_window")) "source_scan") in
    let checkpoint_id = value_of (entry source_scan "checkpoint_id") in
    if truthy checkpoint_id
    then (update_checkpoint_report_ref blobs settings now (value_text checkpoint_id) report_ref
          state
        >>= λ u. ok u.1)
    else ok state

pub record JobArgs : Type 0 where
  pub invariant : String
  pub name : String
  pub check : CheckArgs
  pub observed_generation : ℤ

-- A job publishes a payload and a status, or ends by an error before that.
pub data JobEnd : Type 0 where
  publishes : JsonFields → JsonFields → JobEnd
  stops : Error → JobEnd

unfoldable pub failed_check : JobArgs → Error → FailedCheck
failed_check j e = record {
  invariant_name = j.name;
  invariant = j.invariant;
  max_lag_seconds = j.check.max_lag_seconds;
  observed_generation = j.observed_generation;
  check_id = j.check.check_id;
  reason = error_name e & ": " & error_text e;
  compare_fields = j.check.compare_fields;
}

unfoldable pub job_status : JobArgs → DriftReport → String → JsonFields
unfolding kubernetes_status set_field
job_status j r report_ref = set_check_id j.check.check_id (
    set_field "observedGeneration" (integer j.observed_generation)
      (kubernetes_status (some report_ref) r))

unfoldable pub job_payload : JobArgs → DriftReport → String → JsonFields
unfolding to_dict set_field job_status
job_payload j r report_ref =
    set_check_id j.check.check_id
      (set_field "kubernetes_status" (object (job_status j r report_ref)) (to_dict r))

-- What a job does of a check that failed.
unfoldable pub job_of_error : JobArgs → Instant → Error → JobEnd
unfolding build_check_failed_job_result failed_check
job_of_error j now e =
    let failed = build_check_failed_job_result now (failed_check j e) in
    if is_exception e then publishes failed.0 failed.1 else stops e

-- By the reference of the report that was written.
unfoldable pub end_of_writing : JobArgs → DriftReport → Outcome String → JobEnd
unfolding job_payload job_status
end_of_writing j r (ok report_ref) =
    publishes (job_payload j r report_ref) (job_status j r report_ref)
end_of_writing j r (raise e) = stops e

module _ (s : Services) (qs : QueryServices) where
  abbrev pub unchanged :
      Outcome DriftReport → qs.blobs.State → Option (Outcome (DriftReport × qs.blobs.State))
  unchanged checked state = some (checked >>= λ r. ok (r, state))

  -- The call of the checker.
  unfoldable pub run_call :
      ℕ → CheckCall → qs.blobs.State → Option (Outcome (DriftReport × qs.blobs.State))
  unfolding check_paid_orders_indexed check_paid_orders_aggregate check_paid_orders_freshness
      check_paid_orders_redis_freshness check_paid_orders_clickhouse_aggregate
      check_paid_orders_checksum check_query_invariant
  run_call fuel (paid_orders_indexed lag) state = unchanged (check_paid_orders_indexed s lag) state
  run_call fuel (paid_orders_aggregate lag) state =
      unchanged (check_paid_orders_aggregate s lag) state
  run_call fuel (paid_orders_freshness lag) state =
      unchanged (check_paid_orders_freshness s lag) state
  run_call fuel (paid_orders_redis_freshness lag) state =
      unchanged (check_paid_orders_redis_freshness s lag) state
  run_call fuel (paid_orders_clickhouse_aggregate lag) state =
      unchanged (check_paid_orders_clickhouse_aggregate s lag) state
  run_call fuel (paid_orders_checksum lag size) state =
      unchanged (check_paid_orders_checksum s lag qs.sha256_hex size) state
  run_call fuel (query_invariant q) state = check_query_invariant qs q fuel state

  -- The job once its report is there; a failure to write it is not caught.
  unfoldable pub job_of_report :
      JobArgs → String → Outcome String → DriftReport × qs.blobs.State → JobEnd
  unfolding update_scan_checkpoint_report_ref end_of_writing
  job_of_report j now written (r, state) = end_of_writing j r (
      written >>= λ report_ref.
      update_scan_checkpoint_report_ref qs.blobs qs.settings now (to_dict r) report_ref state
      >>= λ u. ok report_ref)

  abbrev pub end_of_check :
      JobArgs
      → Instant
      → String
      → Outcome String
      → Option (Outcome (DriftReport × qs.blobs.State))
      → Option JobEnd
  end_of_check j failed_at now written none = none
  end_of_check j failed_at now written (some (raise e)) = some (job_of_error j failed_at e)
  end_of_check j failed_at now written (some (ok checked)) =
      some (job_of_report j now written checked)

  unfoldable pub check_of :
      ℕ → JobArgs → qs.blobs.State → Option (Outcome (DriftReport × qs.blobs.State))
  unfolding check_invariant run_call
  check_of fuel j state =
      and_then (some (check_invariant j.invariant j.check)) (λ call. run_call fuel call state)

  unfoldable pub run_check_job :
      ℕ → JobArgs → Instant → String → Outcome String → qs.blobs.State → Option JobEnd
  unfolding check_of
  run_check_job fuel j failed_at now written state =
      end_of_check j failed_at now written (check_of fuel j state)
