-- ===== src/Tests/CheckJobs.antt =====
-- The theorem on the check job at a concrete input.
use kube_data_guard.Common.{◌≡◌, refl, true, false, text_lt, Option, none, some, []}
use kube_data_guard.Common.Int.{pos}
use kube_data_guard.Python.{ok, JsonFields, no_fields, get, find, boolean}
use kube_data_guard.Python.Clock.{Instant}
use kube_data_guard.Invariants.Report.{DriftReport, healthy, report_status, drift_count}
use kube_data_guard.Invariants.Status.{kubernetes_status}
use kube_data_guard.Invariants.Window.{window_to_dict, kubernetes_observation_window}
use kube_data_guard.Jobs.CheckJob.{
  JobArgs, JobEnd, publishes, job_of_report, check_of, run_check_job,
}
use kube_data_guard.Jobs.CheckJob.Publishes.{run_check_job-healthy}
use kube_data_guard.Pipeline.{run_indexer}
use kube_data_guard.Tests.Pipelines.{services}
use kube_data_guard.Tests.Queries.{matching}
use kube_data_guard.Tests.Searches.{no_files}

abbrev job : JobArgs
job = record {
  invariant = "existence";
  name = "orders-indexed";
  check = record {
    max_lag_seconds = pos 60;
    invariant_name = none;
    source_query = none;
    target_query = none;
    key_field = "id";
    compare_fields = [];
    source_scan_page_size = pos 1000;
    source_resume_after_key = "";
    source_checkpoint_id = "";
    source_reset_checkpoint = false;
    source_max_pages = pos 0;
    checksum_prefix_length = pos 1;
    check_id = "check-1";
  };
  observed_generation = pos 3;
}

abbrev at : Instant
at = pos 63916862412000000

abbrev payload_of : Option JobEnd → JsonFields
payload_of (some (publishes payload status)) = payload
payload_of _ = no_fields

abbrev published_status : Option JobEnd → JsonFields
published_status (some (publishes payload status)) = status
published_status _ = no_fields

abbrev ended : Option JobEnd
unfolding run_check_job
ended = run_check_job services matching 4 job at "now" (ok "file://reports/drift-1.json") no_files

ended-publishes : ended ≡ some (publishes (payload_of ended) (published_status ended))
unfolding run_check_job ended text_lt get job_of_report window_to_dict kubernetes_observation_window
ended-publishes = refl

ended-healthy : find "healthy" (published_status ended) ≡ some (boolean true)
unfolding run_check_job ended find text_lt get job_of_report healthy report_status drift_count
    kubernetes_status window_to_dict kubernetes_observation_window run_indexer
ended-healthy = refl

run_check_job-healthy_example :
    (r : DriftReport) × (state : matching.blobs.State) × (check_of services matching 4 job no_files
      ≡ some (ok (r, state)))
    × (healthy r ≡ true)
unfolding ended
run_check_job-healthy_example =
    run_check_job-healthy services matching 4 job at "now" (ok "file://reports/drift-1.json")
      no_files (payload_of ended) (published_status ended) ended-publishes ended-healthy
