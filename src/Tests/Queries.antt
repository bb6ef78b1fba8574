-- ===== src/Tests/Queries.antt =====
-- The theorems on checks of a query, at concrete inputs.
use kube_data_guard.Common.{
  ◌≡◌, refl, ◌↔◌, true, false, Option, none, some, String, List, [], ◌∷◌, map, keep, text_lt, All,
  arith,
}
use kube_data_guard.Common.Int.{pos}
use kube_data_guard.Python.{
  Outcome, ok, raise, int_value, truthy, Dict, Row, JsonFields, object, field, no_fields, null,
  number,
}
use kube_data_guard.Invariants.Report.{DriftReport, healthy, report_status, drift_count}
use kube_data_guard.Search.{hit_row, target_request, execute_target_query}
use kube_data_guard.Scan.{PageRequest, ScanEnd, scan_args, execute_source_query_keyset}
use kube_data_guard.Invariants.Query.Exact.{IsMatched}
use kube_data_guard.Frontier.{frontier_status, build_cdc_frontier}
use kube_data_guard.Jobs.{QueryCall}
use kube_data_guard.Checker.{StreamServices, build_check_cdc_frontier}
use kube_data_guard.Checker.Evidence.{Succeeds, IsRead, build_check_cdc_frontier-bounded}
use kube_data_guard.Checker.Query.{
  QueryServices, resume_key, loaded_checkpoint, compare_scanned, check_query_invariant,
}
use kube_data_guard.Checker.Query.Honest.{check_query_invariant-healthy}
use kube_data_guard.Checker.Query.Whole.{check_query_invariant-whole}
use kube_data_guard.Tests.{orders, report}
use kube_data_guard.Python.{find}
use kube_data_guard.Search.{Hit}
use kube_data_guard.Tests.{order}
use kube_data_guard.Tests.Scans.{table, gt, fetch, fetch-Answers, table-IsOrdered, scan_of}
use kube_data_guard.Tests.Pipelines.{stream}
use kube_data_guard.Tests.Searches.{
  files, settings, hits, sorted_body, search_hits-Serves, search_hits, no_files,
}

abbrev services : QueryServices
services = record {
  stream = stream;
  checked_at = pos 63916862410000000;
  target_read_at = pos 63916862411000000;
  fetch = fetch;
  loads = λ t. ok (object (field "size" (number 1) no_fields));
  search = search_hits;
  blobs = files;
  settings = settings;
  clock = λ evidence. "now";
  sha256_hex = λ t. t;
}

abbrev query : String → String → QueryCall
query id status = record {
  invariant_name = "orders-match";
  source_query = "select * from orders";
  target_query = "{}";
  key_field = "id";
  compare_fields = status ∷ [];
  max_lag_seconds = pos 60;
  source_scan_page_size = pos 2;
  source_resume_after_key = none;
  source_checkpoint_id = id;
  source_reset_checkpoint = false;
  source_max_pages = pos 0;
  check_id = "check-1";
}

check_query_invariant-whole_example :
    (r : DriftReport) × (check_query_invariant services (query "" "status") 4 no_files
      ≡ some (ok (r, no_files)))
    × ((healthy r ≡ true) ↔ All (IsMatched "id" ("status" ∷ []) (map (hit_row "id") hits)) table)
unfolding scan_args target_request
check_query_invariant-whole_example =
    check_query_invariant-whole services (query "" "status") 4 no_files gt table scan_of sorted_body
      1 hits refl refl refl refl fetch-Answers table-IsOrdered refl (omega arith) search_hits-Serves
      (omega arith) (omega arith)

abbrev bounding : StreamServices
bounding = record {
  order_events_topic = "orders.events";
  topic_offsets = ok (record {
    partitions = some (pos 0 ∷ []);
    beginning_offsets = (pos 0, pos 0) ∷ [];
    end_offsets = (pos 0, pos 3) ∷ [];
  });
  current_wal_lsn = ok "0/16B6C50";
  outbox_frontier = λ lag. ok (record {
    available = true;
    published_count = pos 3;
    unpublished_count = pos 0;
    offset_recorded_count = pos 3;
    published_offsets =
        record {
          topic = some "orders.events";
          partition = some (pos 0);
          max_published_offset = some (pos 2);
        }
        ∷ [];
    payload = null;
  });
  target_offset_frontier = ok (record {
    available = true;
    applied_offsets =
        record {
          topic = some "orders.events";
          partition = some (pos 0);
          max_applied_offset = some (pos 2);
        }
        ∷ [];
    payload = null;
  });
}

build_check_cdc_frontier-bounded_example :
    Succeeds bounding.topic_offsets
    × Succeeds bounding.current_wal_lsn
    × Succeeds (bounding.outbox_frontier (pos 60))
    × IsRead none bounding
unfolding build_check_cdc_frontier build_cdc_frontier frontier_status find
build_check_cdc_frontier-bounded_example =
    build_check_cdc_frontier-bounded bounding (pos 60) none (pos 63916862411000000) none refl

-- The check with a checkpoint, and what it returns.
abbrev result_or :
    DriftReport × Dict JsonFields
    → Option (Outcome (DriftReport × Dict JsonFields))
    → DriftReport × Dict JsonFields
result_or r none = r
result_or r (some (raise e)) = r
result_or r (some (ok s)) = s

abbrev two_orders : PageRequest → List Row
two_orders r = elim r.after [ none ↦ orders | some k ↦ [] ]

abbrev pub matching : QueryServices
matching = record services { fetch = two_orders }

abbrev checked : DriftReport × Dict JsonFields
unfolding check_query_invariant compare_scanned
checked =
    result_or (report, no_files)
      (check_query_invariant matching (query "orders" "status") 4 no_files)

checked-ok :
    check_query_invariant matching (query "orders" "status") 4 no_files
    ≡ some (ok (checked.0, checked.1))
unfolding check_query_invariant compare_scanned checked keep text_lt
checked-ok = refl

checked-healthy : healthy checked.0 ≡ true
unfolding healthy check_query_invariant compare_scanned checked keep text_lt report_status
    drift_count
checked-healthy = refl

check_query_invariant-healthy_example :
    (loaded : Option JsonFields) × (end : ScanEnd) × (evidence : JsonFields) × (targets : List Row)
    × (loaded_checkpoint matching (query "orders" "status") no_files ≡ ok loaded)
    × (truthy (resume_key (query "orders" "status") loaded) ≡ false)
    × (execute_source_query_keyset two_orders 4 "select * from orders" "id"
          (int_value (pos 2))
          (resume_key (query "orders" "status") loaded)
          (pos 0)
        ≡ some (ok (end, evidence)))
    × (end.completed ≡ true)
    × (execute_target_query search_hits matching.loads 4 "{}" "id" ≡ some (ok targets))
    × All (IsMatched "id" ("status" ∷ []) targets) end.state.rows
check_query_invariant-healthy_example =
    check_query_invariant-healthy matching (query "orders" "status") 4 no_files checked.0 checked.1
      checked-ok checked-healthy

-- An order that came after the check.
abbrev later_order : PageRequest → List Row
later_order r = elim r.after [ none ↦ [] | some k ↦ order "c" "paid" ∷ [] ]

abbrev no_hits : JsonFields → Outcome (List Hit)
no_hits body = ok []
