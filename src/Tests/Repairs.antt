-- ===== src/Tests/Repairs.antt =====
-- The theorems on repairs, jobs and checksums at concrete inputs.
use kube_data_guard.Common.{
  suc, ◌≡◌, ◌≢◌, refl, ap, ◌↔◌, ◌==◌, Bool, Option, true, false, none, some, String, List, [], ◌∷◌,
  map, length, All, Has, if◌then◌else◌,
}
use kube_data_guard.Common.Int.{pos}
use kube_data_guard.Python.{
  ok, str_value, int_value, none_value, to_int, get, value_eq, Value, Dict, Row, JsonFields, find,
  no_fields, boolean, text, sorted_texts, int_or_zero, cell,
}
use kube_data_guard.Python.Order.{IsIncreasing}
use kube_data_guard.Invariants.Report.{DriftReport, healthy, phase}
use kube_data_guard.Invariants.Status.{to_dict}
use kube_data_guard.Invariants.Existence.{compare_paid_orders_to_index}
use kube_data_guard.Invariants.Checksum.{
  ChecksumInput, checksum_report, compare_paid_order_checksum_buckets,
}
use kube_data_guard.Invariants.Checksum.Exact.{IsDrilled, SameBuckets, checksum_healthy_iff}
use kube_data_guard.Invariants.Verdict.{agrees}
use kube_data_guard.Merkle.{
  normalize_bucket_summaries, BucketSummary, summary_of, compare_normalized, buckets_of,
}
use kube_data_guard.Merkle.Compare.{mismatches_exact}
use kube_data_guard.Merkle.Prefixes.{
  PrefixSummary, summarize_from, sum_cells, total, summarize_conserves,
}
use kube_data_guard.Repair.{
  World, publish, post, getenv_or, batches, replay_topic, replay_json, webhook_json,
  publish_kafka_replay_requests, call_reconciliation_webhook, repair_order_ids,
}
use kube_data_guard.Repair.Batches.{flatten, IsBatch, batches-flatten}
use kube_data_guard.Repair.Dispatch.{repair_order_ids-to_dict}
use kube_data_guard.Repair.Webhook.{replay-publishes, webhook-flatten}
use kube_data_guard.LocalDemo.{repair_index_from_report}
use kube_data_guard.LocalDemo.Reindex.{IsKeyed, keyed_nil, keyed_cons}
use kube_data_guard.LocalDemo.Repaired.{repair_heals}
use kube_data_guard.Jobs.{RepairJob, build_repair_job_result}
use kube_data_guard.Jobs.Honest.{repair_job-healthy}
use kube_data_guard.Tests.{order, orders, index, args, report}

compared_before : compare_paid_orders_to_index args orders index ≡ ok report
unfolding compare_paid_orders_to_index
compared_before = refl

false_is_true : false ≡ true → ⊥
false_is_true e = cc e

reads_a : Option Value → Bool
reads_a none = true
reads_a (some v) = value_eq v (str_value "a")

other_key : get "id" (order "b" "paid") ≢ some (str_value "a")
unfolding get reads_a value_eq
other_key e = false_is_true (ap reads_a e)

orders-IsKeyed : IsKeyed orders
unfolding get
orders-IsKeyed = keyed_cons "a" refl (other_key, tt) (keyed_cons "b" refl tt keyed_nil)

repair_heals_example :
    (repaired : Dict Row) × (payload : JsonFields) × (r' : DriftReport) × (repair_index_from_report
        orders index report
      ≡ ok (repaired, payload))
    × (compare_paid_orders_to_index args orders repaired ≡ ok r')
    × (healthy r' ≡ true)
repair_heals_example = repair_heals args orders index report orders-IsKeyed compared_before args

repair_order_ids-to_dict_example :
    repair_order_ids (to_dict report) ≡ ok (map str_value (sorted_texts ("b" ∷ [])))
unfolding report
repair_order_ids-to_dict_example = repair_order_ids-to_dict report ("b" ∷ []) refl

batches-flatten_example :
    (bs : List (List String)) × (batches ("a" ∷ "b" ∷ "c" ∷ []) (pos (suc 1)) ≡ ok bs)
    × (flatten bs ≡ "a" ∷ "b" ∷ "c" ∷ [])
    × All (IsBatch (suc 1)) bs
batches-flatten_example = batches-flatten 1 ("a" ∷ "b" ∷ "c" ∷ [])

abbrev world : World
world = record {
  getenv = λ name.
      if name == "REPAIR_WEBHOOK_URL"
      then some "http://hook"
      else if name == "REPAIR_WEBHOOK_BATCH_SIZE"
      then some "2"
      else none;
  now = "1";
  report_dir = "reports";
  order_events_topic = "orders.events";
  join_path = λ d n. n;
  format_key = λ t id. ok t;
  lower = λ s. s;
  fetch_orders_by_ids = λ ids. ok orders;
  index_answer = λ row. ok tt;
  publish_answer = λ topic key value. ok no_fields;
  post_answer = λ endpoint body. ok (boolean true, boolean true);
  backfill_answer = λ ids. ok (boolean true);
}

abbrev ids : List Value
ids = str_value "a" ∷ str_value "b" ∷ str_value "c" ∷ []

replay-publishes_example :
    ((publish_kafka_replay_requests world ids).actions
      ≡ map (λ id. publish (replay_topic world) id (replay_json id)) ids)
    × (f : JsonFields) × ((publish_kafka_replay_requests world ids).result ≡ ok f)
replay-publishes_example =
    replay-publishes world ids ((no_fields, refl), ((no_fields, refl), ((no_fields, refl), tt)))

webhook-flatten_example :
    (bs : List (List Value)) × (f : JsonFields) × ((call_reconciliation_webhook world ids).actions
      ≡ map (λ b. post (getenv_or world "REPAIR_WEBHOOK_URL" "") (webhook_json b)) bs)
    × ((call_reconciliation_webhook world ids).result ≡ ok f)
    × (flatten bs ≡ ids)
    × All (IsBatch (suc 1)) bs
unfolding to_int
webhook-flatten_example =
    webhook-flatten world 1 ids refl refl (λ b. ((boolean true, boolean true), refl))

abbrev job : RepairJob
job = record {
  invariant_name = "orders-indexed";
  source_report_ref = "file://before.json";
  repair_report_ref = "file://after.json";
  repair_result = no_fields;
  repair_action = "direct-reindex";
  verification = report;
  verification_payload = no_fields;
  observed_generation = pos 3;
  check_id = "c1";
}

repair_job-healthy_example :
    (find "healthy" (build_repair_job_result job).1 ≡ some (boolean (healthy report)))
    × (find "phase" (build_repair_job_result job).1
        ≡ some (text (if healthy report then phase report else "RepairFailed")))
    × (find "healthy" (build_repair_job_result job).0 ≡ some (boolean (healthy report)))
    × (find "status" (build_repair_job_result job).0
        ≡ some (text (if healthy report then phase report else "RepairFailed")))
repair_job-healthy_example = repair_job-healthy job

abbrev bucket : Dict BucketSummary
bucket =
    (
      "a",
      record {
        bucket = "a";
        count = pos 2;
        total_amount_cents = pos 900;
        version_sum = pos 2;
        source_watermark = none_value;
        fingerprint = "2|900|2";
      },
    )
    ∷ []

mismatches_exact_example :
    IsIncreasing (buckets_of (compare_normalized (λ s. s) bucket []))
    × ((b : String)
        → Has b (buckets_of (compare_normalized (λ s. s) bucket []))
          ↔ ((summary_of (λ s. s) b bucket).fingerprint ≢ (summary_of (λ s. s) b []).fingerprint))
mismatches_exact_example = mismatches_exact (λ s. s) bucket []

abbrev summed : Dict PrefixSummary
summed =
    (
      "a",
      record {
        bucket = "a";
        count = pos 1;
        total_amount_cents = pos 500;
        version_sum = pos 1;
        source_watermark = some "2026-06-12T11:55:00+00:00";
      },
    )
    ∷ (
      "b",
      record {
        bucket = "b";
        count = pos 1;
        total_amount_cents = pos 500;
        version_sum = pos 1;
        source_watermark = some "2026-06-12T11:55:00+00:00";
      },
    )
    ∷ []

summarize_conserves_example :
    (total (λ s. s.count) summed ≡ pos (length orders))
    × (total (λ s. s.total_amount_cents) summed ≡ pos 1000)
    × (total (λ s. s.version_sum) summed ≡ pos 2)
unfolding summarize_from sum_cells int_or_zero cell
summarize_conserves_example = summarize_conserves 1 orders summed (pos 1000) (pos 2) refl refl refl

abbrev bucket_row : Row
bucket_row =
    ("bucket", str_value "a")
    ∷ ("count", int_value (pos 2))
    ∷ ("total_amount_cents", int_value (pos 900))
    ∷ ("version_sum", int_value (pos 2))
    ∷ []

abbrev checksums : ChecksumInput
checksums = record {
  source_buckets = bucket_row ∷ [];
  target_buckets = [];
  source_rows = order "a" "paid" ∷ [];
  target_rows = order "a" "paid" ∷ [];
  prefix_length = 1;
}

abbrev checksum_drift : DriftReport
unfolding checksum_report compare_normalized
checksum_drift =
    checksum_report args checksums bucket [] (compare_normalized (λ s. s) bucket []) (agrees ∷ [])

checksum_healthy_iff_example : (healthy checksum_drift ≡ true) ↔ (
    SameBuckets (λ s. s) bucket []
    × All (IsDrilled (order "a" "paid" ∷ [])) (order "a" "paid" ∷ []))
unfolding checksum_drift normalize_bucket_summaries compare_paid_order_checksum_buckets
checksum_healthy_iff_example =
    checksum_healthy_iff (λ s. s) args checksums bucket [] checksum_drift refl refl refl
