-- ===== src/Invariants/Checksum.antt =====
-- `compare_paid_order_checksum_buckets`: bucket fingerprints first, then the rows of bad buckets.
pub mod Exact
use kube_data_guard.Common.{
  ℕ, Option, none, some, String, List, [], ◌∷◌, map, length, is_empty, prefix, if◌then◌else◌,
}
use kube_data_guard.Common.Int.{ℤ, pos, ◌+ℤ◌}
use kube_data_guard.Python.{
  Outcome, ok, ◌>>=◌, traverse, str_value, value_text, Dict, Row, get, require,
}
use kube_data_guard.Merkle.{
  BucketSummary, BucketMismatch, summary_json, compare_bucket_summaries, checksum_tree_evidence,
  ◌&◌,
}
use kube_data_guard.Invariants.Report.{AggregateItem, DriftReport, new_report, check_complete}
use kube_data_guard.Invariants.Verdict.{
  Verdict, agrees, is_missing, is_stale, missing_items, stale_items,
}
use kube_data_guard.Invariants.Existence.{compare_order_fields}
use kube_data_guard.Invariants.Query.{index_rows}
use kube_data_guard.Invariants.Window.{
  WindowArgs, build_observation_window, latest_bucket_watermark,
}

unfoldable pub judge_in_bucket : ℕ → String → Row → Option Row → Verdict
unfolding compare_order_fields prefix
judge_in_bucket prefix_length order_id source none = is_missing (record {
  order_id = str_value order_id;
  reason = "source row is absent from target inside mismatched checksum bucket";
  bucket = some (prefix prefix_length order_id);
  source = source;
})
judge_in_bucket prefix_length order_id source (some target) =
    let mismatches = compare_order_fields source target in
    if is_empty mismatches
    then agrees
    else is_stale (record {
      order_id = str_value order_id;
      reason = "target row differs from source inside mismatched checksum bucket";
      bucket = some (prefix prefix_length order_id);
      mismatches = mismatches;
      source = source;
      target = target;
    })

-- One round of the loop.
unfoldable pub judge_bucket_row : ℕ → Dict Row → Row → Outcome Verdict
unfolding require get value_text judge_in_bucket
judge_bucket_row prefix_length target_by_id source = do
  row_id ← require "id" source
  let order_id = value_text row_id
  ok (judge_in_bucket prefix_length order_id source (get order_id target_by_id))

abbrev pub bucket_item : BucketMismatch → AggregateItem
bucket_item m = record {
  name = "checksum_bucket:" & m.bucket;
  source = summary_json m.source;
  target = summary_json m.target;
  reason = m.reason;
}

-- `sum(int(item.get("count") or 0) for item in source_summary.values())`
unfoldable pub sum_counts : Dict BucketSummary → ℤ
unfolding ◌+ℤ◌
sum_counts [] = pos 0
sum_counts ((k, s) ∷ d) = s.count +ℤ sum_counts d

-- The summaries as the rows that the watermark reads.
abbrev pub watermark_rows : Dict BucketSummary → List Row
watermark_rows [] = []
watermark_rows ((k, s) ∷ d) = (("source_watermark", s.source_watermark) ∷ []) ∷ watermark_rows d

pub record ChecksumInput : Type 0 where
  pub source_buckets : List Row
  pub target_buckets : List Row
  pub source_rows : List Row
  pub target_rows : List Row
  pub prefix_length : ℕ

unfoldable pub checksum_report :
    WindowArgs
    → ChecksumInput
    → Dict BucketSummary
    → Dict BucketSummary
    → List BucketMismatch
    → List Verdict
    → DriftReport
unfolding missing_items stale_items sum_counts checksum_tree_evidence latest_bucket_watermark
checksum_report args input source_summary target_summary mismatches verdicts =
    record (new_report "paid-orders-checksum" (sum_counts source_summary)) {
      missing = missing_items verdicts;
      stale = stale_items verdicts;
      aggregate_mismatches = map bucket_item mismatches;
      guarantee = "checksumMerkle";
      observation_window = some (
          build_observation_window input.source_rows args
            (latest_bucket_watermark (watermark_rows source_summary)) none
            (some (
              checksum_tree_evidence input.prefix_length (length source_summary)
                (length target_summary) mismatches (length input.source_rows)
                (length input.target_rows)))
            check_complete);
    }

unfoldable pub compare_paid_order_checksum_buckets :
    (String → String) → WindowArgs → ChecksumInput → Outcome DriftReport
unfolding compare_bucket_summaries index_rows traverse judge_bucket_row checksum_report
compare_paid_order_checksum_buckets sha256_hex args input = do
  (source_summary, target_summary, mismatches) ←
      compare_bucket_summaries sha256_hex input.source_buckets input.target_buckets
  let target_by_id = index_rows "id" input.target_rows []
  verdicts ← traverse (judge_bucket_row input.prefix_length target_by_id) input.source_rows
  ok (checksum_report args input source_summary target_summary mismatches verdicts)
