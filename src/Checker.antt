-- ===== src/Checker.antt =====
-- The checks of src/dataguard/checker.py: each reads the source and a target, gathers the evidence of the
-- change stream, and compares. What Postgres, Kafka, OpenSearch, Redis and ClickHouse answer, and the
-- clock, is the record `Services`; a service that fails answers with an error.
mod Stream
unfoldable pub use Stream.*
pub mod Evidence
pub mod Indexed
pub mod Query
use kube_data_guard.Common.{
  ◌==◌, Bool, true, false, not, keep, Option, none, some, String, List, [], ◌∷◌, is_empty,
  if◌then◌else◌,
}
use kube_data_guard.Common.Int.{ℤ, pos, pos_part}
use kube_data_guard.Python.{
  Outcome, ok, raise, Error, key_error, type_error, attribute_error, value_error, system_exit,
  runtime_error, ◌>>=◌, traverse, Value, int_value, Dict, Row, cell, require, Json, JsonFields,
  field, no_fields, object, text, boolean,
}
use kube_data_guard.Python.Clock.{Instant, iso, minus_seconds}
use kube_data_guard.Merkle.{◌&◌, compare_bucket_summaries, mismatched_bucket_keys}
use kube_data_guard.Frontier.{Outbox, StreamOffsets, TargetFrontier, Positions, build_cdc_frontier}
use kube_data_guard.Events.{TopicAnswer, topic_offset_range, no_offsets}
use kube_data_guard.Scan.{bounded_prefix_length}
use kube_data_guard.Target.{Store, mget_orders, mget_cached_orders}
use kube_data_guard.Invariants.Report.{DriftReport, new_report}
use kube_data_guard.Invariants.Window.{WindowArgs, latest_source_watermark, latest_bucket_watermark}
use kube_data_guard.Invariants.Existence.{compare_paid_orders_to_index}
use kube_data_guard.Invariants.Aggregate.{compare_paid_order_aggregates, text_of_value}
use kube_data_guard.Invariants.Freshness.{compare_paid_order_freshness}
use kube_data_guard.Invariants.Checksum.{ChecksumInput, compare_paid_order_checksum_buckets}

-- The two readings of the clock, and the orders and summaries that each service answers with; an answer
-- of the search index to a summary depends on the time before which an order is eligible.
pub record Services : Type 1 where
  pub stream : StreamServices
  pub checked_at : Instant
  pub target_read_at : Instant
  pub paid_orders : ℤ → Outcome (List Row)
  pub index : Store
  pub index_state : Outcome index.State
  pub cache : Store
  pub cache_state : Outcome cache.State
  pub order_cache_prefix : String
  pub cache_offset_frontier : Outcome TargetFrontier
  pub paid_order_summary : ℤ → Outcome Row
  pub indexed_summary : String → Outcome Row
  pub clickhouse_summary : ℤ → Outcome Row
  pub clickhouse_table : String
  pub source_buckets : ℤ → ℤ → Outcome (List Row)
  pub target_buckets : String → ℤ → Outcome (List Row)
  pub source_rows : List String → ℤ → ℤ → Outcome (List Row)
  pub target_rows : List String → String → ℤ → Outcome (List Row)

module _ (s : Services) (max_lag_seconds : ℤ) where
  unfoldable pub check_args : Option String → Option TargetFrontier → WindowArgs
  unfolding stream_args
  check_args = stream_args s.stream s.checked_at s.target_read_at max_lag_seconds

  -- No request is made for no identifiers.
  unfoldable pub search_orders : List Value → Outcome (Dict Row)
  unfolding mget_orders
  search_orders ids =
      if is_empty ids then ok [] else s.index_state >>= λ state. ok (mget_orders s.index state ids)

  unfoldable pub cached_orders : List Value → Outcome (Dict Row)
  unfolding mget_cached_orders
  cached_orders ids =
      if is_empty ids
      then ok []
      else s.cache_state >>= λ state. ok (mget_cached_orders s.cache s.order_cache_prefix state ids)

  unfoldable pub check_paid_orders_indexed : Outcome DriftReport
  unfolding require traverse search_orders latest_source_watermark check_args
      compare_paid_orders_to_index
  check_paid_orders_indexed = do
    source_orders ← s.paid_orders max_lag_seconds
    ids ← traverse (require "id") source_orders
    indexed_orders ← search_orders ids
    compare_paid_orders_to_index (check_args (latest_source_watermark source_orders) none)
        source_orders indexed_orders

  abbrev pub eligible_before : String
  unfolding iso
  eligible_before = iso (minus_seconds s.checked_at max_lag_seconds)

  unfoldable pub check_paid_orders_aggregate : Outcome DriftReport
  unfolding cell check_args compare_paid_order_aggregates eligible_before
  check_paid_orders_aggregate = do
    source_summary ← s.paid_order_summary max_lag_seconds
    target_summary ← s.indexed_summary eligible_before
    compare_paid_order_aggregates
        (check_args (text_of_value (cell "source_watermark" source_summary)) none) source_summary
        target_summary

  -- No rows are asked for where no bucket with a name differs.
  abbrev pub drilled_rows : List String → (List String → Outcome (List Row)) → Outcome (List Row)
  drilled_rows prefixes fetch = if is_empty prefixes then ok [] else fetch prefixes

  abbrev pub named : List String → List String
  named prefixes = keep (λ prefix. not (prefix == "")) prefixes

  -- The queries use the bounded length, and the comparison the one given.
  unfoldable pub check_paid_orders_checksum : (String → String) → ℤ → Outcome DriftReport
  unfolding keep bounded_prefix_length compare_bucket_summaries mismatched_bucket_keys
      latest_bucket_watermark check_args compare_paid_order_checksum_buckets eligible_before
  check_paid_orders_checksum sha256_hex prefix_length = do
    bounded ← bounded_prefix_length (int_value prefix_length)
    source_buckets ← s.source_buckets max_lag_seconds bounded
    target_buckets ← s.target_buckets eligible_before bounded
    (source_summary, target_summary, mismatches) ←
        compare_bucket_summaries sha256_hex source_buckets target_buckets
    let prefixes = named (mismatched_bucket_keys mismatches)
    source_rows ← drilled_rows prefixes (λ ps. s.source_rows ps bounded max_lag_seconds)
    target_rows ← drilled_rows prefixes (λ ps. s.target_rows ps eligible_before bounded)
    compare_paid_order_checksum_buckets sha256_hex
        (check_args (latest_bucket_watermark source_buckets) none)
        (record {
          source_buckets = source_buckets;
          target_buckets = target_buckets;
          source_rows = source_rows;
          target_rows = target_rows;
          prefix_length = pos_part prefix_length;
        })

  abbrev pub clickhouse_frontier : TargetFrontier
  clickhouse_frontier = record {
    available = true;
    applied_offsets = [];
    payload = object (
        field "system" (text "clickhouse") (
          field "table" (text s.clickhouse_table) (
            field "available" (boolean true)
              (field "frontier_kind" (text "analytics-summary") no_fields))));
  }

  -- The report keeps the mismatches, the window and the status of the comparison.
  abbrev pub clickhouse_report : DriftReport → DriftReport
  clickhouse_report r = record (new_report "paid-orders-clickhouse-aggregate" r.checked_records) {
    aggregate_mismatches = r.aggregate_mismatches;
    guarantee = "analyticsAggregate";
    observation_window = r.observation_window;
    check_status = r.check_status;
  }

  unfoldable pub check_paid_orders_clickhouse_aggregate : Outcome DriftReport
  unfolding cell check_args compare_paid_order_aggregates
  check_paid_orders_clickhouse_aggregate = do
    source_summary ← s.paid_order_summary max_lag_seconds
    target_summary ← s.clickhouse_summary max_lag_seconds
    report ←
        compare_paid_order_aggregates
          (check_args (text_of_value (cell "source_watermark" source_summary))
            (some clickhouse_frontier))
          source_summary target_summary
    ok (clickhouse_report report)

  unfoldable pub check_paid_orders_freshness : Outcome DriftReport
  unfolding require traverse search_orders latest_source_watermark check_args
      compare_paid_order_freshness
  check_paid_orders_freshness = do
    source_orders ← s.paid_orders max_lag_seconds
    ids ← traverse (require "id") source_orders
    indexed_orders ← search_orders ids
    compare_paid_order_freshness (check_args (latest_source_watermark source_orders) none)
        "paid-orders-freshness" "boundedFreshness" source_orders indexed_orders

  -- A failure to read the frontier of the cache fails the check.
  unfoldable pub check_paid_orders_redis_freshness : Outcome DriftReport
  unfolding require traverse cached_orders latest_source_watermark check_args
      compare_paid_order_freshness
  check_paid_orders_redis_freshness = do
    source_orders ← s.paid_orders max_lag_seconds
    ids ← traverse (require "id") source_orders
    orders ← cached_orders ids
    frontier ← s.cache_offset_frontier
    compare_paid_order_freshness
        (check_args (latest_source_watermark source_orders) (some frontier))
        "paid-orders-redis-cache-freshness" "cacheFreshness" source_orders orders
