-- ===== src/Invariants/Freshness.antt =====
-- `compare_paid_order_freshness`: how long after an update the derived view showed it.
pub mod Exact
use kube_data_guard.Common.{
  ◌==◌, Bool, true, false, Option, none, some, String, List, [], ◌∷◌, length, if◌then◌else◌,
}
use kube_data_guard.Common.Int.{ℤ, pos, ◌-ℤ◌, ltb_ℤ}
use kube_data_guard.Python.{
  Outcome, ok, raise, attribute_error, ◌>>=◌, traverse, Value, str_value, value_text, truthy, Dict,
  Row, require, cell,
}
use kube_data_guard.Python.Clock.{Instant, parse_time, whole_seconds}
use kube_data_guard.Invariants.Report.{FreshnessItem, DriftReport, new_report, check_complete}
use kube_data_guard.Invariants.Verdict.{get_by_id}
use kube_data_guard.Invariants.Window.{
  WindowArgs, or_now, build_observation_window, latest_source_watermark,
}

pub data Freshness : Type 0 where
  in_time : Freshness
  violation : FreshnessItem → Freshness
  breach : FreshnessItem → Freshness

unfoldable pub violations : List Freshness → List FreshnessItem
violations [] = []
violations (violation v ∷ fs) = v ∷ violations fs
violations (_ ∷ fs) = violations fs

unfoldable pub breaches : List Freshness → List FreshnessItem
breaches [] = []
breaches (breach b ∷ fs) = b ∷ breaches fs
breaches (_ ∷ fs) = breaches fs

-- `parse_time(value)`: only a text has a method `replace`.
unfoldable pub parse_time_value : Value → Outcome Instant
unfolding parse_time
parse_time_value (str_value s) = parse_time s
parse_time_value _ = raise attribute_error

-- `max(0, seconds)`
abbrev pub at_least_zero : ℤ → ℤ
at_least_zero i = if ltb_ℤ i (pos 0) then pos 0 else i

abbrev pub freshness_item :
    WindowArgs → Value → Value → String → Option String → Option ℤ → FreshnessItem
freshness_item args order_id updated_at reason target_indexed_at lag = record {
  order_id = order_id;
  reason = reason;
  source_updated_at = updated_at;
  target_indexed_at = target_indexed_at;
  observed_lag_seconds = lag;
  max_lag_seconds = args.max_lag_seconds;
  source_lsn = args.source_lsn;
}

-- The verdict by the lag, in whole seconds, of a document with the time at which it was indexed.
unfoldable pub judge_lag : WindowArgs → Value → Value → String → ℤ → Freshness
judge_lag args order_id updated_at indexed_at lag =
    if ltb_ℤ lag (pos 0)
    then violation (
        freshness_item args order_id updated_at
          "derived view has not observed the latest source update" (some indexed_at) (some lag))
    else if ltb_ℤ args.max_lag_seconds lag
    then breach (
        freshness_item args order_id updated_at
          "derived view observed the update after the bounded freshness SLO" (some indexed_at)
          (some lag))
    else in_time

-- The verdict on a row by the document found for it.
unfoldable pub judge_document :
    WindowArgs → Value → Value → Instant → Option Row → Outcome Freshness
unfolding whole_seconds ◌-ℤ◌ cell truthy value_text parse_time judge_lag
judge_document args order_id updated_at source_updated_at none =
    let checked_at = or_now args.checked_at args.now in
    ok (
      violation (
        freshness_item args order_id updated_at "derived view has not observed the source update"
          none (some (at_least_zero (whole_seconds (checked_at -ℤ source_updated_at))))))
judge_document args order_id updated_at source_updated_at (some target) =
    let raw = cell "indexed_at" target in
    if truthy raw
    then (do
      indexed_at ← parse_time (value_text raw)
      ok (
          judge_lag args order_id updated_at (value_text raw)
            (whole_seconds (indexed_at -ℤ source_updated_at))))
    else ok (
        violation (
          freshness_item args order_id updated_at
            "target document does not expose indexed_at freshness evidence" none none))

-- One round of the loop.
unfoldable pub judge_freshness : WindowArgs → Dict Row → Row → Outcome Freshness
unfolding require get_by_id parse_time_value judge_document
judge_freshness args indexed_orders source = do
  order_id ← require "id" source
  updated_at ← require "updated_at" source
  source_updated_at ← parse_time_value updated_at
  judge_document args order_id updated_at source_updated_at (get_by_id order_id indexed_orders)

unfoldable pub freshness_report :
    WindowArgs → String → String → List Row → List Freshness → DriftReport
unfolding violations breaches latest_source_watermark
freshness_report args invariant_name guarantee source_orders found =
    record (new_report invariant_name (pos (length source_orders))) {
      freshness_violations = violations found;
      freshness_breaches = breaches found;
      guarantee = guarantee;
      observation_window = some (
          build_observation_window source_orders args (latest_source_watermark source_orders) none
            none check_complete);
    }

-- The defaults of the two names are "paid-orders-freshness" and "boundedFreshness".
unfoldable pub compare_paid_order_freshness :
    WindowArgs → String → String → List Row → Dict Row → Outcome DriftReport
unfolding judge_freshness freshness_report traverse
compare_paid_order_freshness args invariant_name guarantee source_orders indexed_orders = do
  found ← traverse (judge_freshness args indexed_orders) source_orders
  ok (freshness_report args invariant_name guarantee source_orders found)
