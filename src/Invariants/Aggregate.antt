-- ===== src/Invariants/Aggregate.antt =====
-- `summarize_paid_orders` and `compare_paid_order_aggregates`: counts and totals.
pub mod Exact
use kube_data_guard.Common.{
  ◌++◌, Bool, Option, none, some, String, List, [], ◌∷◌, length, if◌then◌else◌,
}
use kube_data_guard.Common.Int.{ℤ, pos, ◌+ℤ◌, eqb_ℤ}
use kube_data_guard.Python.{
  Outcome, ok, ◌>>=◌, Value, none_value, int_value, str_value, to_int, int_or_zero, Row, require,
  cell, integer,
}
use kube_data_guard.Invariants.Report.{AggregateItem, DriftReport, new_report, check_complete}
use kube_data_guard.Invariants.Window.{
  WindowArgs, build_observation_window, latest_source_watermark,
}

-- `sum(int(order["amount_cents"]) for order in orders)`
unfoldable pub total_amount : List Row → Outcome ℤ
unfolding require to_int ◌+ℤ◌
total_amount [] = ok (pos 0)
total_amount (order ∷ orders) = do
  value ← require "amount_cents" order
  amount ← to_int value
  rest ← total_amount orders
  ok (amount +ℤ rest)

abbrev pub optional_text : Option String → Value
optional_text none = none_value
optional_text (some s) = str_value s

unfoldable pub summarize_paid_orders : List Row → Outcome Row
unfolding total_amount latest_source_watermark
summarize_paid_orders orders = do
  total ← total_amount orders
  ok (
      ("count", int_value (pos (length orders)))
      ∷ ("total_amount_cents", int_value total)
      ∷ ("source_watermark", optional_text (latest_source_watermark orders))
      ∷ [])

abbrev pub aggregate_fields : List String
aggregate_fields = "count" ∷ "total_amount_cents" ∷ []

-- The item is listed where the two numbers differ.
unfoldable pub list_difference : String → ℤ → ℤ → List AggregateItem → List AggregateItem
list_difference name source_value target_value rest =
    if eqb_ℤ source_value target_value
    then rest
    else record {
      name = name;
      source = integer source_value;
      target = integer target_value;
      reason = "source aggregate does not match derived view";
    }
      ∷ rest

unfoldable pub differing_aggregates : Row → Row → List String → Outcome (List AggregateItem)
unfolding cell int_or_zero list_difference
differing_aggregates source_summary target_summary [] = ok []
differing_aggregates source_summary target_summary (name ∷ names) = do
  source_value ← int_or_zero (cell name source_summary)
  target_value ← int_or_zero (cell name target_summary)
  rest ← differing_aggregates source_summary target_summary names
  ok (list_difference name source_value target_value rest)

abbrev pub text_of_value : Value → Option String
text_of_value (str_value s) = some s
text_of_value _ = none

unfoldable pub aggregate_report : WindowArgs → Row → List AggregateItem → ℤ → DriftReport
aggregate_report args source_summary mismatches checked =
    record (new_report "paid-orders-aggregate" checked) {
      aggregate_mismatches = mismatches;
      guarantee = "aggregate";
      observation_window = some (
          build_observation_window [] args (text_of_value (cell "source_watermark" source_summary))
            none none check_complete);
    }

unfoldable pub compare_paid_order_aggregates : WindowArgs → Row → Row → Outcome DriftReport
unfolding differing_aggregates aggregate_report
compare_paid_order_aggregates args source_summary target_summary = do
  mismatches ← differing_aggregates source_summary target_summary aggregate_fields
  checked ← int_or_zero (cell "count" source_summary)
  ok (aggregate_report args source_summary mismatches checked)
