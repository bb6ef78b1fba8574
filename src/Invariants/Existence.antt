-- ===== src/Invariants/Existence.antt =====
-- `compare_paid_orders_to_index`: every paid order is in the index, with the same fields.
pub mod Exact
pub mod Complete
use kube_data_guard.Common.{
  ℕ, ◌==◌, Bool, true, false, not, Option, none, some, String, List, [], ◌∷◌, length, is_empty,
  if◌then◌else◌,
}
use kube_data_guard.Common.Int.{ℤ, pos}
use kube_data_guard.Python.{
  Outcome, ok, raise, ◌>>=◌, traverse, Value, str_value, value_eq, Dict, Row, get, require, cell,
}
use kube_data_guard.Invariants.Report.{
  Mismatch, MissingItem, StaleItem, DriftReport, new_report, check_complete,
}
use kube_data_guard.Invariants.Verdict.{
  Verdict, agrees, is_missing, is_stale, missing_items, stale_items, get_by_id,
}
use kube_data_guard.Invariants.Window.{WindowArgs, build_observation_window}

abbrev pub order_fields : List String
order_fields = "status" ∷ "amount_cents" ∷ "currency" ∷ "version" ∷ []

unfoldable pub differing_fields : Row → Row → List String → List Mismatch
unfolding cell value_eq
differing_fields source target [] = []
differing_fields source target (name ∷ names) =
    if value_eq (cell name source) (cell name target)
    then differing_fields source target names
    else record { name = name; source = cell name source; target = cell name target }
      ∷ differing_fields source target names

unfoldable pub compare_order_fields : Row → Row → List Mismatch
unfolding differing_fields
compare_order_fields source target = differing_fields source target order_fields

-- The verdict on a row with that identifier, against the row found for it.
unfoldable pub judge_found : Value → Row → Option Row → Verdict
unfolding compare_order_fields
judge_found order_id source none = is_missing (record {
  order_id = order_id;
  reason = "paid order is absent from the search index";
  bucket = none;
  source = source;
})
judge_found order_id source (some target) =
    let mismatches = compare_order_fields source target in
    if is_empty mismatches
    then agrees
    else is_stale (record {
      order_id = order_id;
      reason = "search index document differs from source order";
      bucket = none;
      mismatches = mismatches;
      source = source;
      target = target;
    })

-- One round of the loop.
unfoldable pub judge_order : Dict Row → Row → Outcome Verdict
unfolding require get_by_id judge_found
judge_order indexed_orders source = do
  order_id ← require "id" source
  ok (judge_found order_id source (get_by_id order_id indexed_orders))

unfoldable pub existence_report : WindowArgs → List Row → List Verdict → DriftReport
unfolding missing_items stale_items
existence_report args source_orders verdicts =
    record (new_report "paid-orders-indexed" (pos (length source_orders))) {
      missing = missing_items verdicts;
      stale = stale_items verdicts;
      guarantee = "existence+fieldEquality";
      observation_window =
          some (build_observation_window source_orders args none none none check_complete);
    }

unfoldable pub compare_paid_orders_to_index : WindowArgs → List Row → Dict Row → Outcome DriftReport
unfolding judge_order existence_report traverse
compare_paid_orders_to_index args source_orders indexed_orders = do
  verdicts ← traverse (judge_order indexed_orders) source_orders
  ok (existence_report args source_orders verdicts)
