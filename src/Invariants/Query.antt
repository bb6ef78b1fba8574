-- ===== src/Invariants/Query.antt =====
-- `compare_query_results`: the rows of a source query against those of a target query.
pub mod Exact
use kube_data_guard.Common.{
  ◌==◌, ◌++◌, Bool, true, false, Option, none, some, String, List, [], ◌∷◌, length, is_empty,
  if◌then◌else◌,
}
use kube_data_guard.Common.Int.{pos}
use kube_data_guard.Python.{
  Value, none_value, str_value, value_text, is_none, Dict, Row, get, put, cell,
}
use kube_data_guard.Python.{Json}
use kube_data_guard.Invariants.Report.{Mismatch, MissingItem, StaleItem, DriftReport, new_report}
use kube_data_guard.Invariants.Verdict.{
  Verdict, agrees, is_missing, is_stale, missing_items, stale_items,
}
use kube_data_guard.Invariants.Window.{
  WindowArgs, build_observation_window, latest_source_watermark,
}

-- `{str(row[key_field]): row for row in rows if row.get(key_field) is not None}`: the last row with
-- a key stands for it.
unfoldable pub index_rows : String → List Row → Dict Row → Dict Row
unfolding put cell value_text
index_rows key_field [] built = built
index_rows key_field (row ∷ rows) built =
    let key = cell key_field row in
    index_rows key_field rows (if is_none key then built else put (value_text key) row built)

unfoldable pub comparable_value : Value → Option String
unfolding value_text
comparable_value none_value = none
comparable_value v = some (value_text v)

abbrev pub same_text : Option String → Option String → Bool
same_text none none = true
same_text (some a) (some b) = a == b
same_text _ _ = false

unfoldable pub compare_named_fields : Row → Row → List String → List Mismatch
unfolding cell comparable_value
compare_named_fields source target [] = []
compare_named_fields source target (name ∷ names) =
    if same_text (comparable_value (cell name source)) (comparable_value (cell name target))
    then compare_named_fields source target names
    else record { name = name; source = cell name source; target = cell name target }
      ∷ compare_named_fields source target names

unfoldable pub judge_keyed : List String → String → Row → Option Row → Verdict
unfolding compare_named_fields
judge_keyed compare_fields row_key source none = is_missing (record {
  order_id = str_value row_key;
  reason = "source row is absent from the target query result";
  bucket = none;
  source = source;
})
judge_keyed compare_fields row_key source (some target) =
    let mismatches = compare_named_fields source target compare_fields in
    if is_empty mismatches
    then agrees
    else is_stale (record {
      order_id = str_value row_key;
      reason = "target row differs from source row";
      bucket = none;
      mismatches = mismatches;
      source = source;
      target = target;
    })

-- One round of the loop.
unfoldable pub judge_row : String → List String → Dict Row → Row → Verdict
unfolding cell get value_text judge_keyed
judge_row key_field compare_fields target_by_key source =
    if is_none (cell key_field source)
    then is_stale (record {
      order_id = none_value;
      reason = "source row is missing key field";
      bucket = none;
      mismatches = record { name = key_field; source = none_value; target = none_value } ∷ [];
      source = source;
      target = [];
    })
    else let row_key = value_text (cell key_field source) in
      judge_keyed compare_fields row_key source (get row_key target_by_key)

unfoldable pub judge_rows : String → List String → Dict Row → List Row → List Verdict
unfolding judge_row
judge_rows key_field compare_fields target_by_key [] = []
judge_rows key_field compare_fields target_by_key (row ∷ rows) =
    judge_row key_field compare_fields target_by_key row
    ∷ judge_rows key_field compare_fields target_by_key rows

-- The arguments that are the query's own.
pub record QueryArgs : Type 0 where
  pub invariant_name : String
  pub key_field : String
  pub compare_fields : List String
  pub guarantee : String
  pub source_scan : Option Json
  pub check_status : String

unfoldable pub compare_query_results : WindowArgs → QueryArgs → List Row → List Row → DriftReport
unfolding index_rows judge_rows missing_items stale_items latest_source_watermark
compare_query_results args q source_rows target_rows =
    let target_by_key = index_rows q.key_field target_rows [] in
    let verdicts = judge_rows q.key_field q.compare_fields target_by_key source_rows in
    record (new_report q.invariant_name (pos (length source_rows))) {
      missing = missing_items verdicts;
      stale = stale_items verdicts;
      guarantee = q.guarantee;
      check_status = q.check_status;
      observation_window = some (
          build_observation_window source_rows args (latest_source_watermark source_rows)
            q.source_scan none q.check_status);
    }
