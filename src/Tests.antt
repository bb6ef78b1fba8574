-- ===== src/Tests.antt =====
-- Concrete inputs, and each theorem at one of them.
pub mod Checks
pub mod CheckJobs
pub mod Repairs
pub mod Pipelines
pub mod Queries
pub mod Scans
pub mod Topics
pub mod Searches
pub mod Writers
pub mod Local
use kube_data_guard.Common.{none, some, String, List, [], ◌∷◌}
use kube_data_guard.Common.Int.{pos}
use kube_data_guard.Python.{str_value, int_value, Dict, Row}
use kube_data_guard.Invariants.Report.{DriftReport, MissingItem, StaleItem}
use kube_data_guard.Invariants.Verdict.{Verdict, is_missing, is_stale, agrees}
use kube_data_guard.Invariants.Window.{WindowArgs}
use kube_data_guard.Invariants.Existence.{existence_report}

abbrev pub order : String → String → Row
order id status =
    ("id", str_value id)
    ∷ ("status", str_value status)
    ∷ ("amount_cents", int_value (pos 500))
    ∷ ("currency", str_value "USD")
    ∷ ("version", int_value (pos 1))
    ∷ ("updated_at", str_value "2026-06-12T11:55:00+00:00")
    ∷ ("indexed_at", str_value "2026-06-12T11:55:02+00:00")
    ∷ []

abbrev pub orders : List Row
orders = order "a" "paid" ∷ order "b" "paid" ∷ []

-- The index lacks one order.
abbrev pub index : Dict Row
index = ("a", order "a" "paid") ∷ []

abbrev pub args : WindowArgs
args = record {
  max_lag_seconds = pos 1;
  checked_at = none;
  target_read_at = none;
  stream_topic = none;
  stream_offset_start = none;
  stream_offset_end = none;
  source_lsn = none;
  cdc_frontier = none;
  now = pos 63916862410000000;
}

abbrev pub verdicts : List Verdict
verdicts =
    agrees
    ∷ is_missing (record {
      order_id = str_value "b";
      reason = "paid order is absent from the search index";
      bucket = none;
      source = order "b" "paid";
    })
    ∷ []

abbrev pub report : DriftReport
unfolding existence_report
report = existence_report args orders verdicts
