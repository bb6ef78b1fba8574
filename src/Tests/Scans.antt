-- ===== src/Tests/Scans.antt =====
-- The theorems on the scan and on the frontier of a check at concrete inputs.
use kube_data_guard.Common.{
  ◌≡◌, refl, ◌↔◌, Bool, true, false, none, some, List, [], ◌∷◌, take, text_lt, arith,
}
use kube_data_guard.Common.Int.{pos}
use kube_data_guard.Python.{
  JsonFields, ok, str_value, Value, Row, none_value, truthy, get, cell, null,
}
use kube_data_guard.Scan.{
  scan_args, execute_source_query_keyset, PageRequest, ScanArgs, ScanState, ScanEnd,
}
use kube_data_guard.Scan.Ordered.{IsOrdered, rows_above}
use kube_data_guard.Scan.Complete.{Answers}
use kube_data_guard.Scan.Resumed.{execute_source_query_keyset-resumed}
use kube_data_guard.Scan.Whole.{execute_source_query_keyset-whole}
use kube_data_guard.Frontier.{Positions, frontier_status, bounded}
use kube_data_guard.Frontier.Steps.{IsBounded}
use kube_data_guard.Frontier.Bounded.{frontier_bounded_iff}
use kube_data_guard.Tests.{order}

abbrev pub table : List Row
table = order "a" "paid" ∷ order "b" "paid" ∷ order "c" "paid" ∷ []

abbrev pub gt : Value → Value → Bool
gt (str_value a) (str_value b) = text_lt b a
gt _ _ = false

abbrev pub fetch : PageRequest → List Row
fetch r = elim r.after [
  | none ↦ take r.limit table
  | some k ↦ take r.limit (rows_above gt "id" k table)
]

pub fetch-Answers : Answers gt "id" fetch table
fetch-Answers = record { first_page = λ r e. rw e refl; page_above = λ r k e. rw e refl }

pub table-IsOrdered : IsOrdered gt "id" table
unfolding get cell text_lt
table-IsOrdered = (
  refl,
  refl,
  refl,
  ((refl, refl), ((refl, refl), tt)),
  (refl, refl, refl, ((refl, refl), tt), (refl, refl, refl, tt, tt)),
)

abbrev pub scan_of : ScanArgs
scan_of = record {
  source_query = "select * from orders";
  quoted_key = "\"id\"";
  key_field = "id";
  page_size = 2;
  resume_after_key = none_value;
  max_pages = pos 0;
}

abbrev begun : Value → ScanState
begun key = record {
  rows = [];
  pages = 0;
  last_key = key;
  first_key_text = none;
  last_key_text = none;
  source_watermark = none;
  progress = [];
}

execute_source_query_keyset-whole_example :
    (e : ScanEnd) × (evidence : JsonFields) × (execute_source_query_keyset fetch 4
        "select * from orders;" "id"
        (str_value "2")
        none_value
        (pos 0)
      ≡ some (ok (e, evidence)))
    × (e.state.rows ≡ table)
    × (e.completed ≡ true)
unfolding scan_args
execute_source_query_keyset-whole_example =
    execute_source_query_keyset-whole gt fetch table 4 "select * from orders;" "id" (str_value "2")
      (pos 0) scan_of refl refl fetch-Answers table-IsOrdered (omega arith)

execute_source_query_keyset-resumed_example :
    (e : ScanEnd) × (evidence : JsonFields) × (execute_source_query_keyset fetch 3
        "select * from orders;" "id"
        (str_value "2")
        (cell "id" (order "a" "paid"))
        (pos 0)
      ≡ some (ok (e, evidence)))
    × (e.state.rows ≡ order "b" "paid" ∷ order "c" "paid" ∷ [])
    × (e.completed ≡ true)
unfolding cell scan_args truthy
execute_source_query_keyset-resumed_example =
    execute_source_query_keyset-resumed gt fetch [] (order "a" "paid")
      (order "b" "paid" ∷ order "c" "paid" ∷ []) 3 "select * from orders;" "id" (str_value "2")
      (pos 0) (record scan_of { resume_after_key = str_value "a" }) refl refl refl fetch-Answers
      table-IsOrdered (omega arith)

abbrev positions : Positions
positions = record {
  source_lsn = some "0/16B6C50";
  source_watermark = none;
  outbox = some (record {
    available = true;
    published_count = pos 3;
    unpublished_count = pos 0;
    offset_recorded_count = pos 3;
    published_offsets =
        record {
          topic = some "orders.events";
          partition = some (pos 0);
          max_published_offset = some (pos 2);
        }
        ∷ [];
    payload = null;
  });
  offsets = record {
    event_count = some (pos 3);
    offset_start = some (pos 0);
    offset_end = some (pos 3);
    partitions = some (pos 1);
    partition_offsets = record { partition = some (pos 0); end_offset = some (pos 3) } ∷ [];
    payload = null;
  };
  stream_topic = "orders.events";
  target_read_at = pos 63916862410000000;
  target_frontier = some (record {
    available = true;
    applied_offsets =
        record {
          topic = some "orders.events";
          partition = some (pos 0);
          max_applied_offset = some (pos 2);
        }
        ∷ [];
    payload = null;
  });
}

frontier_bounded_iff_example : (frontier_status positions ≡ bounded) ↔ IsBounded positions
frontier_bounded_iff_example = frontier_bounded_iff positions
