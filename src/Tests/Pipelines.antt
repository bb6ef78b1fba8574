-- ===== src/Tests/Pipelines.antt =====
-- The theorems on the consumers of the topic and the views that they fill, at concrete inputs.
use kube_data_guard.Common.{
  ◌≡◌, refl, sym, ap, ◌∙◌, ◌==◌, ℕ, true, none, some, String, List, [], ◌∷◌, All, if◌then◌else◌,
}
use kube_data_guard.Common.Int.{pos}
use kube_data_guard.Python.{
  Outcome, ok, raise, runtime_error, str_value, value_eq, value_text, Dict, Row, get, put, get-put,
  cell, require, JsonFields, field, no_fields, object, list, text, get_default, find,
}
use kube_data_guard.Invariants.Report.{DriftReport, healthy}
use kube_data_guard.KubeReport.{repair_input}
use kube_data_guard.KubeReport.Candidates.{repair_order_ids-repair_input}
use kube_data_guard.Repair.{repair_order_ids}
use kube_data_guard.Target.{Store, index_order, order_key, mget_orders}
use kube_data_guard.Target.Lookup.{is_asked, get-mget_orders}
use kube_data_guard.Pipeline.{
  Message, Polled, consume_events, run_indexer, run_cache_indexer, run_consumer, run_messages,
  apply_index, apply_cache,
}
use kube_data_guard.Pipeline.Counts.{IsAccounted, run_indexer-IsAccounted}
use kube_data_guard.Pipeline.Overwritten.{Leaves}
use kube_data_guard.Pipeline.Latest.{order_id_of, indexed_row, cached_row, run_indexer-overwritten}
use kube_data_guard.Checker.{StreamServices, Services, check_paid_orders_indexed}
use kube_data_guard.Pipeline.Last.{IsLast}
use kube_data_guard.Checker.Indexed.{check_paid_orders_indexed-run_indexer}
use kube_data_guard.Tests.{order, orders}
use kube_data_guard.Tests.Topics.{topic}

abbrev payload : JsonFields
payload =
    field "missing"
      (list (object (field "order_id" (text "b") (field "source" (text "large") no_fields)) ∷ []))
      (field "stale" (list (object (field "order_id" (text "a") no_fields) ∷ [])) no_fields)

repair_order_ids-repair_input_example :
    repair_order_ids (repair_input payload) ≡ repair_order_ids payload
unfolding get_default find
repair_order_ids-repair_input_example =
    repair_order_ids-repair_input payload
      (field "order_id" (text "b") (field "source" (text "large") no_fields) ∷ [], refl)
      (field "order_id" (text "a") no_fields ∷ [], refl) ([], refl)

-- A store that holds its documents in a dictionary, and refuses none.
pub put_law :
    (k : String) (d : Row) (s s' : Dict Row)
    → ◌≡◌ {A = Outcome (Dict Row)} (ok (put k d s)) (ok s')
    → (j : String) → get j s' ≡ (if k == j then some d else get j s)
put_law k d s s' e j =
    let same : put k d s ≡ s' = cc in ap (λ t. get j t) (sym same) ∙ get-put k j d s

abbrev dictionary : Store
dictionary = record {
  State = Dict Row;
  write = λ k d s. ok (put k d s);
  document = λ s k. get k s;
  document-write = put_law;
}

abbrev held : Dict Row
held = ("a", order "a" "paid") ∷ []

get-mget_orders_example :
    get "a" (mget_orders dictionary held (str_value "a" ∷ str_value "b" ∷ []))
    ≡ (if is_asked "a" (str_value "a" ∷ str_value "b" ∷ []) then get "a" held else none)
get-mget_orders_example = get-mget_orders dictionary held (str_value "a" ∷ str_value "b" ∷ []) "a"

abbrev message : String → ℕ → Message
message id offset = record {
  event_id = str_value id;
  event_type = "OrderPaid";
  order = order id "paid";
  topic = "orders.events";
  partition = pos 0;
  offset = pos offset;
}

abbrev messages : List Message
messages = message "a" 0 ∷ message "b" 1 ∷ []

abbrev clock : Message → String
clock m = "2026-06-12T11:55:02Z"

abbrev empty : Dict Row
empty = []

-- The broker ends the topic after two messages, and does not acknowledge the commit of the order b.
abbrev polled : Polled
polled = record { messages = messages; ending = ok tt; closing = ok tt }

abbrev acknowledge : Message → Outcome (Unit {0})
acknowledge m = ok tt

abbrev refuse_b : Message → Outcome (Unit {0})
unfolding value_eq
refuse_b m =
    if value_eq m.event_id (str_value "b") then raise (runtime_error "rebalanced") else ok tt

run_indexer-IsAccounted_example :
    IsAccounted
      (apply_index dictionary clock)
      refuse_b
      (consume_events (some (pos 5)) polled).messages
      (consume_events (some (pos 5)) polled).ending
      (run_indexer dictionary clock refuse_b (some (pos 5)) none polled empty)
    × IsAccounted
        (apply_cache dictionary clock "order")
        refuse_b
        (consume_events (some (pos 5)) polled).messages
        (consume_events (some (pos 5)) polled).ending
        (run_cache_indexer dictionary clock refuse_b "order" (some (pos 5)) none polled empty)
run_indexer-IsAccounted_example =
    run_indexer-IsAccounted dictionary clock refuse_b "order" (some (pos 5)) none polled empty

run_indexer-overwritten_example :
    Leaves order_id_of
      (indexed_row dictionary clock)
      dictionary
      refuse_b
      none
      (consume_events none polled).messages
      empty
      (run_indexer dictionary clock refuse_b none none polled empty)
    × Leaves
        (λ m. order_key "order" (order_id_of m))
        (cached_row dictionary clock)
        dictionary
        refuse_b
        none
        (consume_events none polled).messages
        empty
        (run_cache_indexer dictionary clock refuse_b "order" none none polled empty)
run_indexer-overwritten_example =
    run_indexer-overwritten dictionary clock refuse_b "order" none none polled empty

abbrev pub stream : StreamServices
stream = record {
  order_events_topic = "orders.events";
  topic_offsets = ok topic;
  current_wal_lsn = ok "0/16B6C50";
  outbox_frontier = λ lag. raise (runtime_error "no outbox");
  target_offset_frontier = raise (runtime_error "no index");
}

abbrev pub services : Services
services = record {
  stream = stream;
  checked_at = pos 63916862410000000;
  target_read_at = pos 63916862411000000;
  paid_orders = λ lag. ok orders;
  index = dictionary;
  index_state = ok (run_indexer dictionary clock acknowledge none none polled empty).progress.state;
  cache = dictionary;
  cache_state = ok empty;
  order_cache_prefix = "order";
  cache_offset_frontier = raise (runtime_error "no cache");
  paid_order_summary = λ lag. ok [];
  indexed_summary = λ before. ok [];
  clickhouse_summary = λ lag. ok [];
  clickhouse_table = "kubedataguard.orders";
  source_buckets = λ lag size. ok [];
  target_buckets = λ before size. ok [];
  source_rows = λ prefixes size lag. ok [];
  target_rows = λ prefixes before size. ok [];
}

orders-IsLast : All (IsLast (consume_events none polled).messages) orders
unfolding get cell value_text consume_events
orders-IsLast = (
  record {
    key = "a";
    before = [];
    event = message "a" 0;
    after = message "b" 1 ∷ [];
    identified = refl;
    split = refl;
    carried = refl;
    last = (refl, tt);
  },
  (
    record {
      key = "b";
      before = message "a" 0 ∷ [];
      event = message "b" 1;
      after = [];
      identified = refl;
      split = refl;
      carried = refl;
      last = tt;
    },
    tt,
  ),
)

check_paid_orders_indexed-run_indexer_example :
    (r : DriftReport) × (check_paid_orders_indexed services (pos 60) ≡ ok r) × (healthy r ≡ true)
unfolding run_indexer run_consumer run_messages apply_index index_order require get value_text
    consume_events
check_paid_orders_indexed-run_indexer_example =
    check_paid_orders_indexed-run_indexer services (pos 60) orders clock acknowledge none polled
      empty refl refl refl orders-IsLast
