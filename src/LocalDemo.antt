-- ===== src/LocalDemo.antt =====
-- src/dataguard/local_demo.py: the proof that runs without services. Orders are made, an index of them
-- with faults is made, the checks find the faults, the repair indexes the found orders again, and the
-- checks run once more. The indexes are dictionaries keyed by texts.
pub mod Reindex
pub mod Repaired
use kube_data_guard.Common.{
  ℕ, zero, suc, ◌+◌, ◌-◌, ◌*◌, ◌%◌, ◌==◌, Bool, true, false, not, ◌&&◌, Option, none, some, String,
  List, [], ◌∷◌, ◌++◌, map, length, ltb, nat_eq, if◌then◌else◌,
}
use kube_data_guard.Common.Int.{ℤ, pos, ◌+ℤ◌, ◌-ℤ◌}
use kube_data_guard.Python.{
  Outcome, ok, raise, key_error, type_error, ◌>>=◌, traverse, Value, int_value, str_value, to_int,
  decimal, sorted_values, Dict, Row, get, put, require, Json, JsonFields, object, scalar, field,
  no_fields, text, number, list,
}
use kube_data_guard.Python.Clock.{Instant, iso}
use kube_data_guard.Merkle.{◌&◌}
use kube_data_guard.Invariants.Report.{MissingItem, StaleItem, DriftReport, drift_count, healthy}
use kube_data_guard.Invariants.Verdict.{get_by_id}
use kube_data_guard.Invariants.Window.{WindowArgs}
use kube_data_guard.Invariants.Existence.{compare_paid_orders_to_index}
use kube_data_guard.Invariants.Aggregate.{summarize_paid_orders, compare_paid_order_aggregates}

abbrev pad_to : ℕ → ℕ → String
unfolding decimal
pad_to width n =
    let s = decimal n in
    if nat_eq width 4
    then (if ltb n 10
        then "000" & s
        else if ltb n 100
        then "00" & s
        else if ltb n 1000
        then "0" & s
        else s)
    else (if ltb n 10 then "00" & s else if ltb n 100 then "0" & s else s)

-- 2026-06-12T11:55:00+00:00
abbrev pub demo_start : Instant
demo_start = pos 63916862100000000

unfoldable pub make_order : ℕ → Row
unfolding iso decimal ◌+ℤ◌
make_order index =
    let timestamp = iso (demo_start +ℤ pos (index * 3 * 1000000)) in
    ("id", str_value ("order-" & pad_to 4 index))
    ∷ ("customer_id", str_value ("customer-" & pad_to 3 (index % 7 + 1)))
    ∷ ("status", str_value "paid")
    ∷ ("amount_cents", int_value (pos (1000 + index * 137)))
    ∷ ("currency", str_value "USD")
    ∷ ("version", int_value (pos 1))
    ∷ ("created_at", str_value timestamp)
    ∷ ("updated_at", str_value timestamp)
    ∷ []

-- The orders `first`, `first + 1`, …, `count` of them.
unfoldable pub orders_from : ℕ → ℕ → List Row
unfolding make_order
orders_from first zero = []
orders_from first (suc count) = make_order first ∷ orders_from (suc first) count

unfoldable pub make_source_orders : ℕ → List Row
unfolding orders_from
make_source_orders count = orders_from 1 count

-- The key under which an index keeps an order.
abbrev pub key_of : Value → Outcome String
key_of (str_value k) = ok k
key_of _ = raise type_error

unfoldable pub index_copy : Row → Row → Dict Row → Outcome (Dict Row)
unfolding require put
index_copy order document indexed = do
  updated ← require "updated_at" order
  order_id ← require "id" order
  key ← key_of order_id
  ok (put key (put "indexed_at" updated document) indexed)

-- The loop over the orders; `position` is that of the first of them.
unfoldable pub index_kept : ℕ → ℕ → List Row → Dict Row → Outcome (Dict Row)
unfolding index_copy
index_kept skip_every_paid position [] indexed = ok indexed
index_kept skip_every_paid position (order ∷ orders) indexed =
    let skip = index_kept skip_every_paid (suc position) orders indexed in
    if not (nat_eq skip_every_paid 0) && nat_eq (position % skip_every_paid) 0 then skip else do
      more ← index_copy order order indexed
      index_kept skip_every_paid (suc position) orders more

-- `source_orders[min(2, len(source_orders) - 1)]`
abbrev pub stale_choice : List Row → Option Row
stale_choice [] = none
stale_choice (a ∷ []) = some a
stale_choice (a ∷ b ∷ []) = some b
stale_choice (a ∷ b ∷ c ∷ _) = some c

unfoldable pub index_stale : Row → Dict Row → Outcome (Dict Row)
unfolding index_copy require to_int put ◌-ℤ◌
index_stale order indexed = do
  value ← require "amount_cents" order
  amount ← to_int value
  let cheaper = put "amount_cents" (int_value (amount -ℤ pos 250)) order
  index_copy order (put "version" (int_value (pos 0)) cheaper) indexed

unfoldable pub make_drifted_index : List Row → ℕ → Outcome (Dict Row)
unfolding index_kept index_stale
make_drifted_index source_orders skip_every_paid = do
  indexed ← index_kept skip_every_paid 1 source_orders []
  elim (stale_choice source_orders) [ none ↦ ok indexed | some order ↦ index_stale order indexed ]

-- `{order["id"]: order for order in source_orders}`
unfoldable pub orders_by_id : List Row → Dict Row → Outcome (Dict Row)
unfolding require put
orders_by_id [] d = ok d
orders_by_id (order ∷ orders) d = do
  order_id ← require "id" order
  key ← key_of order_id
  orders_by_id orders (put key order d)

abbrev pub missing_ids : DriftReport → List Value
missing_ids r = map (λ (m : MissingItem). m.order_id) r.missing

abbrev pub stale_ids : DriftReport → List Value
stale_ids r = map (λ (s : StaleItem). s.order_id) r.stale

abbrev pub reported_ids : DriftReport → List Value
reported_ids r = missing_ids r ++ stale_ids r

abbrev pub repaired_at : String
repaired_at = "2026-06-12T12:00:10+00:00"

abbrev pub reindexed : Row → Row
reindexed order = put "indexed_at" (str_value repaired_at) order

-- The loop over the candidates.
unfoldable pub reindex : Dict Row → List Value → Dict Row → Outcome (Dict Row)
unfolding get_by_id put
reindex source_by_id [] index = ok index
reindex source_by_id (order_id ∷ order_ids) index = elim (get_by_id order_id source_by_id) [
  | none ↦ raise (key_error "order_id")
  | some order ↦ do
    key ← key_of order_id
    reindex source_by_id order_ids (put key (reindexed order) index)
]

unfoldable pub repair_result : List Value → DriftReport → JsonFields
unfolding drift_count
repair_result ids report = field "action" (text "reindex-records-from-source") (
    field "source_of_truth" (text "postgres.orders") (
      field "target" (text "opensearch.orders") (
        field "candidate_order_ids" (list (map scalar ids)) (
          field "repaired_order_ids" (list (map scalar ids)) (
            field "repaired" (number (length ids)) (
              field "idempotency_model" (text "upsert by order id") (
                field "repair_scope"
                  (object (
                    field "invariant" (text report.invariant) (
                      field "guarantee" (text report.guarantee)
                        (field "drift_count_before" (number (drift_count report)) no_fields))))
                  no_fields)))))))

unfoldable pub repair_index_from_report :
    List Row → Dict Row → DriftReport → Outcome (Dict Row × JsonFields)
unfolding orders_by_id sorted_values reindex repair_result
repair_index_from_report source_orders drifted_index report = do
  source_by_id ← orders_by_id source_orders []
  ids ← sorted_values (reported_ids report)
  index ← reindex source_by_id ids drifted_index
  ok (index, repair_result ids report)

pub record LocalProofResult : Type 0 where
  pub source_orders : List Row
  pub drifted_index : Dict Row
  pub repaired_index : Dict Row
  pub before_existence : DriftReport
  pub before_aggregate : DriftReport
  pub repair : JsonFields
  pub after_existence : DriftReport
  pub after_aggregate : DriftReport

unfoldable pub passed : LocalProofResult → Bool
unfolding healthy
passed r =
    not (healthy r.before_existence) && (healthy r.after_existence && healthy r.after_aggregate)

abbrev pub values {ℓ} : {V : Type ℓ} → Dict V → List V
values [] = []
values ((k, v) ∷ d) = v ∷ values d

abbrev pub demo_args : Instant → List Row → WindowArgs
demo_args at orders = record {
  max_lag_seconds = pos 0;
  checked_at = some at;
  target_read_at = some at;
  stream_topic = some "orders.events";
  stream_offset_start = some (pos 1);
  stream_offset_end = some (pos (length orders));
  source_lsn = none;
  cdc_frontier = none;
  now = at;
}

-- The aggregate check of an index against the orders.
unfoldable pub check_aggregate : WindowArgs → List Row → Dict Row → Outcome DriftReport
unfolding summarize_paid_orders compare_paid_order_aggregates
check_aggregate args orders index = do
  source ← summarize_paid_orders orders
  target ← summarize_paid_orders (values index)
  compare_paid_order_aggregates args source target

unfoldable pub run_local_proof : ℕ → ℕ → Outcome LocalProofResult
unfolding make_source_orders make_drifted_index compare_paid_orders_to_index check_aggregate
    repair_index_from_report ◌+ℤ◌
run_local_proof count skip_every_paid = do
  let orders = make_source_orders count
  drifted ← make_drifted_index orders skip_every_paid
  -- 12:00:00 and ten seconds later
  let before = demo_args (demo_start +ℤ pos 300000000) orders
  before_existence ← compare_paid_orders_to_index before orders drifted
  before_aggregate ← check_aggregate before orders drifted
  repaired ← repair_index_from_report orders drifted before_existence
  let after = demo_args (demo_start +ℤ pos 310000000) orders
  after_existence ← compare_paid_orders_to_index after orders repaired.0
  after_aggregate ← check_aggregate after orders repaired.0
  ok (record {
    source_orders = orders;
    drifted_index = drifted;
    repaired_index = repaired.0;
    before_existence = before_existence;
    before_aggregate = before_aggregate;
    repair = repaired.1;
    after_existence = after_existence;
    after_aggregate = after_aggregate;
  })
