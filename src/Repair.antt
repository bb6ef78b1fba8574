-- ===== src/Repair.antt =====
-- src/dataguard/repair.py: the orders that a report's repair is about, and the six ways to repair
-- them. What the functions do outside the process is a list of actions in the order they are done; the
-- services, the clock, the environment and the path operations are fields of `World`.
pub mod Batches
pub mod Dispatch
pub mod Webhook
use kube_data_guard.Common.{
  ℕ, zero, suc, ◌==◌, Bool, true, false, ◌||◌, Option, none, some, String, List, [], ◌∷◌, ◌++◌, map,
  length, take, drop, is_empty, if◌then◌else◌,
}
use kube_data_guard.Common.Int.{ℤ, pos, negsuc, pos_part, ltb_ℤ}
use kube_data_guard.Python.{
  Outcome, ok, raise, value_error, type_error, attribute_error, Error, ◌>>=◌, ◌>>◌, guard, traverse,
  Value, str_value, none_value, to_int, sorted_values, value_text, Row, require, Json, JsonFields,
  object, scalar, field, no_fields, text, number, null, list, row_json, iterate, index, get_default,
}
use kube_data_guard.Merkle.{◌&◌}

pub data Action : Type 0 where
  write_file : String → List Json → Action
  publish : String → Value → Json → Action
  post : String → Json → Action
  index_order : Row → Action
  backfill : Option (List Value) → Action

-- What a function has done, and what it returned or raised.
pub record Done (A : Type 0) : Type 0 where
  pub actions : List Action
  pub result : Outcome A

-- Settings, environment variables, `time.time()`, `pathlib`, `str.format`, `str.lower`, and the answers
-- of the services.
pub record World : Type 0 where
  pub getenv : String → Option String
  pub now : String
  pub report_dir : String
  pub order_events_topic : String
  pub join_path : String → String → String
  pub format_key : String → Value → Outcome String
  pub lower : String → String
  pub fetch_orders_by_ids : List Value → Outcome (List Row)
  pub index_answer : Row → Outcome (Unit {0})
  pub publish_answer : String → Value → Json → Outcome JsonFields
  pub post_answer : String → Json → Outcome (Json × Json)
  pub backfill_answer : Option (List Value) → Outcome Json

abbrev pub getenv_or : World → String → String → String
getenv_or w name default = elim (w.getenv name) [ none ↦ default | some s ↦ s ]

-- Calls made one after the other, each answered; a call that raises ends the loop.
unfoldable pub each : {A B : Type 0} → (A → Action) → (A → Outcome B) → List A → Done (List B)
each act answer [] = record { actions = []; result = ok [] }
each act answer (x ∷ xs) =
    let rest = each act answer xs in
    elim (answer x) [
      | raise e ↦ record { actions = act x ∷ []; result = raise e }
      | ok y ↦ record { actions = act x ∷ rest.actions; result = rest.result >>= λ ys. ok (y ∷ ys) }
    ]

-- A function that raises before it does anything.
abbrev pub failed : {A : Type 0} → Error → Done A
failed e = record { actions = []; result = raise e }

abbrev pub returning : {A B : Type 0} → (A → B) → Done A → Done B
returning f d = record { actions = d.actions; result = d.result >>= λ a. ok (f a) }

-- `item["order_id"]`, which a set takes only if it can be hashed.
unfoldable pub item_order_id : Json → Outcome Value
unfolding index
item_order_id item =
    index item "order_id" >>= λ j. elim j [ scalar v ↦ ok v | _ ↦ raise type_error ]

unfoldable pub listed_items : JsonFields → String → Outcome (List Json)
unfolding get_default iterate
listed_items payload name = iterate (get_default name (list []) payload)

unfoldable pub repair_order_ids : JsonFields → Outcome (List Value)
unfolding listed_items item_order_id traverse sorted_values
repair_order_ids payload = do
  missing ← listed_items payload "missing"
  stale ← listed_items payload "stale"
  freshness ← listed_items payload "freshness_violations"
  ids ← traverse item_order_id (missing ++ (stale ++ freshness))
  sorted_values ids

-- `range(0, len(values), size)`: there are no more rounds than values.
unfoldable pub batches_from : {A : Type 0} → ℕ → ℕ → List A → List (List A)
batches_from zero size values = []
batches_from (suc fuel) size values =
    let rest = batches_from fuel size (drop size values) in
    if is_empty values then [] else take size values ∷ rest

unfoldable pub batches : {A : Type 0} → List A → ℤ → Outcome (List (List A))
unfolding batches_from
batches values size = do
  guard (if ltb_ℤ size (pos 1) then false else true) (value_error "batch size must be at least 1")
  ok (batches_from (length values) (pos_part size) values)

abbrev pub ids_json : List Value → Json
ids_json ids = list (map scalar ids)

abbrev pub reconcile_json : Value → Json
reconcile_json id = object (
    field "action" (text "reconcile")
      (field "entity" (text "order") (field "id" (scalar id) no_fields)))

abbrev pub invalidate_json : Value → String → Json
invalidate_json id key = object (
    field "action" (text "invalidate-cache") (
      field "cache" (text "redis") (
        field "entity" (text "order") (field "id" (scalar id) (field "key" (text key) no_fields)))))

abbrev pub replay_json : Value → Json
replay_json id = object (
    field "action" (text "replay") (
      field "entity" (text "order")
        (field "id" (scalar id) (field "reason" (text "kubedataguard-drift") no_fields))))

abbrev pub webhook_json : List Value → Json
webhook_json ids = object (
    field "action" (text "reconcile") (
      field "entity" (text "order")
        (field "ids" (ids_json ids) (field "reason" (text "kubedataguard-drift") no_fields))))

module _ (w : World) where
  -- A line that cannot be made leaves the file with the lines before it.
  unfoldable pub file_lines : (Value → Outcome Json) → List Value → List Json × Outcome (Unit {0})
  file_lines payload_factory [] = ([], ok tt)
  file_lines payload_factory (id ∷ ids) =
      let (rest, outcome) = file_lines payload_factory ids in
      elim (payload_factory id) [ raise e ↦ ([], raise e) | ok line ↦ (line ∷ rest, outcome) ]

  unfoldable pub emit_request_file :
      List Value → String → String → (Value → Outcome Json) → Done JsonFields
  unfolding file_lines
  emit_request_file order_ids mode filename_prefix payload_factory =
      let event_path = w.join_path w.report_dir (filename_prefix & "-" & w.now & ".jsonl") in
      let (lines, outcome) = file_lines payload_factory order_ids in
      record {
        actions = write_file event_path lines ∷ [];
        result =
            outcome
            >> ok (
                field "candidate_order_ids" (ids_json order_ids) (
                  field "repair_mode" (text mode) (
                    field "emitted" (number (length order_ids))
                      (field "eventRef" (text ("file://" & event_path)) no_fields))));
      }

  unfoldable pub emit_reconcile_events : List Value → Done JsonFields
  unfolding emit_request_file
  emit_reconcile_events order_ids =
      emit_request_file order_ids "emit-reconcile-events" "reconcile-events"
        (λ id. ok (reconcile_json id))

  unfoldable pub emit_redis_invalidation_requests : List Value → Done JsonFields
  unfolding emit_request_file
  emit_redis_invalidation_requests order_ids =
      let key_template = getenv_or w "REDIS_KEY_TEMPLATE" "order:{id}" in
      emit_request_file order_ids "invalidate-cache" "redis-invalidation"
        (λ id. w.format_key key_template id >>= λ key. ok (invalidate_json id key))

  abbrev pub scope_of : List Value → String
  scope_of ids = if is_empty ids then "full-paid-orders" else "ids"

  abbrev pub hint_json : String → Json
  hint_json hint = if hint == "" then null else text hint

  abbrev pub backfill_json : List Value → Json
  backfill_json ids = object (
      field "action" (text "clickhouse-backfill") (
        field "entity" (text "order") (
          field "table" (text (getenv_or w "CLICKHOUSE_BACKFILL_TABLE" "orders_analytics")) (
            field "partition_hint" (hint_json (getenv_or w "CLICKHOUSE_BACKFILL_PARTITION" "")) (
              field "ids" (ids_json ids) (
                field "scope" (text (scope_of ids))
                  (field "reason" (text "kubedataguard-drift") no_fields)))))))

  abbrev pub is_yes : String → Bool
  is_yes s = s == "1" || s == "true" || s == "yes"

  abbrev pub ids_or_none : List Value → Option (List Value)
  ids_or_none ids = if is_empty ids then none else some ids

  abbrev pub backfill_result : List Value → String → JsonFields → JsonFields
  backfill_result ids path more = field "candidate_order_ids" (ids_json ids) (
      field "repair_mode" (text "clickhouse-backfill") (
        field "requested" (number (length ids)) (
          field "backfillRef" (text ("file://" & path)) (
            field "table" (text (getenv_or w "CLICKHOUSE_BACKFILL_TABLE" "orders_analytics"))
              (field "scope" (text (scope_of ids)) more)))))

  unfoldable pub emit_clickhouse_backfill_request : List Value → Done JsonFields
  emit_clickhouse_backfill_request ids =
      let path = w.join_path w.report_dir ("clickhouse-backfill-" & w.now & ".json") in
      let written = write_file path (backfill_json ids ∷ []) in
      if is_yes (w.lower (getenv_or w "CLICKHOUSE_BACKFILL_EXECUTE" ""))
      then record {
        actions = written ∷ backfill (ids_or_none ids) ∷ [];
        result = w.backfill_answer (ids_or_none ids) >>= λ executed.
            ok (backfill_result ids path (field "executed" executed no_fields));
      }
      else record { actions = written ∷ []; result = ok (backfill_result ids path no_fields) }

  abbrev pub replay_topic : String
  replay_topic = getenv_or w "REPAIR_KAFKA_TOPIC" (w.order_events_topic & ".reconcile")

  unfoldable pub replay_answer : Value → Outcome Json
  replay_answer id = w.publish_answer replay_topic id (replay_json id) >>= λ metadata.
      ok (object (field "id" (scalar id) metadata))

  unfoldable pub publish_kafka_replay_requests : List Value → Done JsonFields
  unfolding each replay_answer
  publish_kafka_replay_requests ids =
      returning
        (λ events. field "candidate_order_ids" (ids_json ids) (
          field "repair_mode" (text "replay-kafka") (
            field "published" (number (length events))
              (field "topic" (text replay_topic) (field "events" (list events) no_fields)))))
        (each (λ id. publish replay_topic id (replay_json id)) replay_answer ids)

  -- The status and the reason of the response, and the size of the batch.
  unfoldable pub webhook_answer : String → List Value → Outcome Json
  webhook_answer endpoint batch = w.post_answer endpoint (webhook_json batch) >>= λ response. ok (
      object (
        field "status" response.0
          (field "reason" response.1 (field "count" (number (length batch)) no_fields))))

  abbrev pub webhook_result : String → List Value → List Json → JsonFields
  webhook_result endpoint ids responses = field "candidate_order_ids" (ids_json ids) (
      field "repair_mode" (text "call-webhook") (
        field "endpoint" (text endpoint) (
          field "dispatched" (number (length ids)) (field "responses" (list responses) no_fields))))

  unfoldable pub call_reconciliation_webhook : List Value → Done JsonFields
  unfolding each batches webhook_answer to_int
  call_reconciliation_webhook ids =
      let endpoint = getenv_or w "REPAIR_WEBHOOK_URL" "" in
      let groups =
        to_int (str_value (getenv_or w "REPAIR_WEBHOOK_BATCH_SIZE" "500")) >>= batches ids in
      if endpoint == ""
      then failed (value_error "REPAIR_WEBHOOK_URL is required for call-webhook repair mode")
      else elim groups [
        | raise e ↦ failed e
        | ok bs ↦
            returning (webhook_result endpoint ids)
              (each (λ batch. post endpoint (webhook_json batch)) (webhook_answer endpoint) bs)
      ]

  -- `print(f"repaired order_id={order['id']}")` raises where the row lacks the column.
  unfoldable pub reindex_answer : Bool → Row → Outcome (Unit {0})
  unfolding require
  reindex_answer verbose order =
      w.index_answer order >> (if verbose then require "id" order >>= (λ _. ok tt) else ok tt)

  unfoldable pub direct_reindex : Bool → List Value → Done JsonFields
  unfolding each reindex_answer
  direct_reindex verbose ids = elim (w.fetch_orders_by_ids ids) [
    | raise e ↦ failed e
    | ok orders ↦
        returning
          (λ repaired. field "candidate_order_ids" (ids_json ids) (
            field "repair_mode" (text "direct-reindex")
              (field "repaired" (number (length repaired)) no_fields)))
          (each index_order (reindex_answer verbose) orders)
  ]

  -- The dispatch on the mode.
  unfoldable pub repair_ids : Bool → String → List Value → Done JsonFields
  unfolding emit_reconcile_events publish_kafka_replay_requests call_reconciliation_webhook
      emit_redis_invalidation_requests emit_clickhouse_backfill_request direct_reindex
  repair_ids verbose mode ids =
      if mode == "emit-reconcile-events"
      then emit_reconcile_events ids
      else if mode == "replay-kafka"
      then publish_kafka_replay_requests ids
      else if mode == "call-webhook"
      then call_reconciliation_webhook ids
      else if mode == "invalidate-cache"
      then emit_redis_invalidation_requests ids
      else if mode == "clickhouse-backfill"
      then emit_clickhouse_backfill_request ids
      else if mode == "direct-reindex"
      then direct_reindex verbose ids
      else failed (value_error "unsupported repair mode")

  unfoldable pub repair_from_payload : Bool → JsonFields → String → Done JsonFields
  unfolding repair_order_ids repair_ids
  repair_from_payload verbose payload mode = elim (repair_order_ids payload) [
    | raise e ↦ failed e
    | ok ids ↦ repair_ids verbose mode ids
  ]

  -- `result["report"] = path`: the result has no such key before.
  abbrev pub with_report : String → JsonFields → JsonFields
  with_report path no_fields = field "report" (text path) no_fields
  with_report path (field k v d) = field k v (with_report path d)

  -- What reading the report's file gives is an argument.
  unfoldable pub repair_from_report : String → Outcome JsonFields → String → Done JsonFields
  unfolding repair_from_payload
  repair_from_report path loaded mode = elim loaded [
    | raise e ↦ failed e
    | ok payload ↦ returning (with_report path) (repair_from_payload true payload mode)
  ]
