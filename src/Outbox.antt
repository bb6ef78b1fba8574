-- ===== src/Outbox.antt =====
-- The writer of orders: the orders and the outbox of events of src/dataguard/db.py, `publish_event` of
-- src/dataguard/events.py, and the loop of src/dataguard/generator.py. What Postgres fills in, what Kafka
-- answers and the random numbers are parameters.
pub mod Published
pub mod Counted
use kube_data_guard.Common.{
  ◌==◌, ◌&&◌, not, ℕ, zero, suc, Bool, true, false, Option, none, some, String, List, [], ◌∷◌, ◌++◌,
  length, keep, map, if◌then◌else◌,
}
use kube_data_guard.Common.Int.{ℤ, pos, ltb_ℤ}
use kube_data_guard.Python.{Outcome, ok, raise, key_error, Error, ◌>>=◌, int_value, str_value, Row}
use kube_data_guard.Python.Clock.{Instant, iso, minus_seconds}

-- A row of the table of orders.
pub record DbOrder : Type 0 where
  pub id : String
  pub customer_id : String
  pub status : String
  pub amount_cents : ℤ
  pub currency : String
  pub version : ℤ
  pub created_at : Instant
  pub updated_at : Instant

unfoldable pub serialize_order : DbOrder → Row
unfolding iso
serialize_order o =
    ("id", str_value o.id)
    ∷ ("customer_id", str_value o.customer_id)
    ∷ ("status", str_value o.status)
    ∷ ("amount_cents", int_value o.amount_cents)
    ∷ ("currency", str_value o.currency)
    ∷ ("version", int_value o.version)
    ∷ ("created_at", str_value (iso o.created_at))
    ∷ ("updated_at", str_value (iso o.updated_at))
    ∷ []

pub record EventPayload : Type 0 where
  pub event_type : String
  pub order_id : String
  pub version : ℤ
  pub occurred_at : String
  pub order : Row

unfoldable pub event_type_of : String → Outcome String
event_type_of status =
    if status == "created"
    then ok "OrderCreated"
    else if status == "paid"
    then ok "OrderPaid"
    else if status == "cancelled"
    then ok "OrderCancelled"
    else raise (key_error status)

unfoldable pub order_event_payload : DbOrder → Outcome EventPayload
unfolding event_type_of serialize_order iso
order_event_payload o = do
  event_type ← event_type_of o.status
  ok (record {
    event_type = event_type;
    order_id = o.id;
    version = o.version;
    occurred_at = iso o.updated_at;
    order = serialize_order o;
  })

-- A row of the outbox; the columns of the publication are set together, each to a value or null.
pub record OutboxEvent : Type 0 where
  pub event_id : String
  pub payload : EventPayload
  pub created_at : Instant
  pub published_at : Option Instant
  pub published_topic : Option String
  pub published_partition : Option ℤ
  pub published_offset : Option ℤ

pub record Tables : Type 0 where
  pub orders : List DbOrder
  pub outbox : List OutboxEvent

-- What the generator draws for an order.
pub record Draw : Type 0 where
  pub customer_id : String
  pub status : String
  pub amount_cents : ℤ

pub record RecordMetadata : Type 0 where
  pub topic : String
  pub partition : ℤ
  pub offset : ℤ

-- Postgres makes the row of an order, with its defaults, and the identifier and time of an event; Kafka
-- answers a publication.
pub record Writers : Type 0 where
  pub new_order : Draw → Tables → DbOrder
  pub new_event_id : EventPayload → Tables → String
  pub now : Tables → Instant
  pub send : String → EventPayload → Tables → Outcome RecordMetadata

abbrev pub unpublished_event : String → EventPayload → Instant → OutboxEvent
unpublished_event event_id payload created_at = record {
  event_id = event_id;
  payload = payload;
  created_at = created_at;
  published_at = none;
  published_topic = none;
  published_partition = none;
  published_offset = none;
}

-- The event that a transaction inserted, and the tables after it.
pub record Inserted : Type 0 where
  pub event_id : String
  pub payload : EventPayload
  pub tables : Tables

abbrev pub inserted : Writers → Draw → Tables → EventPayload → Inserted
inserted w draw t payload = record {
  event_id = w.new_event_id payload t;
  payload = payload;
  tables = record {
    orders = t.orders ++ w.new_order draw t ∷ [];
    outbox = t.outbox ++ unpublished_event (w.new_event_id payload t) payload (w.now t) ∷ [];
  };
}

unfoldable pub insert_order_with_event : Writers → Draw → Tables → Outcome Inserted
unfolding order_event_payload
insert_order_with_event w draw t = do
  payload ← order_event_payload (w.new_order draw t)
  ok (inserted w draw t payload)

abbrev pub publish_row : String → Instant → RecordMetadata → OutboxEvent → OutboxEvent
publish_row event_id now m e =
    if e.event_id == event_id
    then record e {
      published_at = some now;
      published_topic = some m.topic;
      published_partition = some m.partition;
      published_offset = some m.offset;
    }
    else e

unfoldable pub mark_event_published : Writers → String → RecordMetadata → Tables → Tables
mark_event_published w event_id m t = record t {
  outbox = map (publish_row event_id (w.now t) m) t.outbox;
}

-- How far the generator came, and whether it ended by an error.
pub record Generated : Type 0 where
  pub generated : List String
  pub tables : Tables
  pub outcome : Outcome (Unit {0})

-- The loop over the draws, one for each order.
unfoldable pub generate_orders : Writers → List Draw → List String → Tables → Generated
unfolding insert_order_with_event mark_event_published
generate_orders w [] generated t = record { generated = generated; tables = t; outcome = ok tt }
generate_orders w (draw ∷ draws) generated t = elim (insert_order_with_event w draw t) [
  | raise e ↦ record { generated = generated; tables = t; outcome = raise e }
  | ok i ↦ elim (w.send i.event_id i.payload i.tables) [
    | raise e ↦ record { generated = generated; tables = i.tables; outcome = raise e }
    | ok metadata ↦
        generate_orders w draws (generated ++ i.event_id ∷ [])
          (mark_event_published w i.event_id metadata i.tables)
  ]
]

abbrev pub is_set {ℓ} : {A : Type ℓ} → Option A → Bool
is_set none = false
is_set (some a) = true

abbrev pub is_published : OutboxEvent → Bool
is_published e = is_set e.published_at

abbrev pub is_offset_recorded : OutboxEvent → Bool
is_offset_recorded e =
    is_set e.published_at
    && (is_set e.published_topic && (is_set e.published_partition && is_set e.published_offset))

-- Events created no later than the lag before now.
abbrev pub is_eligible : Instant → ℤ → OutboxEvent → Bool
is_eligible now max_lag_seconds e = not (ltb_ℤ (minus_seconds now max_lag_seconds) e.created_at)

pub record OutboxCounts : Type 0 where
  pub event_count : ℕ
  pub published_count : ℕ
  pub unpublished_count : ℕ
  pub offset_recorded_count : ℕ

unfoldable pub outbox_counts : Instant → ℤ → Tables → OutboxCounts
unfolding keep
outbox_counts now max_lag_seconds t =
    let eligible = keep (is_eligible now max_lag_seconds) t.outbox in
    record {
      event_count = length eligible;
      published_count = length (keep is_published eligible);
      unpublished_count = length (keep (λ e. not (is_published e)) eligible);
      offset_recorded_count = length (keep is_offset_recorded eligible);
    }
