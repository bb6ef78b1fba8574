-- ===== src/Pipeline.antt =====
-- The consumers of the event topic: src/dataguard/indexer.py and src/dataguard/cache_indexer.py, with
-- `consume_events` of src/dataguard/events.py. Both run one loop, which differs in what it stores. An
-- event has the fields that its producer gives it. What is committed is a list of messages, in order: those whose commit
-- returned.
pub mod Steps
pub mod Counts
pub mod Overwritten
pub mod Latest
pub mod Last
use kube_data_guard.Common.{
  ℕ, zero, suc, ◌%◌, ◌==◌, Bool, true, false, not, ◌&&◌, Option, none, some, String, List, [], ◌∷◌,
  ◌++◌, nat_eq, leb, if◌then◌else◌,
}
use kube_data_guard.Common.Int.{ℤ, pos, ltb_ℤ}
use kube_data_guard.Python.{
  Outcome, ok, raise, ◌>>=◌, Value, str_value, Row, JsonFields, field, no_fields, number,
}
use kube_data_guard.Target.{Store, EventMetadata, index_order, cache_order}

pub record Message : Type 0 where
  pub event_id : Value
  pub event_type : String
  pub order : Row
  pub topic : String
  pub partition : ℤ
  pub offset : ℤ

abbrev pub metadata_of : Message → EventMetadata
metadata_of m = record {
  event_id = m.event_id;
  event_type = str_value m.event_type;
  topic = m.topic;
  partition = m.partition;
  offset = m.offset;
}

-- What the consumer gives: the messages, in order, and how the iteration over them ends, its closing
-- included. It raises at a message that is no JSON text, or where the broker fails. `closing` is what
-- closing the consumer raises where the iteration is left before its end.
pub record Polled : Type 0 where
  pub messages : List Message
  pub ending : Outcome (Unit {0})
  pub closing : Outcome (Unit {0})

abbrev pub hand_on : Message → Polled → Polled
hand_on m rest = record rest { messages = m ∷ rest.messages }

abbrev pub enough : Polled → Polled
enough polled = record polled { messages = []; ending = polled.closing }

-- `seen` messages were handed on before: the count is compared after a message was. Where it is reached,
-- the rest is not looked at.
unfoldable pub consume_from : ℤ → ℕ → List Message → Polled → Polled
consume_from most seen [] polled = record polled { messages = [] }
consume_from most seen (m ∷ ms) polled =
    let rest = consume_from most (suc seen) ms polled in
    hand_on m (if ltb_ℤ (pos (suc seen)) most then rest else enough polled)

unfoldable pub consume_events : Option ℤ → Polled → Polled
unfolding consume_from
consume_events none polled = polled
consume_events (some most) polled = consume_from most 0 polled.messages polled

pub record Progress (S : Type 0) : Type 0 where
  pub processed : ℕ
  pub indexed : ℕ
  pub skipped : ℕ
  pub paid_seen : ℕ
  pub state : S
  pub committed : List Message

abbrev pub begin : {S : Type 0} → S → Progress S
begin s = record {
  processed = 0;
  indexed = 0;
  skipped = 0;
  paid_seen = 0;
  state = s;
  committed = [];
}

-- The loop's result: how far it came, and whether it ended by an error.
pub record Run (S : Type 0) : Type 0 where
  pub progress : Progress S
  pub outcome : Outcome (Unit {0})

abbrev pub is_paid : Message → Bool
is_paid m = m.event_type == "OrderPaid"

-- `skip_every_paid and paid_seen % skip_every_paid == 0`
abbrev pub is_skipped : Option ℕ → ℕ → Bool
is_skipped none seen = false
is_skipped (some every) seen = not (nat_eq every 0) && nat_eq (seen % every) 0

abbrev pub count_message : {S : Type 0} → Message → Progress S → Progress S
count_message m p = record p {
  processed = suc p.processed;
  paid_seen = if is_paid m then suc p.paid_seen else p.paid_seen;
}

-- The message is passed over, the simulated fault, and its offset is to be committed.
abbrev pub skip_message : {S : Type 0} → Progress S → Progress S
skip_message p = record p { skipped = suc p.skipped }

-- The message was stored, and its offset is to be committed.
abbrev pub store_message : {S : Type 0} → S → Progress S → Progress S
store_message s p = record p { indexed = suc p.indexed; state = s }

abbrev pub commit_message : {S : Type 0} → Message → Progress S → Progress S
commit_message m p = record p { committed = p.committed ++ m ∷ [] }

-- `apply` writes the document of a message, `commit` is the consumer's. Either may raise, and so may the
-- iteration, which ends as `ending` tells.
module _ {S : Type 0} (apply : Message → S → Outcome S)
    (commit : Message → Outcome (Unit {0})) where
  unfoldable pub run_messages : Option ℕ → List Message → Outcome (Unit {0}) → Progress S → Run S
  run_messages skip_every_paid [] ending p = record { progress = p; outcome = ending }
  run_messages skip_every_paid (m ∷ ms) ending p =
      let counted = count_message m p in
      elim (is_paid m && is_skipped skip_every_paid counted.paid_seen) [
        | true ↦ elim (commit m) [
          | raise e ↦ record { progress = skip_message counted; outcome = raise e }
          | ok u ↦ run_messages skip_every_paid ms ending (commit_message m (skip_message counted))
        ]
        | false ↦ elim (apply m p.state) [
          | raise e ↦ record { progress = counted; outcome = raise e }
          | ok s ↦ elim (commit m) [
            | raise e ↦ record { progress = store_message s counted; outcome = raise e }
            | ok u ↦
                run_messages skip_every_paid ms ending (commit_message m (store_message s counted))
          ]
        ]
      ]

  -- The loop over what `consume_events` hands on.
  unfoldable pub run_consumer : Option ℤ → Option ℕ → Polled → S → Run S
  unfolding consume_events run_messages
  run_consumer max_messages skip_every_paid polled s =
      let given = consume_events max_messages polled in
      run_messages skip_every_paid given.messages given.ending (begin s)

module _ (store : Store) (clock : Message → String) where
  unfoldable pub apply_index : Message → store.State → Outcome store.State
  unfolding index_order
  apply_index m s = index_order store (clock m) m.order (some (metadata_of m)) s

  unfoldable pub apply_cache : String → Message → store.State → Outcome store.State
  unfolding cache_order
  apply_cache prefix m s = cache_order store prefix (clock m) m.order (some (metadata_of m)) s

module _ (store : Store) (clock : Message → String) (commit : Message → Outcome (Unit {0})) where
  unfoldable pub run_indexer : Option ℤ → Option ℕ → Polled → store.State → Run store.State
  unfolding run_consumer apply_index
  run_indexer max_messages skip_every_paid polled s =
      run_consumer (apply_index store clock) commit max_messages skip_every_paid polled s

  unfoldable pub run_cache_indexer :
      String → Option ℤ → Option ℕ → Polled → store.State → Run store.State
  unfolding run_consumer apply_cache
  run_cache_indexer prefix max_messages skip_every_paid polled s =
      run_consumer (apply_cache store clock prefix) commit max_messages skip_every_paid polled s

-- The counts that the two functions return, under the name that each gives the stored ones.
abbrev pub counts_json : {S : Type 0} → String → Progress S → JsonFields
counts_json stored p =
    field "processed" (number p.processed)
      (field stored (number p.indexed) (field "skipped" (number p.skipped) no_fields))
