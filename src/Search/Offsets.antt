-- ===== src/Search/Offsets.antt =====
-- The frontier of the offsets in the index, `target_offset_frontier` of src/dataguard/search.py.
use kube_data_guard.Common.{true, Option, none, some, String, List, [], ◌∷◌, ◌++◌, map}
use kube_data_guard.Common.Int.{ℤ}
use kube_data_guard.Python.{
  Outcome, ok, ◌>>=◌, Value, to_int, int_or_zero, traverse, Json, object, field, no_fields, list,
  integer, integer?, text, text?,
}
use kube_data_guard.Frontier.{AppliedOffset, TargetFrontier}

-- The buckets of the aggregation of offsets by topic and partition.
pub record PartitionBucket : Type 0 where
  pub key : Value
  pub max_offset : Option Value
  pub event_count : Value

pub record TopicBucket : Type 0 where
  pub key : Option String
  pub partitions : List PartitionBucket

pub record PartitionFrontier : Type 0 where
  pub topic : Option String
  pub partition : ℤ
  pub event_count : ℤ
  pub max_applied_offset : Option ℤ

unfoldable pub to_int? : Option Value → Outcome (Option ℤ)
unfolding to_int
to_int? none = ok none
to_int? (some v) = to_int v >>= λ i. ok (some i)

unfoldable pub partition_frontier : Option String → PartitionBucket → Outcome PartitionFrontier
unfolding to_int int_or_zero to_int?
partition_frontier topic b = do
  partition ← to_int b.key
  event_count ← int_or_zero b.event_count
  max_offset ← to_int? b.max_offset
  ok (record {
    topic = topic;
    partition = partition;
    event_count = event_count;
    max_applied_offset = max_offset;
  })

unfoldable pub topic_frontiers : List TopicBucket → Outcome (List PartitionFrontier)
unfolding partition_frontier traverse
topic_frontiers [] = ok []
topic_frontiers (t ∷ ts) = do
  here ← traverse (partition_frontier t.key) t.partitions
  rest ← topic_frontiers ts
  ok (here ++ rest)

abbrev pub frontier_json : PartitionFrontier → Json
frontier_json f = object (
    field "topic" (text? f.topic) (
      field "partition" (integer f.partition) (
        field "event_count" (integer f.event_count)
          (field "max_applied_offset" (integer? f.max_applied_offset) no_fields))))

abbrev pub applied_offset : PartitionFrontier → AppliedOffset
applied_offset f = record {
  topic = f.topic;
  partition = some f.partition;
  max_applied_offset = f.max_applied_offset;
}

unfoldable pub target_offset_frontier : String → Value → List TopicBucket → Outcome TargetFrontier
unfolding topic_frontiers to_int
target_offset_frontier orders_index total topics = do
  offsets ← topic_frontiers topics
  count ← to_int total
  ok (record {
    available = true;
    applied_offsets = map applied_offset offsets;
    payload = object (
        field "system" (text "opensearch") (
          field "index" (text orders_index) (
            field "offset_recorded_count" (integer count)
              (field "applied_offsets" (list (map frontier_json offsets)) no_fields))));
  })
