-- ===== src/Target/CacheOffsets.antt =====
-- The frontier of the offsets in the cache, `target_offset_frontier` of src/dataguard/cache.py. What
-- Redis answers is a list with the document of each key of the scan, `none` where it has no value.
pub mod Counted
pub mod Reaches
pub mod Greatest
use kube_data_guard.Common.{
  ℕ, suc, ◌==◌, Bool, true, false, ◌&&◌, Option, none, some, String, List, [], ◌∷◌, map,
  if◌then◌else◌,
}
use kube_data_guard.Common.Int.{ℤ, ltb_ℤ, eqb_ℤ}
use kube_data_guard.Python.{
  Outcome, ok, ◌>>=◌, Value, none_value, bool_value, int_value, str_value, value_text, to_int, Row,
  get, Json, object, field, no_fields, list, number, integer, integer?, text,
}
use kube_data_guard.Frontier.{AppliedOffset, TargetFrontier}

pub record AppliedPosition : Type 0 where
  pub topic : String
  pub partition : ℤ
  pub event_count : ℕ
  pub max_applied_offset : Option ℤ

-- The variables `offsets`, whose items carry their keys, and `count`.
pub record Offsets : Type 0 where
  pub offsets : List AppliedPosition
  pub count : ℕ

abbrev pub none_applied : Offsets
none_applied = record { offsets = []; count = 0 }

abbrev pub greater_offset : ℤ → Option ℤ → ℤ
greater_offset offset none = offset
greater_offset offset (some most) = if ltb_ℤ most offset then offset else most

abbrev pub apply_offset : ℤ → AppliedPosition → AppliedPosition
apply_offset offset a = record a {
  event_count = suc a.event_count;
  max_applied_offset = some (greater_offset offset a.max_applied_offset);
}

abbrev pub is_key : String → ℤ → AppliedPosition → Bool
is_key topic partition a = a.topic == topic && eqb_ℤ a.partition partition

-- `offsets.setdefault` with the two updates of `current`.
unfoldable pub record_offset : String → ℤ → ℤ → List AppliedPosition → List AppliedPosition
record_offset topic partition offset [] =
    apply_offset offset
      (record { topic = topic; partition = partition; event_count = 0; max_applied_offset = none })
    ∷ []
record_offset topic partition offset (a ∷ xs) =
    let rest = record_offset topic partition offset xs in
    if is_key topic partition a then apply_offset offset a ∷ xs else a ∷ rest

-- `document.get(name)`, where `None` is a missing value.
unfoldable pub present : Value → Option Value
present none_value = none
present (bool_value b) = some (bool_value b)
present (int_value i) = some (int_value i)
present (str_value t) = some (str_value t)

unfoldable pub given_value : String → Row → Option Value
unfolding get present
given_value name d = elim (get name d) [ none ↦ none | some v ↦ present v ]

unfoldable pub record_position : Value → Value → Value → Offsets → Outcome Offsets
unfolding to_int value_text record_offset
record_position topic partition offset s = do
  p ← to_int partition
  o ← to_int offset
  ok (record { offsets = record_offset (value_text topic) p o s.offsets; count = suc s.count })

-- Where the topic, the partition or the offset is `None`, the document does not count.
unfoldable pub record_given : Option Value → Option Value → Option Value → Offsets → Outcome Offsets
unfolding record_position
record_given (some topic) (some partition) (some offset) s =
    record_position topic partition offset s
record_given none partition offset s = ok s
record_given (some topic) none offset s = ok s
record_given (some topic) (some partition) none s = ok s

unfoldable pub record_document : Option Row → Offsets → Outcome Offsets
unfolding given_value record_given
record_document none s = ok s
record_document (some d) s =
    record_given (given_value "dataguard_topic" d) (given_value "dataguard_partition" d)
      (given_value "dataguard_offset" d) s

unfoldable pub record_documents : List (Option Row) → Offsets → Outcome Offsets
unfolding record_document
record_documents [] s = ok s
record_documents (d ∷ ds) s = record_document d s >>= record_documents ds

abbrev pub applied_json : AppliedPosition → Json
applied_json a = object (
    field "topic" (text a.topic) (
      field "partition" (integer a.partition) (
        field "event_count" (number a.event_count)
          (field "max_applied_offset" (integer? a.max_applied_offset) no_fields))))

abbrev pub listed_offset : AppliedPosition → AppliedOffset
listed_offset a = record {
  topic = some a.topic;
  partition = some a.partition;
  max_applied_offset = a.max_applied_offset;
}

abbrev pub frontier_of : String → Offsets → TargetFrontier
frontier_of order_cache_prefix s = record {
  available = true;
  applied_offsets = map listed_offset s.offsets;
  payload = object (
      field "system" (text "redis") (
        field "key_prefix" (text order_cache_prefix) (
          field "offset_recorded_count" (number s.count)
            (field "applied_offsets" (list (map applied_json s.offsets)) no_fields))));
}

unfoldable pub cache_offset_frontier : String → List (Option Row) → Outcome TargetFrontier
unfolding record_documents
cache_offset_frontier order_cache_prefix documents =
    record_documents documents none_applied >>= λ s. ok (frontier_of order_cache_prefix s)
