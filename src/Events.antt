-- ===== src/Events.antt =====
-- `topic_offset_range` of src/dataguard/events.py: the range of offsets that a Kafka topic exposes. What
-- the consumer answers is a parameter: the topic's partitions, and the first and the end offset of each.
pub mod Range
pub mod Totals
use kube_data_guard.Common.{
  Bool, true, false, not, ◌&&◌, Option, none, some, List, [], ◌∷◌, length, is_empty, if◌then◌else◌,
}
use kube_data_guard.Common.Int.{ℤ, pos, ◌+ℤ◌, ◌-ℤ◌, ltb_ℤ, eqb_ℤ}
use kube_data_guard.Python.{Json, field, no_fields, object, integer, list}
use kube_data_guard.Frontier.{PartitionOffsets, StreamOffsets}

-- What the consumer knows of a topic; `none` partitions is the answer `None`.
pub record TopicAnswer : Type 0 where
  pub partitions : Option (List ℤ)
  pub beginning_offsets : List (ℤ × ℤ)
  pub end_offsets : List (ℤ × ℤ)

abbrev pub insert_number : ℤ → List ℤ → List ℤ
insert_number x [] = x ∷ []
insert_number x (y ∷ ys) = if ltb_ℤ y x then y ∷ insert_number x ys else x ∷ y ∷ ys

-- `sorted(partitions)`
abbrev pub sorted_numbers : List ℤ → List ℤ
sorted_numbers [] = []
sorted_numbers (x ∷ xs) = insert_number x (sorted_numbers xs)

-- `offsets.get(partition)`
unfoldable pub offset_of : ℤ → List (ℤ × ℤ) → Option ℤ
offset_of partition [] = none
offset_of partition ((p, offset) ∷ offsets) =
    if eqb_ℤ p partition then some offset else offset_of partition offsets

abbrev pub known : Option ℤ → List ℤ → List ℤ
known none offsets = offsets
known (some offset) offsets = offset ∷ offsets

-- `[offsets[item] for item in topic_partitions if item in offsets]`
unfoldable pub offset_values : List (ℤ × ℤ) → List ℤ → List ℤ
unfolding offset_of
offset_values offsets [] = []
offset_values offsets (p ∷ ps) = known (offset_of p offsets) (offset_values offsets ps)

pub record PartitionRange : Type 0 where
  pub partition : ℤ
  pub start : ℤ
  pub end_offset : ℤ
  pub event_count : ℤ

-- `max(0, end - start)`
unfoldable pub count_between : ℤ → ℤ → ℤ
unfolding ◌-ℤ◌
count_between start end_offset =
    let count = end_offset -ℤ start in if ltb_ℤ (pos 0) count then count else pos 0

unfoldable pub range_of : ℤ → Option ℤ → Option ℤ → List PartitionRange → List PartitionRange
unfolding count_between
range_of p (some start) (some end_offset) ranges =
    record {
      partition = p;
      start = start;
      end_offset = end_offset;
      event_count = count_between start end_offset;
    }
    ∷ ranges
range_of p _ _ ranges = ranges

-- The loop over the partitions; one without both offsets is passed over.
unfoldable pub partition_ranges : TopicAnswer → List ℤ → List PartitionRange
unfolding offset_of range_of
partition_ranges a [] = []
partition_ranges a (p ∷ ps) =
    range_of p (offset_of p a.beginning_offsets) (offset_of p a.end_offsets) (partition_ranges a ps)

unfoldable pub total_events : List PartitionRange → ℤ
unfolding ◌+ℤ◌
total_events [] = pos 0
total_events (r ∷ rs) = r.event_count +ℤ total_events rs

abbrev pub lesser : ℤ → Option ℤ → Option ℤ
lesser x none = some x
lesser x (some y) = some (if ltb_ℤ y x then y else x)

abbrev pub greater : ℤ → Option ℤ → Option ℤ
greater x none = some x
greater x (some y) = some (if ltb_ℤ x y then y else x)

-- The least and the greatest of some numbers, `None` where there are none.
unfoldable pub least : List ℤ → Option ℤ
least [] = none
least (x ∷ xs) = lesser x (least xs)

unfoldable pub greatest : List ℤ → Option ℤ
greatest [] = none
greatest (x ∷ xs) = greater x (greatest xs)

abbrev pub range_json : PartitionRange → Json
range_json r = object (
    field "partition" (integer r.partition) (
      field "start" (integer r.start) (
        field "end" (integer r.end_offset)
          (field "event_count" (integer r.event_count) no_fields))))

abbrev pub ranges_json : List PartitionRange → List Json
ranges_json [] = []
ranges_json (r ∷ rs) = range_json r ∷ ranges_json rs

abbrev pub range_ends : List PartitionRange → List PartitionOffsets
range_ends [] = []
range_ends (r ∷ rs) =
    record { partition = some r.partition; end_offset = some r.end_offset } ∷ range_ends rs

-- The answer where the topic has no partitions, which is also that of a failed check of the offsets.
abbrev pub no_offsets : StreamOffsets
no_offsets = record {
  event_count = none;
  offset_start = none;
  offset_end = none;
  partitions = some (pos 0);
  partition_offsets = [];
  payload = list [];
}

unfoldable pub offsets_of : TopicAnswer → List ℤ → StreamOffsets
unfolding offset_values partition_ranges total_events least greatest
offsets_of a [] = no_offsets
offsets_of a (p ∷ ps) =
    let partitions = sorted_numbers (p ∷ ps) in
    let ranges = partition_ranges a partitions in
    record {
      event_count = some (total_events ranges);
      offset_start = least (offset_values a.beginning_offsets partitions);
      offset_end = greatest (offset_values a.end_offsets partitions);
      partitions = some (pos (length ranges));
      partition_offsets = range_ends ranges;
      payload = list (ranges_json ranges);
    }

-- `partitions_for_topic(...) or set()`
abbrev pub or_no_partitions : Option (List ℤ) → List ℤ
or_no_partitions none = []
or_no_partitions (some ps) = ps

unfoldable pub topic_offset_range : TopicAnswer → StreamOffsets
unfolding offsets_of
topic_offset_range a = offsets_of a (or_no_partitions a.partitions)
