-- ===== src/Tests/Topics.antt =====
-- The theorems on the range of a topic and the frontier of the cache, at concrete inputs.
use kube_data_guard.Common.{◌≡◌, Option, refl, none, some, List, [], ◌∷◌, All}
use kube_data_guard.Common.{Has, here, there}
use kube_data_guard.Common.Int.{ℤ, pos}
use kube_data_guard.Python.{int_value, str_value, value_text, Row, put}
use kube_data_guard.Target.CacheOffsets.{given_value, frontier_of, cache_offset_frontier}
use kube_data_guard.Python.{to_int}
use kube_data_guard.Frontier.{TargetFrontier}
use kube_data_guard.Target.CacheOffsets.Greatest.{
  Carries, listed_as, IsAttained, cache_offset_frontier-greatest,
}
use kube_data_guard.Events.{TopicAnswer, offset_of, topic_offset_range}
use kube_data_guard.Events.Range.{AtMost, listed_end, topic_offset_range-covers}
use kube_data_guard.Events.Totals.{sum_over, events_of, is_known, topic_offset_range-counts}

abbrev cached : List (Option Row)
cached =
    some (
      put "dataguard_topic" (str_value "orders.events") (
        put "dataguard_partition" (int_value (pos 0))
          (put "dataguard_offset" (int_value (pos 4)) [])))
    ∷ none
    ∷ []

abbrev cached_frontier : TargetFrontier
cached_frontier = frontier_of "order" (record {
  offsets =
      record {
        topic = "orders.events";
        partition = pos 0;
        event_count = 1;
        max_applied_offset = some (pos 4);
      }
      ∷ [];
  count = 1;
})

abbrev positioned : Row
positioned =
    put "dataguard_topic" (str_value "orders.events") (
      put "dataguard_partition" (int_value (pos 0)) (put "dataguard_offset" (int_value (pos 4)) []))

positioned-Carries : Carries positioned "orders.events" (pos 0) (pos 4)
unfolding given_value put value_text to_int
positioned-Carries = record {
  topic = str_value "orders.events";
  partition = int_value (pos 0);
  offset = int_value (pos 4);
  has_topic = refl;
  has_partition = refl;
  has_offset = refl;
  topic_text = refl;
  partition_number = refl;
  offset_number = refl;
}

cache_offset_frontier-greatest_example :
    ((m : ℤ) × Has (listed_as "orders.events" (pos 0) m) cached_frontier.applied_offsets
      × AtMost (pos 4) m)
    × All (IsAttained cached) cached_frontier.applied_offsets
unfolding cache_offset_frontier put given_value
cache_offset_frontier-greatest_example =
    cache_offset_frontier-greatest "order" cached cached_frontier positioned "orders.events" (pos 0)
      (pos 4) refl (here refl) positioned-Carries

abbrev pub topic : TopicAnswer
topic = record {
  partitions = some (pos 1 ∷ pos 0 ∷ []);
  beginning_offsets = (pos 0, pos 3) ∷ (pos 1, pos 2) ∷ [];
  end_offsets = (pos 0, pos 8) ∷ (pos 1, pos 2) ∷ [];
}

topic_offset_range-covers_example :
    Has (listed_end (pos 0) (pos 8)) (topic_offset_range topic).partition_offsets
    × ((low : ℤ) × ((topic_offset_range topic).offset_start ≡ some low) × AtMost low (pos 3))
    × ((high : ℤ) × ((topic_offset_range topic).offset_end ≡ some high) × AtMost (pos 8) high)
unfolding offset_of
topic_offset_range-covers_example =
    topic_offset_range-covers topic (pos 1 ∷ pos 0 ∷ []) (pos 0) (pos 3) (pos 8) refl
      (there (here refl)) refl refl

topic_offset_range-counts_example :
    ((topic_offset_range topic).event_count
      ≡ some (pos (sum_over (events_of topic) (pos 1 ∷ pos 0 ∷ []))))
    × ((topic_offset_range topic).partitions
        ≡ some (pos (sum_over (is_known topic) (pos 1 ∷ pos 0 ∷ []))))
topic_offset_range-counts_example = topic_offset_range-counts topic (pos 1) (pos 0 ∷ []) refl
