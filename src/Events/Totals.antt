-- ===== src/Events/Totals.antt =====
-- The numbers of events and of partitions in the range of a topic.
use mathlib.Core.Path.{subst}
use kube_data_guard.Common.{
  ℕ, ◌+◌, ◌-◌, ◌≡◌, refl, sym, ap, ◌∙◌, true, false, Option, none, some, List, [], ◌∷◌, arith,
  if◌then◌else◌, length,
}
use kube_data_guard.Common.Int.{ℤ, pos, pos_part, neg_part, ltb_ℤ, ◌+ℤ◌, ◌-ℤ◌}
use kube_data_guard.Events.{
  TopicAnswer, PartitionRange, insert_number, sorted_numbers, offset_of, range_of, count_between,
  partition_ranges, total_events, offsets_of, topic_offset_range, or_no_partitions,
}

-- A sum over partitions.
unfoldable pub sum_over : (ℤ → ℕ) → List ℤ → ℕ
sum_over f [] = 0
sum_over f (p ∷ ps) = f p + sum_over f ps

sum_over-insert_number :
    (f : ℤ → ℕ) (x : ℤ) (ys : List ℤ) → sum_over f (insert_number x ys) ≡ f x + sum_over f ys
unfolding sum_over
sum_over-insert_number f x [] = refl
sum_over-insert_number f x (y ∷ ys) =
    let rest = sum_over-insert_number f x ys in
    elim (ltb_ℤ y x)
      as (λ b.
        sum_over f (if b then y ∷ insert_number x ys else x ∷ y ∷ ys)
        ≡ f x + (f y + sum_over f ys)) [ true ↦ omega arith | false ↦ refl ]

sum_over-sorted_numbers : (f : ℤ → ℕ) (ps : List ℤ) → sum_over f (sorted_numbers ps) ≡ sum_over f ps
unfolding sum_over
sum_over-sorted_numbers f [] = refl
sum_over-sorted_numbers f (p ∷ ps) =
    sum_over-insert_number f p (sorted_numbers ps)
    ∙ ap (λ n. f p + n) (sum_over-sorted_numbers f ps)

-- How many offsets there are from the first one up to the end, which is one past the last.
abbrev pub width : Option ℤ → Option ℤ → ℕ
width (some s) (some e) = pos_part e + neg_part s - (neg_part e + pos_part s)
width none e = 0
width (some s) none = 0

-- Of a topic's partition: its number of offsets, and whether both of its ends are known.
abbrev pub events_of : TopicAnswer → ℤ → ℕ
events_of a p = width (offset_of p a.beginning_offsets) (offset_of p a.end_offsets)

abbrev pub both : Option ℤ → Option ℤ → ℕ
both (some s) (some e) = 1
both none e = 0
both (some s) none = 0

abbrev pub is_known : TopicAnswer → ℤ → ℕ
is_known a p = both (offset_of p a.beginning_offsets) (offset_of p a.end_offsets)

total_events-range_of :
    (p : ℤ) (start end_offset : Option ℤ) (ranges : List PartitionRange) (n : ℕ)
    → total_events ranges ≡ pos n
    → total_events (range_of p start end_offset ranges) ≡ pos (width start end_offset + n)
unfolding total_events range_of count_between ◌+ℤ◌ ◌-ℤ◌
total_events-range_of p none end_offset ranges n h = h ∙ ap pos (omega arith)
total_events-range_of p (some s) none ranges n h = h ∙ ap pos (omega arith)
total_events-range_of p (some s) (some e) ranges n h =
    ap (λ t. count_between s e +ℤ t) h ∙ ground arith

total_events-sum :
    (a : TopicAnswer) (ps : List ℤ)
    → total_events (partition_ranges a ps) ≡ pos (sum_over (events_of a) ps)
unfolding total_events partition_ranges sum_over
total_events-sum a [] = refl
total_events-sum a (p ∷ ps) =
    total_events-range_of p (offset_of p a.beginning_offsets) (offset_of p a.end_offsets)
      (partition_ranges a ps) (sum_over (events_of a) ps) (total_events-sum a ps)

length-range_of :
    (p : ℤ) (start end_offset : Option ℤ) (ranges : List PartitionRange)
    → length (range_of p start end_offset ranges) ≡ both start end_offset + length ranges
unfolding range_of
length-range_of p none end_offset ranges = omega arith
length-range_of p (some s) none ranges = omega arith
length-range_of p (some s) (some e) ranges = omega arith

length-sum :
    (a : TopicAnswer) (ps : List ℤ) → length (partition_ranges a ps) ≡ sum_over (is_known a) ps
unfolding partition_ranges sum_over
length-sum a [] = refl
length-sum a (p ∷ ps) =
    length-range_of p (offset_of p a.beginning_offsets) (offset_of p a.end_offsets)
      (partition_ranges a ps)
    ∙ ap (λ n. is_known a p + n) (length-sum a ps)

-- Of a topic that has partitions, the range reports as events, over all of its partitions, the offsets from
-- the first one up to the end, none where the end is before or an end is not known, and as partitions
-- those that have both ends known.
pub topic_offset_range-counts :
    (a : TopicAnswer) (p : ℤ) (ps : List ℤ)
    → a.partitions ≡ some (p ∷ ps)
    → ((topic_offset_range a).event_count ≡ some (pos (sum_over (events_of a) (p ∷ ps))))
      × ((topic_offset_range a).partitions ≡ some (pos (sum_over (is_known a) (p ∷ ps))))
unfolding topic_offset_range offsets_of
topic_offset_range-counts a p ps e =
    let listed = sorted_numbers (p ∷ ps) in
    subst
      (λ q.
        ((offsets_of a (or_no_partitions q)).event_count
          ≡ some (pos (sum_over (events_of a) (p ∷ ps))))
        × ((offsets_of a (or_no_partitions q)).partitions
            ≡ some (pos (sum_over (is_known a) (p ∷ ps)))))
      (sym e)
      (
        ap some
            (total_events-sum a listed ∙ ap pos (sum_over-sorted_numbers (events_of a) (p ∷ ps))),
        ap (λ n. some (pos n))
            (length-sum a listed ∙ sum_over-sorted_numbers (is_known a) (p ∷ ps)),
      )
