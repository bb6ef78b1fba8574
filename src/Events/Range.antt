-- ===== src/Events/Range.antt =====
-- What the range of offsets of a topic bounds.
use mathlib.Core.Path.{subst}
use kube_data_guard.Common.{
  ◌≡◌, refl, sym, ap, ◌∙◌, true, false, Option, none, some, List, [], ◌∷◌, arith, if◌then◌else◌,
  Has, here, there,
}
use kube_data_guard.Common.Int.{ℤ, ltb_ℤ}
use kube_data_guard.Events.{
  TopicAnswer, PartitionRange, insert_number, range_ends, sorted_numbers, offset_of, known,
  offset_values, range_of, partition_ranges, least, greatest, lesser, greater, offsets_of,
  topic_offset_range, or_no_partitions,
}
use kube_data_guard.Frontier.{PartitionOffsets}

-- a is at most b.
abbrev pub AtMost : ℤ → ℤ → Type 0
AtMost a b = ltb_ℤ b a ≡ false

pub AtMost-trans : (a b c : ℤ) → AtMost a b → AtMost b c → AtMost a c
AtMost-trans a b c p q = ground arith

pub AtMost-refl : (a : ℤ) → AtMost a a
AtMost-refl a = ground arith

lesser_lem :
    (x : ℤ) (o : Option ℤ)
    → (b : ℤ) × (lesser x o ≡ some b) × AtMost b x × ((z : ℤ) → o ≡ some z → AtMost b z)
lesser_lem x none = (x, refl, AtMost-refl x, λ z e. absurd (cc e))
lesser_lem x (some y) = (
  if ltb_ℤ y x then y else x,
  refl,
  ground arith,
  λ z e. let same : y ≡ z = cc in ground (arith, same),
)

greater_lem :
    (x : ℤ) (o : Option ℤ)
    → (b : ℤ) × (greater x o ≡ some b) × AtMost x b × ((z : ℤ) → o ≡ some z → AtMost z b)
greater_lem x none = (x, refl, AtMost-refl x, λ z e. absurd (cc e))
greater_lem x (some y) = (
  if ltb_ℤ x y then y else x,
  refl,
  ground arith,
  λ z e. let same : y ≡ z = cc in ground (arith, same),
)

least-AtMost : (x : ℤ) (xs : List ℤ) → Has x xs → (a : ℤ) × (least xs ≡ some a) × AtMost a x
unfolding least
least-AtMost x [] h = elim h [ ]
least-AtMost x (y ∷ ys) (here e) = let (b, p, q, r) = lesser_lem y (least ys) in (b, p, rw e q)
least-AtMost x (y ∷ ys) (there h) =
    let (a, e, k) = least-AtMost x ys h in
    let (b, p, q, r) = lesser_lem y (least ys) in (b, p, AtMost-trans b a x (r a e) k)

greatest-AtMost : (x : ℤ) (xs : List ℤ) → Has x xs → (a : ℤ) × (greatest xs ≡ some a) × AtMost x a
unfolding greatest
greatest-AtMost x [] h = elim h [ ]
greatest-AtMost x (y ∷ ys) (here e) =
    let (b, p, q, r) = greater_lem y (greatest ys) in (b, p, rw e q)
greatest-AtMost x (y ∷ ys) (there h) =
    let (a, e, k) = greatest-AtMost x ys h in
    let (b, p, q, r) = greater_lem y (greatest ys) in (b, p, AtMost-trans x a b k (r a e))

Has-known : (o : Option ℤ) {x : ℤ} (xs : List ℤ) → Has x xs → Has x (known o xs)
Has-known none xs h = h
Has-known (some y) xs h = there h

offset_values-Has :
    (offsets : List (ℤ × ℤ)) (p x : ℤ) (ps : List ℤ)
    → offset_of p offsets ≡ some x
    → Has p ps
    → Has x (offset_values offsets ps)
unfolding offset_values
offset_values-Has offsets p x [] e h = elim h [ ]
offset_values-Has offsets p x (q ∷ ps) e (here s) =
    subst (λ o. Has x (known o (offset_values offsets ps)))
      (sym e ∙ ap (λ r. offset_of r offsets) s) (here refl)
offset_values-Has offsets p x (q ∷ ps) e (there h) =
    Has-known (offset_of q offsets) (offset_values offsets ps)
      (offset_values-Has offsets p x ps e h)

range_of-kept :
    (x : PartitionOffsets) (p : ℤ) (start end_offset : Option ℤ) (ranges : List PartitionRange)
    → Has x (range_ends ranges)
    → Has x (range_ends (range_of p start end_offset ranges))
unfolding range_of
range_of-kept x p none end_offset ranges h = h
range_of-kept x p (some s) none ranges h = h
range_of-kept x p (some s) (some e) ranges h = there h

-- The partition is listed with that end.
abbrev pub listed_end : ℤ → ℤ → PartitionOffsets
listed_end p e = record { partition = some p; end_offset = some e }

range_ends-Has :
    (a : TopicAnswer) (p s e : ℤ) (ps : List ℤ)
    → offset_of p a.beginning_offsets ≡ some s
    → offset_of p a.end_offsets ≡ some e
    → Has p ps
    → Has (listed_end p e) (range_ends (partition_ranges a ps))
unfolding partition_ranges range_of
range_ends-Has a p s e [] b f h = elim h [ ]
range_ends-Has a p s e (q ∷ ps) b f (here same) =
    subst
      (λ r. Has (listed_end p e) (
        range_ends (
          range_of r (offset_of r a.beginning_offsets) (offset_of r a.end_offsets)
            (partition_ranges a ps))))
      same (rw (range_of, b, f) (here refl))
range_ends-Has a p s e (q ∷ ps) b f (there h) =
    range_of-kept (listed_end p e) q (offset_of q a.beginning_offsets) (offset_of q a.end_offsets)
      (partition_ranges a ps) (range_ends-Has a p s e ps b f h)

-- `sorted` keeps the partitions, and any sum over them.
insert_number-here : (x : ℤ) (ys : List ℤ) → Has x (insert_number x ys)
insert_number-here x [] = here refl
insert_number-here x (y ∷ ys) =
    let rest = insert_number-here x ys in
    elim (ltb_ℤ y x) as (λ b. Has x (if b then y ∷ insert_number x ys else x ∷ y ∷ ys)) [
      | true ↦ there rest
      | false ↦ here refl
    ]

insert_number-there : (z x : ℤ) (ys : List ℤ) → Has z ys → Has z (insert_number x ys)
insert_number-there z x [] h = elim h [ ]
insert_number-there z x (y ∷ ys) (here e) =
    elim (ltb_ℤ y x) as (λ b. Has z (if b then y ∷ insert_number x ys else x ∷ y ∷ ys)) [
      | true ↦ here e
      | false ↦ there (here e)
    ]
insert_number-there z x (y ∷ ys) (there h) =
    let rest = insert_number-there z x ys h in
    elim (ltb_ℤ y x) as (λ b. Has z (if b then y ∷ insert_number x ys else x ∷ y ∷ ys)) [
      | true ↦ there rest
      | false ↦ there (there h)
    ]

sorted_numbers-Has : (z : ℤ) (ps : List ℤ) → Has z ps → Has z (sorted_numbers ps)
sorted_numbers-Has z [] h = h
sorted_numbers-Has z (p ∷ ps) (here e) =
    subst (λ q. Has q (insert_number p (sorted_numbers ps))) (sym e)
      (insert_number-here p (sorted_numbers ps))
sorted_numbers-Has z (p ∷ ps) (there h) =
    insert_number-there z p (sorted_numbers ps) (sorted_numbers-Has z ps h)

-- Of a topic's partition whose two ends are known, the range of the topic lists it with its end, and
-- reports a first offset that is at most its first one, and a last offset that is at least its end.
pub topic_offset_range-covers :
    (a : TopicAnswer) (ps : List ℤ) (p s e : ℤ)
    → a.partitions ≡ some ps
    → Has p ps
    → offset_of p a.beginning_offsets ≡ some s
    → offset_of p a.end_offsets ≡ some e
    → Has (listed_end p e) (topic_offset_range a).partition_offsets
      × ((low : ℤ) × ((topic_offset_range a).offset_start ≡ some low) × AtMost low s)
      × ((high : ℤ) × ((topic_offset_range a).offset_end ≡ some high) × AtMost e high)
unfolding topic_offset_range offsets_of
topic_offset_range-covers a [] p s e given h b f = elim h [ ]
topic_offset_range-covers a (q ∷ qs) p s e given h b f =
    let ps = q ∷ qs in
    let listed = sorted_numbers ps in
    let among = sorted_numbers-Has p ps h in
    subst
      (λ o.
        Has (listed_end p e) (offsets_of a (or_no_partitions o)).partition_offsets
        × ((low : ℤ) × ((offsets_of a (or_no_partitions o)).offset_start ≡ some low) × AtMost low s)
        × ((high : ℤ) × ((offsets_of a (or_no_partitions o)).offset_end ≡ some high)
            × AtMost e high))
      (sym given)
      (
        range_ends-Has a p s e listed b f among,
        least-AtMost s (offset_values a.beginning_offsets listed)
            (offset_values-Has a.beginning_offsets p s listed b among),
        greatest-AtMost e (offset_values a.end_offsets listed)
            (offset_values-Has a.end_offsets p e listed f among),
      )
