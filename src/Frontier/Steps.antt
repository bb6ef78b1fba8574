-- ===== src/Frontier/Steps.antt =====
-- What each check of the frontier does to its status.
use kube_data_guard.Common.{
  ◌+◌, ◌≤◌, ◌<◌, ◌≡◌, refl, inl, inr, ◌↔◌, Bool, true, false, Option, none, some, String, List, [],
  ◌∷◌, if◌then◌else◌, arith, All, Bool-cases, Option-cases,
}
use kube_data_guard.Common.Int.{ℤ, pos, pos_part, neg_part, ltb_ℤ}
use kube_data_guard.Frontier.{
  PublishedOffset, Outbox, TargetFrontier, Positions, bounded, Progress, degrade, has_text,
  outbox_available, target_available, published_count, unpublished_count, offset_recorded_count,
  published_offsets, applied_offsets, same_topic, end_of, applied_of, check_lsn, check_outbox,
  check_unpublished, check_recorded, check_stream, check_target, check_applied, check_covered,
  check_published, check_all_published,
}

infix 50 ◌≤ℤ◌ ◌<ℤ◌
abbrev pub ◌≤ℤ◌ : ℤ → ℤ → Type 0
a ≤ℤ b = pos_part a + neg_part b ≤ pos_part b + neg_part a

abbrev pub ◌<ℤ◌ : ℤ → ℤ → Type 0
a <ℤ b = pos_part a + neg_part b < pos_part b + neg_part a

pub check_lsn_iff :
    (lsn : Option String) (p : Progress)
    → ((check_lsn lsn p).status ≡ bounded) ↔ ((p.status ≡ bounded) × (has_text lsn ≡ true))
unfolding check_lsn
check_lsn_iff lsn p = elim (Bool-cases (has_text lsn)) [
  | inl h ↦ rw h (ground arith)
  | inr h ↦ rw h (ground arith)
]

pub check_outbox_iff :
    (o : Option Outbox) (p : Progress)
    → ((check_outbox o p).status ≡ bounded) ↔ ((p.status ≡ bounded) × (outbox_available o ≡ true))
unfolding check_outbox
check_outbox_iff o p = ground arith

pub check_unpublished_iff :
    (o : Option Outbox) (p : Progress)
    → outbox_available o ≡ true
    → ((check_unpublished o p).status ≡ bounded)
      ↔ ((p.status ≡ bounded) × (unpublished_count o ≤ℤ pos 0))
unfolding check_unpublished
check_unpublished_iff o p h = rw h (ground arith)

pub check_recorded_iff :
    (o : Option Outbox) (p : Progress)
    → outbox_available o ≡ true
    → ((check_recorded o p).status ≡ bounded)
      ↔ ((p.status ≡ bounded) × (published_count o ≤ℤ offset_recorded_count o))
unfolding check_recorded
check_recorded_iff o p h = rw h (ground arith)

pub check_target_iff :
    (t : Option TargetFrontier) (p : Progress)
    → ((check_target t p).status ≡ bounded) ↔ ((p.status ≡ bounded) × (target_available t ≡ true))
unfolding check_target
check_target_iff t p = ground arith

abbrev pub Held : Option Outbox → Option ℤ → Option ℤ → Option ℤ → Type 0
Held o (some count) (some first) (some last) = published_count o ≤ℤ count
Held o _ _ _ = ⊥

pub check_stream_iff :
    (o : Option Outbox) (count first last : Option ℤ) (p : Progress)
    → outbox_available o ≡ true
    → ((check_stream o count first last p).status ≡ bounded)
      ↔ ((p.status ≡ bounded) × Held o count first last)
unfolding check_stream
check_stream_iff o (some count) (some first) (some last) p h = rw h (ground arith)
check_stream_iff o none first last p h = ground arith
check_stream_iff o (some count) none last p h = ground arith
check_stream_iff o (some count) (some first) none p h = ground arith

abbrev Applied : Option TargetFrontier → Option String → Option ℤ → ℤ → Type 0
Applied t topic partition published =
    (applied : ℤ) × (applied_of topic partition (applied_offsets t) none ≡ some applied)
    × (published ≤ℤ applied)

module _ (t : Option TargetFrontier) (topic : Option String) (partition : Option ℤ) (published : ℤ)
    (available : target_available t ≡ true) where
  pub check_applied_bounded :
      (p : Progress)
      → (check_applied t topic partition published p).status ≡ bounded
      → (p.status ≡ bounded) × Applied t topic partition published
  unfolding check_applied
  check_applied_bounded p e =
      elim (Option-cases (applied_of topic partition (applied_offsets t) none)) [
        | inl h ↦ absurd (cc (rw (available, h) at e))
        | inr (a, h) ↦ elim (Bool-cases (ltb_ℤ a published)) [
          | inl l ↦ absurd (cc (rw (available, h, l) at e))
          | inr l ↦ ((rw (available, h, l) at e), (a, h, ground arith))
        ]
      ]

  bounded-Applied :
      (p : Progress)
      → p.status ≡ bounded
      → Applied t topic partition published
      → (check_applied t topic partition published p).status ≡ bounded
  unfolding check_applied
  bounded-Applied p e (a, h, l) = rw (available, h) (ground arith)

-- One partition, as `check_covered` finds it.
abbrev Reaches : Option TargetFrontier → PublishedOffset → Option ℤ → Option ℤ → Type 0
Reaches t item (some end_offset) (some published) =
    (published <ℤ end_offset) × Applied t item.topic item.partition published
Reaches t item _ _ = ⊥

below : (a b : ℤ) → ltb_ℤ a b ≡ true → a <ℤ b
below a b h = ground arith

pub undegraded :
    (test : Bool) (reason : String) (p : Progress)
    → (if test then p else degrade reason p).status ≡ bounded
    → (p.status ≡ bounded) × (test ≡ true)
undegraded true reason p e = (e, refl)
undegraded false reason p e = absurd cc

module _ (t : Option TargetFrontier) (item : PublishedOffset)
    (available : target_available t ≡ true) where
  check_covered_bounded :
      (last published : Option ℤ) (p : Progress)
      → (check_covered t item last published p).status ≡ bounded
      → (p.status ≡ bounded) × Reaches t item last published
  unfolding check_covered
  check_covered_bounded none published p e = absurd cc
  check_covered_bounded (some l) none p e = absurd cc
  check_covered_bounded (some l) (some n) p e =
      let (b, a) = check_applied_bounded t item.topic item.partition n available _ e in
      let (b', h) = undegraded (ltb_ℤ n l) _ p b in (b', (below n l h, a))

  bounded_covered :
      (last published : Option ℤ) (p : Progress)
      → p.status ≡ bounded
      → Reaches t item last published
      → (check_covered t item last published p).status ≡ bounded
  unfolding check_covered
  bounded_covered none published p b r = elim r [ ]
  bounded_covered (some l) none p b r = elim r [ ]
  bounded_covered (some l) (some n) p b r =
      bounded-Applied t item.topic item.partition n available _ (ground (arith, r.0, b)) r.1

-- What a bounded frontier says of one partition of the outbox: the events published to it are of the
-- configured topic, the topic's end lies behind the last of them, and the target has applied it.
abbrev IsCovered : Positions → PublishedOffset → Type 0
IsCovered c item =
    (same_topic item.topic (some c.stream_topic) ≡ true)
    × Reaches c.target_frontier item (end_of item.partition c.offsets.partition_offsets none)
        item.max_published_offset

module _ (c : Positions) (available : target_available c.target_frontier ≡ true) where
  check_published_bounded :
      (item : PublishedOffset) (p : Progress)
      → (check_published c item p).status ≡ bounded
      → (p.status ≡ bounded) × IsCovered c item
  unfolding check_published
  check_published_bounded item p e =
      elim (Bool-cases (same_topic item.topic (some c.stream_topic))) [
        | inl h ↦
            let (b, r) = check_covered_bounded c.target_frontier item available _ _ p (rw h at e) in
            (b, (h, r))
        | inr h ↦ absurd (cc (rw h at e))
      ]

  bounded_published :
      (item : PublishedOffset) (p : Progress)
      → p.status ≡ bounded
      → IsCovered c item
      → (check_published c item p).status ≡ bounded
  unfolding check_published
  bounded_published item p b (h, r) =
      rw h (bounded_covered c.target_frontier item available _ _ p b r)

  pub check-All_bounded :
      (items : List PublishedOffset) (p : Progress)
      → (check_all_published c items p).status ≡ bounded
      → (p.status ≡ bounded) × All (IsCovered c) items
  unfolding check_all_published
  check-All_bounded [] p e = (e, tt)
  check-All_bounded (item ∷ items) p e =
      let (b, rest) = check-All_bounded items (check_published c item p) e in
      let (b', i) = check_published_bounded item p b in (b', (i, rest))

  pub bounded-All :
      (items : List PublishedOffset) (p : Progress)
      → p.status ≡ bounded
      → All (IsCovered c) items
      → (check_all_published c items p).status ≡ bounded
  unfolding check_all_published
  bounded-All [] p b h = b
  bounded-All (item ∷ items) p b h =
      bounded-All items (check_published c item p) (bounded_published item p b h.0) h.1

unfoldable pub Stream : Positions → Type 0
Stream c =
    (unpublished_count c.outbox ≤ℤ pos 0)
    × (published_count c.outbox ≤ℤ offset_recorded_count c.outbox)
    × Held c.outbox c.offsets.event_count c.offsets.offset_start c.offsets.offset_end

unfoldable pub IsBounded : Positions → Type 0
IsBounded c =
    (has_text c.source_lsn ≡ true)
    × (outbox_available c.outbox ≡ true)
    × Stream c
    × (target_available c.target_frontier ≡ true)
    × All (IsCovered c) (published_offsets c.outbox)
