-- ===== src/Frontier/Bounded.antt =====
-- When the frontier of a check is bounded, and what it says then.
use kube_data_guard.Common.{
  ◌≡◌, refl, inl, inr, ◌↔◌, Bool, true, false, not, ◌&&◌, Option, none, some, String, List, [], ◌∷◌,
  if◌then◌else◌, arith, Bool-cases,
}
use kube_data_guard.Common.Int.{ℤ, ltb_ℤ}
use kube_data_guard.Frontier.{
  PublishedOffset, Outbox, TargetFrontier, Positions, FrontierStatus, bounded, unavailable,
  Progress, start, has_text, outbox_available, target_available, published_offsets, same_topic,
  check_lsn, check_outbox, check_unpublished, check_recorded, check_stream, check_target,
  check_applied, check_covered, check_published, check_all_published, gather, frontier_status,
  is_absent,
}
use kube_data_guard.Frontier.Steps.{
  check_lsn_iff, check_outbox_iff, check_unpublished_iff, check_recorded_iff, check_target_iff,
  check_stream_iff, check_applied_bounded, undegraded, check-All_bounded, bounded-All, Stream,
  IsBounded,
}

-- No check makes a frontier bounded again.
check_unpublished_kept :
    (o : Option Outbox) (p : Progress)
    → (check_unpublished o p).status ≡ bounded
    → p.status ≡ bounded
unfolding check_unpublished
check_unpublished_kept o p e = ground arith

check_recorded_kept :
    (o : Option Outbox) (p : Progress) → (check_recorded o p).status ≡ bounded → p.status ≡ bounded
unfolding check_recorded
check_recorded_kept o p e = ground arith

check_stream_kept :
    (o : Option Outbox) (count first last : Option ℤ) (p : Progress)
    → (check_stream o count first last p).status ≡ bounded
    → p.status ≡ bounded
unfolding check_stream
check_stream_kept o (some count) (some first) (some last) p e = ground arith
check_stream_kept o none first last p e = absurd cc
check_stream_kept o (some count) none last p e = absurd cc
check_stream_kept o (some count) (some first) none p e = absurd cc

check_applied_kept :
    (t : Option TargetFrontier) (topic : Option String) (partition : Option ℤ) (published : ℤ)
    (p : Progress)
    → (check_applied t topic partition published p).status ≡ bounded
    → p.status ≡ bounded
unfolding check_applied
check_applied_kept t topic partition published p e = elim (Bool-cases (target_available t)) [
  | inl h ↦ (check_applied_bounded t topic partition published h p e).0
  | inr h ↦ (rw h at e)
]

check_covered_kept :
    (t : Option TargetFrontier) (item : PublishedOffset) (last published : Option ℤ) (p : Progress)
    → (check_covered t item last published p).status ≡ bounded
    → p.status ≡ bounded
unfolding check_covered
check_covered_kept t item none published p e = absurd cc
check_covered_kept t item (some l) none p e = absurd cc
check_covered_kept t item (some l) (some n) p e =
    (undegraded (ltb_ℤ n l) _ p (check_applied_kept t item.topic item.partition n _ e)).0

check_published_kept :
    (c : Positions) (item : PublishedOffset) (p : Progress)
    → (check_published c item p).status ≡ bounded
    → p.status ≡ bounded
unfolding check_published
check_published_kept c item p e = elim (Bool-cases (same_topic item.topic (some c.stream_topic))) [
  | inl h ↦ check_covered_kept c.target_frontier item _ _ p (rw h at e)
  | inr h ↦ absurd (cc (rw h at e))
]

check_all_kept :
    (c : Positions) (items : List PublishedOffset) (p : Progress)
    → (check_all_published c items p).status ≡ bounded
    → p.status ≡ bounded
unfolding check_all_published
check_all_kept c [] p e = e
check_all_kept c (item ∷ items) p e =
    check_published_kept c item p (check_all_kept c items (check_published c item p) e)

-- The checks up to that of the stream.
streamed : Positions → Progress
streamed c =
    check_stream c.outbox c.offsets.event_count c.offsets.offset_start c.offsets.offset_end (
      check_recorded c.outbox
        (check_unpublished c.outbox (check_outbox c.outbox (check_lsn c.source_lsn start))))

overridden :
    (logged absent : Bool) (s : FrontierStatus)
    → (s ≡ bounded → logged ≡ true)
    → ((if not logged && absent then unavailable else s) ≡ bounded) ↔ (s ≡ bounded)
overridden true absent s h = ((λ e. e), (λ e. e))
overridden false false s h = ((λ e. e), (λ e. e))
overridden false true s h = ((λ e. absurd cc), (λ e. absurd (cc (h e))))

module _ (c : Positions) where
  abbrev connected : Progress
  connected = check_outbox c.outbox (check_lsn c.source_lsn start)

  abbrev recorded : Progress
  recorded = check_recorded c.outbox (check_unpublished c.outbox connected)

  streamed_bounded :
      (streamed c).status ≡ bounded
      → (has_text c.source_lsn ≡ true) × (outbox_available c.outbox ≡ true) × Stream c
  unfolding streamed Stream
  streamed_bounded e =
      let p4 = check_stream_kept c.outbox _ _ _ recorded e in
      let p3 = check_recorded_kept c.outbox (check_unpublished c.outbox connected) p4 in
      let p2 = check_unpublished_kept c.outbox connected p3 in
      let (p1, o) = (check_outbox_iff c.outbox (check_lsn c.source_lsn start)).0 p2 in
      (
        (((check_lsn_iff c.source_lsn start).0 p1).1),
        o,
        (
          ((check_unpublished_iff c.outbox connected o).0 p3).1,
          ((check_recorded_iff c.outbox (check_unpublished c.outbox connected) o).0 p4).1,
          ((check_stream_iff c.outbox _ _ _ recorded o).0 e).1,
        ),
      )

  bounded_streamed :
      has_text c.source_lsn ≡ true
      → outbox_available c.outbox ≡ true
      → Stream c
      → (streamed c).status ≡ bounded
  unfolding streamed Stream
  bounded_streamed l o (u, r, s) =
      let p1 = (check_lsn_iff c.source_lsn start).1 (refl, l) in
      let p2 = (check_outbox_iff c.outbox (check_lsn c.source_lsn start)).1 (p1, o) in
      let p3 = (check_unpublished_iff c.outbox connected o).1 (p2, u) in
      let p4 = (check_recorded_iff c.outbox (check_unpublished c.outbox connected) o).1 (p3, r) in
      (check_stream_iff c.outbox _ _ _ recorded o).1 (p4, s)

  gather_bounded : (gather c).status ≡ bounded → IsBounded c
  unfolding gather IsBounded streamed
  gather_bounded e =
      let targeted = check_target c.target_frontier (streamed c) in
      let kept = check_all_kept c (published_offsets c.outbox) targeted e in
      let (p, t) = (check_target_iff c.target_frontier (streamed c)).0 kept in
      let (l, o, s) = streamed_bounded p in
      (l, o, s, t, (check-All_bounded c t (published_offsets c.outbox) targeted e).1)

  bounded_gather : IsBounded c → (gather c).status ≡ bounded
  unfolding gather IsBounded streamed
  bounded_gather (l, o, s, t, h) =
      bounded-All c t (published_offsets c.outbox) (check_target c.target_frontier (streamed c))
        ((check_target_iff c.target_frontier (streamed c)).1 (bounded_streamed l o s, t)) h

  -- The frontier of a check is bounded just when the source has a log position, the outbox and the
  -- target's frontier are available, no eligible event is unpublished or lacks its offset, the topic
  -- shows its bounds and holds as many events as the outbox published, and in every partition of the
  -- outbox, which is then of the configured topic, the topic's end lies behind the last published
  -- offset and the target has applied that offset.
  pub frontier_bounded_iff : (frontier_status c ≡ bounded) ↔ IsBounded c
  unfolding frontier_status IsBounded
  frontier_bounded_iff =
      let (f, g) =
        overridden (has_text c.source_lsn)
          (not (outbox_available c.outbox) && is_absent c.offsets.event_count) (gather c).status
          (λ e. (gather_bounded e).0) in
      ((λ e. gather_bounded (f e)), (λ b. g (bounded_gather b)))
