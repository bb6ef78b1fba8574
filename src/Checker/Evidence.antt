-- ===== src/Checker/Evidence.antt =====
-- What the frontier in a check's report says of the services that the evidence came from.
use kube_data_guard.Common.{◌≡◌, refl, ap, eq_iff, true, Option, none, some, String}
use kube_data_guard.Common.Int.{ℤ}
use kube_data_guard.Python.{Outcome, ok, raise, Json, scalar, str_value, text, find}
use kube_data_guard.Python.Clock.{Instant}
use kube_data_guard.Frontier.{
  Outbox, TargetFrontier, FrontierStatus, bounded, partial, unavailable, status_text,
  frontier_status, build_cdc_frontier, has_text, outbox_available, target_available,
}
use kube_data_guard.Frontier.Steps.{IsBounded, Stream, Held}
use kube_data_guard.Frontier.Bounded.{frontier_bounded_iff}
use kube_data_guard.Events.{TopicAnswer}
use kube_data_guard.Checker.{
  StreamServices, stream_offsets, source_lsn_or_none, outbox_or_error, target_or_error,
  given_or_target, check_positions, build_check_cdc_frontier,
}

abbrev pub Succeeds : {A : Type 0} → Outcome A → Type 0
Succeeds {A} o = (a : A) × (o ≡ ok a)

lsn_Succeeds : (o : Outcome String) → has_text (source_lsn_or_none o) ≡ true → Succeeds o
lsn_Succeeds (ok lsn) h = (lsn, refl)
lsn_Succeeds (raise e) h = absurd (cc h)

outbox_Succeeds :
    (o : Outcome Outbox) → outbox_available (some (outbox_or_error o)) ≡ true → Succeeds o
outbox_Succeeds (ok a) h = (a, refl)
outbox_Succeeds (raise e) h = absurd (cc h)

target_Succeeds :
    (o : Outcome TargetFrontier) → target_available (some (target_or_error o)) ≡ true → Succeeds o
target_Succeeds (ok a) h = (a, refl)
target_Succeeds (raise e) h = absurd (cc h)

offsets_Succeeds :
    (b : Option Outbox) (o : Outcome TopicAnswer)
    → Held b
        (stream_offsets o).event_count
        (stream_offsets o).offset_start
        (stream_offsets o).offset_end
    → Succeeds o
unfolding stream_offsets
offsets_Succeeds b (ok a) h = (a, refl)
offsets_Succeeds b (raise e) h = absurd h

-- The frontier of the target that a check was handed is one that is available; the one of the index,
-- which a check reads where it was handed none, was read without an error.
abbrev pub IsRead : Option TargetFrontier → StreamServices → Type 0
IsRead none s = Succeeds s.target_offset_frontier
IsRead (some t) s = t.available ≡ true

given_IsRead :
    (target_frontier : Option TargetFrontier) (s : StreamServices)
    → target_available (some (given_or_target target_frontier s)) ≡ true
    → IsRead target_frontier s
given_IsRead none s h = target_Succeeds s.target_offset_frontier h
given_IsRead (some t) s h = h

shown_text : Json → String
shown_text (scalar (str_value t)) = t
shown_text _ = ""

bounded_of : (x : FrontierStatus) → text (status_text x) ≡ text "bounded" → x ≡ bounded
unfolding shown_text
bounded_of bounded e = refl
bounded_of partial e = absurd (cc ((eq_iff "partial" "bounded").1 (ap shown_text e)))
bounded_of unavailable e = absurd (cc ((eq_iff "unavailable" "bounded").1 (ap shown_text e)))

-- The frontier that a check puts into its report, with the log position that it read, has the status
-- bounded only where the topic's offsets, the log position and the outbox were all read without an error,
-- and the frontier of the target is available where the check was handed one, as the checks of the cache
-- and of ClickHouse are, and was read from the index without an error where it was not.
pub build_check_cdc_frontier-bounded :
    (s : StreamServices) (max_lag_seconds : ℤ) (source_watermark : Option String)
    (target_read_at : Instant) (target_frontier : Option TargetFrontier)
    → find "status" (
        build_check_cdc_frontier s max_lag_seconds
          (source_lsn_or_none s.current_wal_lsn)
          source_watermark
          target_read_at
          target_frontier)
      ≡ some (text "bounded")
    → Succeeds s.topic_offsets
      × Succeeds s.current_wal_lsn
      × Succeeds (s.outbox_frontier max_lag_seconds)
      × IsRead target_frontier s
unfolding build_check_cdc_frontier build_cdc_frontier check_positions IsBounded Stream find
build_check_cdc_frontier-bounded s max_lag_seconds source_watermark target_read_at target_frontier
      e =
    let c =
      check_positions s max_lag_seconds (source_lsn_or_none s.current_wal_lsn) source_watermark
        target_read_at target_frontier in
    let shown : text (status_text (frontier_status c)) ≡ text "bounded" =
      ap (λ (o : Option Json). elim o [ none ↦ text "bounded" | some j ↦ j ]) e in
    let (l, o, (u, r, held), t, h) =
      (frontier_bounded_iff c).0 (bounded_of (frontier_status c) shown) in
    (
      offsets_Succeeds c.outbox s.topic_offsets held,
      lsn_Succeeds s.current_wal_lsn l,
      outbox_Succeeds (s.outbox_frontier max_lag_seconds) o,
      given_IsRead target_frontier s t,
    )
