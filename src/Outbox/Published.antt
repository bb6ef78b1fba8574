-- ===== src/Outbox/Published.antt =====
-- What the generator leaves in the outbox, and what the counts of the outbox say of it.
use mathlib.Core.Path.{subst}
use kube_data_guard.Common.{
  ◌≡◌, refl, sym, ap, ◌==◌, eq_refl, ◌⊎◌, inl, inr, true, false, String, List, [], ◌∷◌, ◌++◌, map,
  map-append, All, All-append, Bool-cases,
}
use kube_data_guard.Python.{Outcome, Error, ok, raise, >>=-eq-ok}
use kube_data_guard.Python.Clock.{Instant}
use kube_data_guard.Pipeline.Steps.{Outcome-cases}
use kube_data_guard.Outbox.{
  EventPayload, OutboxEvent, order_event_payload, inserted, Tables, Draw, RecordMetadata, Writers,
  unpublished_event, Inserted, insert_order_with_event, publish_row, mark_event_published,
  Generated, generate_orders, is_published, is_offset_recorded,
}

-- Published, with the topic, the partition and the offset.
abbrev pub IsRecorded : OutboxEvent → Type 0
IsRecorded e = is_offset_recorded e ≡ true

publish_row-IsRecorded :
    (id : String) (now : Instant) (m : RecordMetadata) (e : OutboxEvent)
    → IsRecorded e
    → IsRecorded (publish_row id now m e)
publish_row-IsRecorded id now m e h = elim (Bool-cases (e.event_id == id)) [
  | inl same ↦ rw same refl
  | inr other ↦ rw other h
]

All-published :
    (id : String) (now : Instant) (m : RecordMetadata) (es : List OutboxEvent)
    → All IsRecorded es
    → All IsRecorded (map (publish_row id now m) es)
All-published id now m [] h = tt
All-published id now m (e ∷ es) h =
    (publish_row-IsRecorded id now m e h.0, All-published id now m es h.1)

published_last :
    (w : Writers) (id : String) (payload : EventPayload) (at : Instant) (now : Instant)
    (m : RecordMetadata) (es : List OutboxEvent)
    → All IsRecorded es
    → All IsRecorded (map (publish_row id now m) (es ++ unpublished_event id payload at ∷ []))
published_last w id payload at now m es h =
    subst (λ l. All IsRecorded l)
      (sym (map-append (publish_row id now m) es (unpublished_event id payload at ∷ [])))
      (All-append IsRecorded (map (publish_row id now m) es) _ (All-published id now m es h)
        (rw (eq_refl id) refl, tt))

-- Of the outbox after a run: all events are recorded, but for the last one where the run failed to publish
-- it.
abbrev pub Leaves : List OutboxEvent → Outcome (Unit {0}) → Type 0
Leaves outbox (ok u) = All IsRecorded outbox
Leaves outbox (raise e) =
    All IsRecorded outbox
    ⊎ ((before : List OutboxEvent) × (last : OutboxEvent) × (outbox ≡ before ++ last ∷ [])
        × All IsRecorded before
        × (is_published last ≡ false))

-- An insertion that returned made an event of some payload.
inserted_ok :
    (w : Writers) (draw : Draw) (t : Tables) (i : Inserted)
    → insert_order_with_event w draw t ≡ ok i
    → (payload : EventPayload) × (inserted w draw t payload ≡ i)
unfolding insert_order_with_event
inserted_ok w draw t i e =
    let (payload, p, q) = >>=-eq-ok (order_event_payload (w.new_order draw t)) _ e in (payload, cc)

module _ (w : Writers) (draw : Draw) (draws : List Draw) (generated : List String)
    (t : Tables) where
  pub generate_orders-refused :
      (e : Error)
      → insert_order_with_event w draw t ≡ raise e
      → generate_orders w (draw ∷ draws) generated t
        ≡ record { generated = generated; tables = t; outcome = raise e }
  unfolding generate_orders
  generate_orders-refused e p = rw (generate_orders, p) refl

  pub generate_orders-unsent :
      (i : Inserted) (e : Error)
      → insert_order_with_event w draw t ≡ ok i
      → w.send i.event_id i.payload i.tables ≡ raise e
      → generate_orders w (draw ∷ draws) generated t
        ≡ record { generated = generated; tables = i.tables; outcome = raise e }
  unfolding generate_orders
  generate_orders-unsent i e p q = rw (generate_orders, p, q) refl

  pub generate_orders-sent :
      (i : Inserted) (m : RecordMetadata)
      → insert_order_with_event w draw t ≡ ok i
      → w.send i.event_id i.payload i.tables ≡ ok m
      → generate_orders w (draw ∷ draws) generated t
        ≡ generate_orders w draws
            (generated ++ i.event_id ∷ [])
            (mark_event_published w i.event_id m i.tables)
  unfolding generate_orders
  generate_orders-sent i m p q = rw (generate_orders, p, q) refl

abbrev pub LeavesAfter : Generated → Type 0
LeavesAfter g = Leaves g.tables.outbox g.outcome

-- A run of the generator over an outbox whose events are all published with topic, partition and offset
-- leaves such an outbox where it ends without an error. Where it ends by an error, at most one event, the
-- last, is not published.
pub generate_orders-Leaves :
    (w : Writers) (draws : List Draw) (generated : List String) (t : Tables)
    → All IsRecorded t.outbox
    → LeavesAfter (generate_orders w draws generated t)
unfolding generate_orders mark_event_published
generate_orders-Leaves w [] generated t h = h
generate_orders-Leaves w (draw ∷ draws) generated t h =
    elim (Outcome-cases (insert_order_with_event w draw t)) [
      | inr (e, p) ↦
          subst LeavesAfter (sym (generate_orders-refused w draw draws generated t e p)) (inl h)
      | inl (i, p) ↦
          let (payload, made) = inserted_ok w draw t i p in
          elim (Outcome-cases (w.send i.event_id i.payload i.tables)) [
            | inr (e, q) ↦
                subst LeavesAfter (sym (generate_orders-unsent w draw draws generated t i e p q)) (
                  inr (
                    t.outbox,
                    unpublished_event (w.new_event_id payload t) payload (w.now t),
                    ap (λ (j : Inserted). j.tables.outbox) (sym made),
                    h,
                    refl,
                  ))
            | inl (m, q) ↦
                subst LeavesAfter (sym (generate_orders-sent w draw draws generated t i m p q)) (
                  generate_orders-Leaves w draws (generated ++ i.event_id ∷ [])
                    (mark_event_published w i.event_id m i.tables)
                    (subst
                      (λ (j : Inserted).
                        All IsRecorded
                          (map (publish_row j.event_id (w.now j.tables) m) j.tables.outbox))
                      made
                      (published_last w (w.new_event_id payload t) payload (w.now t)
                        (w.now (inserted w draw t payload).tables) m t.outbox h)))
          ]
    ]
