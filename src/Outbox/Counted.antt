-- ===== src/Outbox/Counted.antt =====
-- The counts of the outbox after the generator.
use mathlib.Core.Path.{subst}
use kube_data_guard.Common.{
  ◌≡◌, refl, sym, ap, inl, inr, arith, ◌&&◌, not, ℕ, suc, ◌+◌, Bool, true, false, String, List, [],
  ◌∷◌, ◌++◌, length, length-append, keep, All, All-map, Bool-cases,
}
use kube_data_guard.Common.Int.{ℤ}
use kube_data_guard.Python.{ok}
use kube_data_guard.Python.Clock.{Instant}
use kube_data_guard.Pipeline.Steps.{Outcome-cases}
use kube_data_guard.Outbox.{
  Tables, Draw, Writers, insert_order_with_event, mark_event_published, Generated, generate_orders,
  is_published, is_offset_recorded, is_eligible, outbox_counts,
}
use kube_data_guard.Outbox.Published.{
  IsRecorded, Leaves, generate_orders-Leaves, generate_orders-refused, generate_orders-unsent,
  generate_orders-sent,
}

module _ {A : Type 0} (p : A → Bool) where
  All-keep : (P : A → Type 0) (xs : List A) → All P xs → All P (keep p xs)
  unfolding keep
  All-keep P [] h = tt
  All-keep P (x ∷ xs) h = elim (Bool-cases (p x)) [
    | inl e ↦ rw (keep, e) (h.0, All-keep P xs h.1)
    | inr e ↦ rw (keep, e) (All-keep P xs h.1)
  ]

  length-keep-All : (xs : List A) → All (λ x. p x ≡ true) xs → length (keep p xs) ≡ length xs
  unfolding keep
  length-keep-All [] h = refl
  length-keep-All (x ∷ xs) h = rw (keep, h.0) (ap suc (length-keep-All xs h.1))

  length-keep-nil : (xs : List A) → All (λ x. p x ≡ false) xs → length (keep p xs) ≡ 0
  unfolding keep
  length-keep-nil [] h = refl
  length-keep-nil (x ∷ xs) h = rw (keep, h.0) (length-keep-nil xs h.1)

first_of : (a b : Bool) → (a && b) ≡ true → a ≡ true
first_of true b e = refl
first_of false b e = cc

-- As many identifiers as orders where the run ended without an error.
abbrev HasAll : ℕ → Generated → Type 0
HasAll n g = g.outcome ≡ ok tt → length g.generated ≡ n

generate_orders-HasAll :
    (w : Writers) (draws : List Draw) (generated : List String) (t : Tables)
    → HasAll (length generated + length draws) (generate_orders w draws generated t)
unfolding generate_orders
generate_orders-HasAll w [] generated t = λ e. omega arith
generate_orders-HasAll w (draw ∷ draws) generated t =
    let n = length generated + length (draw ∷ draws) in
    elim (Outcome-cases (insert_order_with_event w draw t)) [
      | inr (e, p) ↦
          subst (HasAll n) (sym (generate_orders-refused w draw draws generated t e p))
            (λ h. absurd (cc h))
      | inl (i, p) ↦ elim (Outcome-cases (w.send i.event_id i.payload i.tables)) [
        | inr (e, q) ↦
            subst (HasAll n) (sym (generate_orders-unsent w draw draws generated t i e p q))
              (λ h. absurd (cc h))
        | inl (m, q) ↦
            subst (HasAll n) (sym (generate_orders-sent w draw draws generated t i m p q)) (λ h.
              let rest =
                generate_orders-HasAll w draws (generated ++ i.event_id ∷ [])
                  (mark_event_published w i.event_id m i.tables) h in
              omega (arith, rest, length-append generated (i.event_id ∷ [])))
      ]
    ]

-- After a run of the generator without an error, over an outbox whose events are all published with topic,
-- partition and offset, the outbox counts no event as unpublished, and each eligible event as published and
-- as having its offset; the run returns an identifier for each order that it was to make.
pub generate_orders-counts :
    (w : Writers) (draws : List Draw) (t : Tables) (now : Instant) (max_lag_seconds : ℤ)
    → All IsRecorded t.outbox
    → (generate_orders w draws [] t).outcome ≡ ok tt
    → ((outbox_counts now max_lag_seconds (generate_orders w draws [] t).tables).unpublished_count
        ≡ 0)
      × ((outbox_counts now max_lag_seconds (generate_orders w draws [] t).tables).published_count
          ≡ (outbox_counts now max_lag_seconds (generate_orders w draws [] t).tables).event_count)
      × ((outbox_counts now max_lag_seconds
            (generate_orders w draws [] t).tables).offset_recorded_count
          ≡ (outbox_counts now max_lag_seconds (generate_orders w draws [] t).tables).event_count)
      × (length (generate_orders w draws [] t).generated ≡ length draws)
unfolding outbox_counts
generate_orders-counts w draws t now max_lag_seconds h done =
    let g = generate_orders w draws [] t in
    let all : All IsRecorded g.tables.outbox =
      subst (λ o. Leaves g.tables.outbox o) done (generate_orders-Leaves w draws [] t h) in
    let eligible = keep (is_eligible now max_lag_seconds) g.tables.outbox in
    let recorded = All-keep (is_eligible now max_lag_seconds) IsRecorded g.tables.outbox all in
    let published =
      All-map IsRecorded (λ e. is_published e ≡ true) eligible
        (λ e r. first_of (is_published e) _ r) recorded in
    (
      length-keep-nil (λ e. not (is_published e)) eligible
          (All-map (λ e. is_published e ≡ true) (λ e. not (is_published e) ≡ false) eligible
            (λ e r. ap not r) published),
      length-keep-All is_published eligible published,
      length-keep-All is_offset_recorded eligible recorded,
      (let listed = generate_orders-HasAll w draws [] t done in omega (arith, listed)),
    )
