-- ===== src/Invariants/Freshness/Exact.antt =====
-- The freshness check: violations are orders that the view has not observed, and an order observed
-- late is a breach, which is reported and is no drift.
use mathlib.Core.Path.{subst}
use kube_data_guard.Common.{
  ◌+◌, ◌≤◌, ◌≡◌, refl, sym, ap, ◌∙◌, inl, inr, ◌↔◌, true, false, Option, some, none, String, List,
  length, All, arith, Bool-cases, All-map,
}
use kube_data_guard.Common.Int.{ℤ, pos, pos_part, neg_part, ◌-ℤ◌, ltb_ℤ}
use kube_data_guard.Python.{
  Outcome, ok, >>=-eq-ok, traverse, Yields, finish, follow, traverse-Yields, Dict, Row, Value,
  truthy, value_text, get, require, get-require, require-get, cell,
}
use kube_data_guard.Python.Clock.{Instant, parse_time, whole_seconds}
use kube_data_guard.Invariants.Report.{FreshnessItem, DriftReport, drift_count, healthy}
use kube_data_guard.Invariants.Status.Counts.{healthy_iff}
use kube_data_guard.Invariants.Verdict.{get_by_id}
use kube_data_guard.Invariants.Window.{WindowArgs}
use kube_data_guard.Invariants.Freshness.{
  Freshness, in_time, violation, breach, violations, parse_time_value, judge_lag, judge_document,
  judge_freshness, freshness_report, compare_paid_order_freshness,
}

abbrev pub IsTolerable : Freshness → Type 0
IsTolerable (violation v) = ⊥
IsTolerable _ = Unit {0}

abbrev pub IsLate : Freshness → Type 0
IsLate (breach b) = Unit {0}
IsLate _ = ⊥

no_violations-All :
    (judge : Row → Outcome Freshness) {rows : List Row} {fs : List Freshness}
    → Yields judge rows fs
    → length (violations fs) ≡ 0
    → All (λ row. (f : Freshness) × (judge row ≡ ok f) × IsTolerable f) rows
unfolding violations
no_violations-All judge finish e = tt
no_violations-All judge (follow {y = in_time} p rest) e =
    ((in_time, p, tt), no_violations-All judge rest e)
no_violations-All judge (follow {y = breach b} p rest) e =
    ((breach b, p, tt), no_violations-All judge rest e)
no_violations-All judge (follow {y = violation v} p rest) e = absurd (omega arith)

All-no_violations :
    (judge : Row → Outcome Freshness) {rows : List Row} {fs : List Freshness}
    → Yields judge rows fs
    → All (λ row. (f : Freshness) × (judge row ≡ ok f) × IsTolerable f) rows
    → length (violations fs) ≡ 0
unfolding violations
All-no_violations judge finish h = omega arith
All-no_violations judge (follow {y = in_time} p rest) h = All-no_violations judge rest h.1
All-no_violations judge (follow {y = breach b} p rest) h = All-no_violations judge rest h.1
All-no_violations judge (follow {y = violation v} p rest) h =
    let e : h.0.0 ≡ violation v = cc (sym h.0.1 ∙ p) in absurd (subst IsTolerable e h.0.2)

-- Seconds are cut towards zero, so a time less than a whole second before another counts as equal.
abbrev pub IsBeforeSecond : Instant → Instant → Type 0
IsBeforeSecond a b = pos_part a + neg_part b + 1000000 ≤ pos_part b + neg_part a

negative_seconds :
    (a b : Instant) → ltb_ℤ (whole_seconds (a -ℤ b)) (pos 0) ≡ true → IsBeforeSecond a b
unfolding whole_seconds ◌-ℤ◌
negative_seconds a b h = ground arith

not_negative_seconds :
    (a b : Instant) → ltb_ℤ (whole_seconds (a -ℤ b)) (pos 0) ≡ false → ¬ IsBeforeSecond a b
unfolding whole_seconds ◌-ℤ◌
not_negative_seconds a b h = ground arith

-- What the invariant asks of one order: its document in the view tells when it was indexed, and that
-- was not a second or more before the order's last update.
pub record IsObserved (indexed : Dict Row) (source : Row) : Type 0 where
  pub order_id : Value
  pub updated_at : Value
  pub updated : Instant
  pub target : Row
  pub seen : Instant
  pub identified : get "id" source ≡ some order_id
  pub dated : get "updated_at" source ≡ some updated_at
  pub parsed : parse_time_value updated_at ≡ ok updated
  pub found : get_by_id order_id indexed ≡ some target
  pub shown : truthy (cell "indexed_at" target) ≡ true
  pub read : parse_time (value_text (cell "indexed_at" target)) ≡ ok seen
  pub recent : ¬ IsBeforeSecond seen updated

not_tolerable : (f : Freshness) (v : FreshnessItem) → ok (violation v) ≡ ok f → IsTolerable f → ⊥
not_tolerable f v e t = let p : violation v ≡ f = cc in subst IsTolerable (sym p) t

lag-IsTolerable :
    (args : WindowArgs) (order_id updated_at : Value) (text : String) (lag : ℤ)
    → ltb_ℤ lag (pos 0) ≡ false
    → IsTolerable (judge_lag args order_id updated_at text lag)
unfolding judge_lag
lag-IsTolerable args order_id updated_at text lag h =
    rw h (elim (Bool-cases (ltb_ℤ args.max_lag_seconds lag)) [ inl l ↦ rw l tt | inr l ↦ rw l tt ])

-- The part of `IsObserved` that is about the document.
abbrev Shows : Instant → Option Row → Type 0
Shows updated found =
    (target : Row) × (seen : Instant) × (found ≡ some target)
    × (truthy (cell "indexed_at" target) ≡ true)
    × (parse_time (value_text (cell "indexed_at" target)) ≡ ok seen)
    × (¬ IsBeforeSecond seen updated)

module _ (args : WindowArgs) (order_id updated_at : Value) (updated : Instant) where
  Shows-of_document :
      (found : Option Row) (f : Freshness)
      → judge_document args order_id updated_at updated found ≡ ok f
      → IsTolerable f
      → Shows updated found
  unfolding judge_document judge_lag
  Shows-of_document none f e t = absurd (not_tolerable f _ e t)
  Shows-of_document (some target) f e t = elim (Bool-cases (truthy (cell "indexed_at" target))) [
    | inr blank ↦ absurd (not_tolerable f _ (rw blank at e) t)
    | inl shown ↦
        let (seen, p, q) =
          >>=-eq-ok (parse_time (value_text (cell "indexed_at" target)))
            (λ seen. ok (
              judge_lag args order_id updated_at (value_text (cell "indexed_at" target))
                (whole_seconds (seen -ℤ updated))))
            (rw shown at e) in
        elim (Bool-cases (ltb_ℤ (whole_seconds (seen -ℤ updated)) (pos 0))) [
          | inl early ↦ absurd (not_tolerable f _ (rw early at q) t)
          | inr recent ↦ (target, seen, refl, shown, p, not_negative_seconds seen updated recent)
        ]
  ]

  document_of_Shows :
      (found : Option Row)
      → Shows updated found
      → (f : Freshness) × (judge_document args order_id updated_at updated found ≡ ok f)
        × IsTolerable f
  unfolding judge_document
  document_of_Shows found (target, seen, e, shown, read, recent) =
      let lag = whole_seconds (seen -ℤ updated) in
      (
        judge_lag args order_id updated_at (value_text (cell "indexed_at" target)) lag,
        rw (e, shown, read) refl,
        elim (Bool-cases (ltb_ℤ lag (pos 0))) [
          | inl early ↦ absurd (recent (negative_seconds seen updated early))
          | inr late ↦ lag-IsTolerable args order_id updated_at _ lag late
        ],
      )

abbrev Tolerated : WindowArgs → Dict Row → Row → Type 0
Tolerated args indexed source =
    (f : Freshness) × (judge_freshness args indexed source ≡ ok f) × IsTolerable f

module _ (args : WindowArgs) (indexed : Dict Row) where
  IsObserved-of_Tolerated :
      (source : Row) → Tolerated args indexed source → IsObserved indexed source
  unfolding judge_freshness
  IsObserved-of_Tolerated source (f, e, t) =
      let (order_id, p1, e1) = >>=-eq-ok (require "id" source) _ e in
      let (updated_at, p2, e2) = >>=-eq-ok (require "updated_at" source) _ e1 in
      let (updated, p3, e3) = >>=-eq-ok (parse_time_value updated_at) _ e2 in
      let (target, seen, a, b, c, d) =
        Shows-of_document args order_id updated_at updated (get_by_id order_id indexed) f e3 t in
      record {
        order_id = order_id;
        updated_at = updated_at;
        updated = updated;
        target = target;
        seen = seen;
        identified = get-require "id" source p1;
        dated = get-require "updated_at" source p2;
        parsed = p3;
        found = a;
        shown = b;
        read = c;
        recent = d;
      }

  Tolerated-of_IsObserved :
      (source : Row) → IsObserved indexed source → Tolerated args indexed source
  unfolding judge_freshness
  Tolerated-of_IsObserved source o =
      let (f, p, t) =
        document_of_Shows args o.order_id o.updated_at o.updated (get_by_id o.order_id indexed)
          (o.target, o.seen, o.found, o.shown, o.read, o.recent) in
      (
        f,
        rw (require-get "id" source o.identified, require-get "updated_at" source o.dated, o.parsed)
            p,
        t,
      )

drift-freshness :
    (args : WindowArgs) (name guarantee : String) (orders : List Row) (fs : List Freshness)
    → drift_count (freshness_report args name guarantee orders fs) ≡ length (violations fs)
unfolding freshness_report drift_count
drift-freshness args name guarantee orders fs = omega arith

-- Where the freshness check succeeds, its report is healthy exactly when every order has been
-- observed: its document tells when it was indexed, and not a second or more before the update.
-- How late an order was observed plays no part in this.
pub freshness_healthy_iff :
    (args : WindowArgs) (name guarantee : String) (orders : List Row) (indexed : Dict Row)
    (r : DriftReport)
    → compare_paid_order_freshness args name guarantee orders indexed ≡ ok r
    → (healthy r ≡ true) ↔ All (IsObserved indexed) orders
unfolding compare_paid_order_freshness freshness_report
freshness_healthy_iff args name guarantee orders indexed r e =
    let judge = judge_freshness args indexed in
    let report = freshness_report args name guarantee orders in
    let (fs, p, q) = >>=-eq-ok (traverse judge orders) (λ fs. ok (report fs)) e in
    let made : report fs ≡ r = cc in
    let ys = traverse-Yields judge orders fs p in
    let count : drift_count r ≡ length (violations fs) =
      ap drift_count (sym made) ∙ drift-freshness args name guarantee orders fs in
    (
      λ h.
          All-map (Tolerated args indexed) (IsObserved indexed) orders
            (IsObserved-of_Tolerated args indexed)
            (no_violations-All judge ys (sym count ∙ ((healthy_iff r).0 h).1)),
      λ h. (healthy_iff r).1 (
        ap (λ s. s.check_status) (sym made),
        count
            ∙ All-no_violations judge ys (
                All-map (IsObserved indexed) (Tolerated args indexed) orders
                  (Tolerated-of_IsObserved args indexed) h),
      ),
    )
