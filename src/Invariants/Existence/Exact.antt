-- ===== src/Invariants/Existence/Exact.antt =====
-- The existence check reports exactly the orders that the index does not show.
use kube_data_guard.Common.{
  ◌≡◌, refl, sym, ap, ◌∙◌, inl, inr, ◌↔◌, true, false, Option, some, none, String, List, [], ◌∷◌,
  length, All, Has, arith, Bool-cases, Option-cases, is_empty, nil_of_is_empty, All-map,
}
use mathlib.Core.Path.{subst}
use kube_data_guard.Common.Int.{pos}
use kube_data_guard.Python.{
  ok, Dict, Row, Value, value_eq, get, require, get-require, require-get, cell, traverse,
  traverse_total, traverse-Yields, >>=-eq-ok, ◌>>=◌,
}
use kube_data_guard.Invariants.Report.{MissingItem, StaleItem, DriftReport, drift_count, healthy}
use kube_data_guard.Invariants.Status.Counts.{healthy_iff}
use kube_data_guard.Invariants.Verdict.{Verdict, agrees, is_missing, is_stale, get_by_id}
use kube_data_guard.Invariants.Verdict.Laws.{
  findings, no_findings-All, All-no_findings, missing-judged, stale-judged,
}
use kube_data_guard.Invariants.Window.{WindowArgs}
use kube_data_guard.Invariants.Existence.{
  order_fields, differing_fields, compare_order_fields, judge_found, judge_order, existence_report,
  compare_paid_orders_to_index,
}

-- The two rows have equal values in each of the fields.
abbrev pub SameFields : Row → Row → List String → Type 0
SameFields source target names =
    All (λ name. value_eq (cell name source) (cell name target) ≡ true) names

pub SameFields-of_nil :
    (source target : Row) (names : List String)
    → differing_fields source target names ≡ []
    → SameFields source target names
unfolding differing_fields
SameFields-of_nil source target [] e = tt
SameFields-of_nil source target (n ∷ ns) e =
    elim (Bool-cases (value_eq (cell n source) (cell n target))) [
      | inl h ↦ (h, SameFields-of_nil source target ns (rw h at e))
      | inr h ↦ absurd (cc (rw h at e))
    ]

pub differing_fields-nil :
    (source target : Row) (names : List String)
    → SameFields source target names
    → differing_fields source target names ≡ []
unfolding differing_fields
differing_fields-nil source target [] h = refl
differing_fields-nil source target (n ∷ ns) h = rw h.0 (differing_fields-nil source target ns h.1)

-- What the invariant asks of one order, told without the check: its identifier finds a document
-- in the index, and the two agree on status, amount, currency and version.
pub record IsShown (indexed : Dict Row) (source : Row) : Type 0 where
  pub order_id : Value
  pub target : Row
  pub identified : get "id" source ≡ some order_id
  pub found : get_by_id order_id indexed ≡ some target
  pub same : SameFields source target order_fields

module _ (indexed : Dict Row) where
  pub IsShown-of_agrees :
      (source : Row) → judge_order indexed source ≡ ok agrees → IsShown indexed source
  unfolding judge_order judge_found compare_order_fields
  IsShown-of_agrees source e =
      let (order_id, p, e') = >>=-eq-ok (require "id" source) _ e in
      elim (Option-cases (get_by_id order_id indexed)) [
        | inl absent ↦ absurd (cc (rw absent at e'))
        | inr (target, present) ↦
            elim (Bool-cases (is_empty (compare_order_fields source target))) [
              | inl equal ↦ record {
                order_id = order_id;
                target = target;
                identified = get-require "id" source p;
                found = present;
                same = SameFields-of_nil source target order_fields (nil_of_is_empty _ equal);
              }
              | inr differ ↦ absurd (cc (rw (present, differ) at e'))
            ]
      ]

  agrees_of_IsShown :
      (source : Row) → IsShown indexed source → judge_order indexed source ≡ ok agrees
  unfolding judge_order judge_found compare_order_fields
  agrees_of_IsShown source s =
      rw
        (
          require-get "id" source s.identified,
          s.found,
          differing_fields-nil source s.target order_fields s.same,
        )
        refl

drift-existence :
    (args : WindowArgs) (orders : List Row) (vs : List Verdict)
    → drift_count (existence_report args orders vs) ≡ findings vs
unfolding existence_report drift_count
drift-existence args orders vs = omega arith

-- Where the check succeeds, its report is healthy exactly when every source order is shown by the
-- index: found under its identifier, with equal status, amount, currency and version.
pub existence_healthy_iff :
    (args : WindowArgs) (orders : List Row) (indexed : Dict Row) (r : DriftReport)
    → compare_paid_orders_to_index args orders indexed ≡ ok r
    → (healthy r ≡ true) ↔ All (IsShown indexed) orders
unfolding compare_paid_orders_to_index
existence_healthy_iff args orders indexed r e =
    let (vs, p, q) =
      >>=-eq-ok (traverse (judge_order indexed) orders) (λ vs. ok (existence_report args orders vs))
        e in
    let made : existence_report args orders vs ≡ r = cc in
    let ys = traverse-Yields (judge_order indexed) orders vs p in
    let count : drift_count r ≡ findings vs =
      ap drift_count (sym made) ∙ drift-existence args orders vs in
    (
      λ h.
          All-map (λ row. judge_order indexed row ≡ ok agrees) (IsShown indexed) orders
            (IsShown-of_agrees indexed)
            (no_findings-All (judge_order indexed) ys (sym count ∙ ((healthy_iff r).0 h).1)),
      λ h. (healthy_iff r).1 (
        ap (λ s. s.check_status) (sym made),
        count
            ∙ All-no_findings (judge_order indexed) ys (
                All-map (IsShown indexed) (λ row. judge_order indexed row ≡ ok agrees) orders
                  (agrees_of_IsShown indexed) h),
      ),
    )

missing_of_found :
    (order_id : Value) (row : Row) (found : Option Row) (m : MissingItem)
    → judge_found order_id row found ≡ is_missing m
    → (m.source ≡ row) × (m.order_id ≡ order_id) × (found ≡ none)
unfolding judge_found
missing_of_found order_id row none m e =
    let p : record {
      order_id = order_id;
      reason = "paid order is absent from the search index";
      bucket = none;
      source = row;
    }
        ≡ m =
      cc in
    (ap (λ k. k.source) (sym p), ap (λ k. k.order_id) (sym p), refl)
missing_of_found order_id row (some target) m e =
    elim (Bool-cases (is_empty (compare_order_fields row target))) [
      | inl h ↦ absurd (cc (rw h at e))
      | inr h ↦ absurd (cc (rw h at e))
    ]

stale_of_found :
    (order_id : Value) (row : Row) (found : Option Row) (s : StaleItem)
    → judge_found order_id row found ≡ is_stale s
    → (s.source ≡ row)
      × (s.order_id ≡ order_id)
      × (found ≡ some s.target)
      × (s.mismatches ≡ compare_order_fields row s.target)
      × (is_empty s.mismatches ≡ false)
unfolding judge_found
stale_of_found order_id row none s e = absurd (cc e)
stale_of_found order_id row (some target) s e =
    elim (Bool-cases (is_empty (compare_order_fields row target))) [
      | inl h ↦ absurd (cc (rw h at e))
      | inr h ↦
          let p : record {
            order_id = order_id;
            reason = "search index document differs from source order";
            bucket = none;
            mismatches = compare_order_fields row target;
            source = row;
            target = target;
          }
              ≡ s =
            let e' = rw h at e in cc e' in
          (
            ap (λ k. k.source) (sym p),
            ap (λ k. k.order_id) (sym p),
            ap (λ k. some k.target) p,
            ap (λ k. k.mismatches) (sym p) ∙ ap (λ k. compare_order_fields row k.target) p,
            ap (λ k. is_empty k.mismatches) (sym p) ∙ h,
          )
    ]

-- The verdict on a row that has an identifier.
pub judge-identified :
    (indexed : Dict Row) (row : Row) (v : Value)
    → get "id" row ≡ some v
    → judge_order indexed row ≡ ok (judge_found v row (get_by_id v indexed))
unfolding judge_order
judge-identified indexed row v e = rw (require-get "id" row e) refl

identified_of_judge :
    (indexed : Dict Row) (row : Row) (w : Verdict)
    → judge_order indexed row ≡ ok w
    → (v : Value) × (get "id" row ≡ some v) × (judge_found v row (get_by_id v indexed) ≡ w)
unfolding judge_order
identified_of_judge indexed row w e =
    let (v, p, q) = >>=-eq-ok (require "id" row) _ e in (v, get-require "id" row p, cc q)

-- The items that the report lists.
pub existence_items :
    (args : WindowArgs) (orders : List Row) (indexed : Dict Row) (r : DriftReport)
    → compare_paid_orders_to_index args orders indexed ≡ ok r
    → ((m : MissingItem)
        → Has m r.missing
        → Has m.source orders
          × (get "id" m.source ≡ some m.order_id)
          × (get_by_id m.order_id indexed ≡ none))
      × ((s : StaleItem)
          → Has s r.stale
          → Has s.source orders
            × (get "id" s.source ≡ some s.order_id)
            × (get_by_id s.order_id indexed ≡ some s.target)
            × (s.mismatches ≡ compare_order_fields s.source s.target)
            × (is_empty s.mismatches ≡ false))
unfolding compare_paid_orders_to_index existence_report
existence_items args orders indexed r e =
    let (vs, p, q) =
      >>=-eq-ok (traverse (judge_order indexed) orders) (λ vs. ok (existence_report args orders vs))
        e in
    let made : existence_report args orders vs ≡ r = cc in
    let ys = traverse-Yields (judge_order indexed) orders vs p in
    (
      λ m h.
          let (row, i, j) =
            missing-judged (judge_order indexed) m ys
              (subst (λ (d : DriftReport). Has m d.missing) (sym made) h) in
          let (v, g, k) = identified_of_judge indexed row (is_missing m) j in
          let (a, b, c) = missing_of_found v row (get_by_id v indexed) m k in
          (subst (λ o. Has o orders) (sym a) i, rw (a, b) g, rw b c),
      λ s h.
          let (row, i, j) =
            stale-judged (judge_order indexed) s ys
              (subst (λ (d : DriftReport). Has s d.stale) (sym made) h) in
          let (v, g, k) = identified_of_judge indexed row (is_stale s) j in
          let (a, b, c, d, f) = stale_of_found v row (get_by_id v indexed) s k in
          (subst (λ o. Has o orders) (sym a) i, rw (a, b) g, rw b c, rw a d, f),
    )

-- An order rightly listed as missing, and one rightly listed as stale.
abbrev pub IsAbsent : List Row → Dict Row → MissingItem → Type 0
IsAbsent orders indexed m =
    Has m.source orders
    × (get "id" m.source ≡ some m.order_id)
    × (get_by_id m.order_id indexed ≡ none)

abbrev pub IsDifferent : List Row → Dict Row → StaleItem → Type 0
IsDifferent orders indexed s =
    Has s.source orders
    × (get "id" s.source ≡ some s.order_id)
    × (get_by_id s.order_id indexed ≡ some s.target)
    × (s.mismatches ≡ compare_order_fields s.source s.target)
    × (is_empty s.mismatches ≡ false)

-- Where every order has an identifier the comparison succeeds, and counts every order as checked.
pub existence_total :
    (args : WindowArgs) (orders : List Row) (indexed : Dict Row)
    → All (λ order. (v : Value) × (get "id" order ≡ some v)) orders
    → (r : DriftReport) × (compare_paid_orders_to_index args orders indexed ≡ ok r)
      × (r.checked_records ≡ pos (length orders))
unfolding compare_paid_orders_to_index existence_report
existence_total args orders indexed h =
    let (vs, e) = traverse_total (judge_order indexed) orders (
      All-map (λ order. (v : Value) × (get "id" order ≡ some v))
        (λ order. (v : Verdict) × (judge_order indexed order ≡ ok v)) orders
        (λ order x.
          (judge_found x.0 order (get_by_id x.0 indexed), judge-identified indexed order x.0 x.1))
        h) in
    (
      existence_report args orders vs,
      ap (λ m. m >>= λ ws. ok (existence_report args orders ws)) e,
      refl,
    )
