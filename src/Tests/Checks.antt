-- ===== src/Tests/Checks.antt =====
-- The theorems on the checks at concrete inputs.
use kube_data_guard.Common.{◌≡◌, refl, ◌↔◌, ◌⊎◌, true, none, some, [], ◌∷◌, All, here, there}
use kube_data_guard.Common.Int.{pos}
use kube_data_guard.Python.{ok, str_value, int_value, get, Row}
use kube_data_guard.Invariants.Report.{healthy, check_complete}
use kube_data_guard.Invariants.Existence.{compare_paid_orders_to_index}
use kube_data_guard.Invariants.Existence.Exact.{IsShown, existence_healthy_iff}
use kube_data_guard.Invariants.Existence.Complete.{IsListed, existence_complete}
use kube_data_guard.Invariants.Query.{QueryArgs, compare_query_results}
use kube_data_guard.Invariants.Query.Exact.{IsMatched, query_healthy_iff}
use kube_data_guard.Invariants.Freshness.{
  Freshness, breach, freshness_item, freshness_report, compare_paid_order_freshness,
}
use kube_data_guard.Invariants.Freshness.Exact.{IsObserved, freshness_healthy_iff}
use kube_data_guard.Tests.{order, orders, index, args, report}

compared : compare_paid_orders_to_index args orders index ≡ ok report
unfolding compare_paid_orders_to_index
compared = refl

existence_healthy_iff_example : (healthy report ≡ true) ↔ All (IsShown index) orders
existence_healthy_iff_example = existence_healthy_iff args orders index report compared

existence_complete_example : IsShown index (order "b" "paid") ⊎ IsListed (str_value "b") report
unfolding get
existence_complete_example =
    existence_complete args orders index report compared (order "b" "paid") (str_value "b")
      (there (here refl)) refl

abbrev query : QueryArgs
query = record {
  invariant_name = "orders-match";
  key_field = "id";
  compare_fields = "status" ∷ [];
  guarantee = "existence+fieldEquality";
  source_scan = none;
  check_status = check_complete;
}

query_healthy_iff_example :
    (healthy (compare_query_results args query orders (order "b" "open" ∷ order "a" "paid" ∷ []))
      ≡ true)
    ↔ ((query.check_status ≡ check_complete)
        × All
            (IsMatched query.key_field query.compare_fields
              (order "b" "open" ∷ order "a" "paid" ∷ []))
            orders)
query_healthy_iff_example =
    query_healthy_iff args query orders (order "b" "open" ∷ order "a" "paid" ∷ [])

abbrev summary : Row
summary = ("count", int_value (pos 2)) ∷ ("total_amount_cents", int_value (pos 900)) ∷ []

abbrev other_summary : Row
other_summary = ("count", int_value (pos 2)) ∷ ("total_amount_cents", str_value "800") ∷ []

-- The document was indexed two seconds after the update, and one is allowed.
abbrev late : Freshness
late = breach (
    freshness_item args (str_value "a") (str_value "2026-06-12T11:55:00+00:00")
      "derived view observed the update after the bounded freshness SLO"
      (some "2026-06-12T11:55:02+00:00") (some (pos 2)))

freshness_healthy_iff_example :
    (healthy (
        freshness_report args "paid-orders-freshness" "boundedFreshness"
          (order "a" "paid" ∷ [])
          (late ∷ []))
      ≡ true)
    ↔ All (IsObserved index) (order "a" "paid" ∷ [])
unfolding compare_paid_order_freshness
freshness_healthy_iff_example =
    freshness_healthy_iff args "paid-orders-freshness" "boundedFreshness" (order "a" "paid" ∷ [])
      index
      (freshness_report args "paid-orders-freshness" "boundedFreshness" (order "a" "paid" ∷ [])
        (late ∷ []))
      refl
