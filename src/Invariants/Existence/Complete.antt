-- ===== src/Invariants/Existence/Complete.antt =====
-- No order that the index fails to show escapes the existence check.
use mathlib.Core.Path.{subst}
use kube_data_guard.Common.{
  ◌≡◌, refl, ◌⊎◌, inl, inr, Option, some, none, List, Has, Bool-cases, is_empty,
}
use kube_data_guard.Python.{ok, Dict, Row, Value, get, Yields, traverse, traverse-Yields, >>=-eq-ok}
use kube_data_guard.Invariants.Report.{MissingItem, StaleItem, DriftReport}
use kube_data_guard.Invariants.Verdict.{Verdict, agrees, is_missing, is_stale, get_by_id}
use kube_data_guard.Invariants.Verdict.Laws.{missing-listed, stale-listed}
use kube_data_guard.Invariants.Window.{WindowArgs}
use kube_data_guard.Invariants.Existence.{
  compare_order_fields, judge_found, judge_order, existence_report, compare_paid_orders_to_index,
}
use kube_data_guard.Invariants.Existence.Exact.{IsShown, IsShown-of_agrees, judge-identified}

-- The report lists an item with that identifier.
pub data IsListed (v : Value) (r : DriftReport) : Type 0 where
  listed_missing : (m : MissingItem) → Has m r.missing → m.order_id ≡ v → IsListed v r
  listed_stale : (s : StaleItem) → Has s r.stale → s.order_id ≡ v → IsListed v r

-- A verdict on an order with that identifier agrees, or carries it.
data IsOn (v : Value) : Verdict → Type 0 where
  on_agreed : IsOn v agrees
  on_missing : (m : MissingItem) → m.order_id ≡ v → IsOn v (is_missing m)
  on_stale : (s : StaleItem) → s.order_id ≡ v → IsOn v (is_stale s)

judge_found-IsOn : (v : Value) (row : Row) (found : Option Row) → IsOn v (judge_found v row found)
unfolding judge_found
judge_found-IsOn v row none = on_missing _ refl
judge_found-IsOn v row (some target) =
    elim (Bool-cases (is_empty (compare_order_fields row target))) [
      | inl e ↦ rw e on_agreed
      | inr e ↦ rw e (on_stale _ refl)
    ]

IsListed-of_IsOn :
    (args : WindowArgs) (orders : List Row) (indexed : Dict Row) (vs : List Verdict) (row : Row)
    (v : Value) (w : Verdict)
    → Yields (judge_order indexed) orders vs
    → Has row orders
    → judge_order indexed row ≡ ok w
    → IsOn v w
    → IsShown indexed row ⊎ IsListed v (existence_report args orders vs)
unfolding existence_report
IsListed-of_IsOn args orders indexed vs row v agrees ys h e on_agreed =
    inl (IsShown-of_agrees indexed row e)
IsListed-of_IsOn args orders indexed vs row v _ ys h e (on_missing m q) =
    inr (listed_missing m (missing-listed (judge_order indexed) m ys h e) q)
IsListed-of_IsOn args orders indexed vs row v _ ys h e (on_stale s q) =
    inr (listed_stale s (stale-listed (judge_order indexed) s ys h e) q)

-- Every source order with an identifier is shown by the index, or an item of the report's missing or
-- stale orders carries its identifier.
pub existence_complete :
    (args : WindowArgs) (orders : List Row) (indexed : Dict Row) (r : DriftReport)
    → compare_paid_orders_to_index args orders indexed ≡ ok r
    → (row : Row) (v : Value) → Has row orders
    → get "id" row ≡ some v
    → IsShown indexed row ⊎ IsListed v r
unfolding compare_paid_orders_to_index
existence_complete args orders indexed r e row v h i =
    let (vs, p, q) =
      >>=-eq-ok (traverse (judge_order indexed) orders) (λ vs. ok (existence_report args orders vs))
        e in
    let made : existence_report args orders vs ≡ r = cc in
    subst (λ d. IsShown indexed row ⊎ IsListed v d) made
      (IsListed-of_IsOn args orders indexed vs row v (judge_found v row (get_by_id v indexed))
        (traverse-Yields (judge_order indexed) orders vs p) h (judge-identified indexed row v i)
        (judge_found-IsOn v row (get_by_id v indexed)))
