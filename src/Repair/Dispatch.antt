-- ===== src/Repair/Dispatch.antt =====
-- What the repairs send out.
use kube_data_guard.Common.{◌≡◌, refl, sym, ap, String, List, [], ◌∷◌, ◌++◌, map}
use kube_data_guard.Python.{
  Outcome, ok, ◌>>=◌, >>=-eq-ok, traverse, Value, str_value, Json, items_of_list, list_of_items,
  sorted_texts,
}
use kube_data_guard.Python.Order.{sorted_values-str}
use kube_data_guard.Invariants.Report.{MissingItem, StaleItem, FreshnessItem, DriftReport}
use kube_data_guard.Invariants.Status.{to_dict, missing_json, stale_json, freshness_json}
use kube_data_guard.Repair.{item_order_id, listed_items, repair_order_ids}

pub list_of_list : (js : List Json) → list_of_items (items_of_list js) ≡ js
list_of_list [] = refl
list_of_list (j ∷ js) = ap (λ l. j ∷ l) (list_of_list js)

-- The identifiers of the items that a repair of the report is about.
abbrev pub ids_of_report : DriftReport → List Value
ids_of_report r =
    map (λ (m : MissingItem). m.order_id) r.missing
    ++ (map (λ (s : StaleItem). s.order_id) r.stale
        ++ map (λ (v : FreshnessItem). v.order_id) r.freshness_violations)

traverse-append :
    {A B : Type 0} (f : A → Outcome B) (xs ys : List A) (us vs : List B)
    → traverse f xs ≡ ok us
    → traverse f ys ≡ ok vs
    → traverse f (xs ++ ys) ≡ ok (us ++ vs)
unfolding traverse
traverse-append f [] ys us vs e k = let p : [] ≡ us = cc in rw (sym p) k
traverse-append f (x ∷ xs) ys us vs e k =
    let (u, p, e') = >>=-eq-ok (f x) (λ u. traverse f xs >>= λ ws. ok (u ∷ ws)) e in
    let (ws, q, e'') = >>=-eq-ok (traverse f xs) (λ ws. ok (u ∷ ws)) e' in
    let made : u ∷ ws ≡ us = cc in
    rw (p, traverse-append f xs ys ws vs q k) (ap (λ l. ok (l ++ vs)) made)

-- An item's JSON gives back its identifier.
module _ {A : Type 0} (form : A → Json) (id : A → Value)
    (kept : (x : A) → item_order_id (form x) ≡ ok (id x)) where
  traverse-form : (xs : List A) → traverse item_order_id (map form xs) ≡ ok (map id xs)
  unfolding traverse
  traverse-form [] = refl
  traverse-form (x ∷ xs) = rw (kept x, traverse-form xs) refl

traverse-reported :
    (r : DriftReport)
    → traverse item_order_id (
        map missing_json r.missing
        ++ (map stale_json r.stale ++ map freshness_json r.freshness_violations))
      ≡ ok (ids_of_report r)
unfolding item_order_id
traverse-reported r =
    traverse-append item_order_id (map missing_json r.missing) _ _ _
      (traverse-form missing_json (λ (m : MissingItem). m.order_id) (λ m. refl) r.missing)
      (traverse-append item_order_id (map stale_json r.stale) _ _ _
        (traverse-form stale_json (λ (s : StaleItem). s.order_id) (λ s. refl) r.stale)
        (traverse-form freshness_json (λ (v : FreshnessItem). v.order_id) (λ v. refl)
          r.freshness_violations))

-- The orders that a repair takes from a report's JSON are those of the report's missing, stale and late
-- items, each once and in order, where their identifiers are texts.
pub repair_order_ids-to_dict :
    (r : DriftReport) (ks : List String)
    → ids_of_report r ≡ map str_value ks
    → repair_order_ids (to_dict r) ≡ ok (map str_value (sorted_texts ks))
unfolding repair_order_ids listed_items to_dict
repair_order_ids-to_dict r ks e =
    rw
      (
        list_of_list (map missing_json r.missing),
        list_of_list (map stale_json r.stale),
        list_of_list (map freshness_json r.freshness_violations),
        traverse-reported r,
        e,
      )
      (sorted_values-str ks)
