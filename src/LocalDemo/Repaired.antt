-- ===== src/LocalDemo/Repaired.antt =====
-- The repair of a drifted index heals it.
use mathlib.Core.Path.{subst}
use kube_data_guard.Common.{
  ◌≡◌, refl, sym, ap, ◌∙◌, inl, inr, true, some, String, List, [], ◌∷◌, map, All, Has, here, there,
  All-append, All-map, All-of_Has, Has-append_left, Has-append_right, Has-map,
}
use kube_data_guard.Python.{
  ok, Value, str_value, Dict, Row, JsonFields, get, sorted_values, sorted_texts,
}
use kube_data_guard.Python.Order.{sorted_values-str, Has-sorted_texts, All-sorted_texts}
use kube_data_guard.Invariants.Report.{MissingItem, StaleItem, DriftReport, healthy}
use kube_data_guard.Invariants.Window.{WindowArgs}
use kube_data_guard.Invariants.Existence.{compare_paid_orders_to_index}
use kube_data_guard.Invariants.Existence.Exact.{
  IsShown, existence_healthy_iff, existence_items, existence_total,
}
use kube_data_guard.Invariants.Existence.Complete.{
  IsListed, listed_missing, listed_stale, existence_complete,
}
use kube_data_guard.LocalDemo.{
  orders_by_id, missing_ids, stale_ids, reported_ids, reindexed, reindex, repair_result,
  repair_index_from_report,
}
use kube_data_guard.LocalDemo.Reindex.{
  IsKeyed, key_of_member, orders_by_id_total, get-orders_by_id, Kept, reindex-Kept, reindex_total,
  IsShown-of_kept, IsShown-of_reindexed,
}

IsText : Value → Type 0
IsText v = (k : String) × (v ≡ str_value k)

texts_of_values : (vs : List Value) → All IsText vs → (ks : List String) × (vs ≡ map str_value ks)
unfolding IsText
texts_of_values [] h = ([], refl)
texts_of_values (v ∷ vs) h =
    let (ks, e) = texts_of_values vs h.1 in
    (h.0.0 ∷ ks, ap (λ w. w ∷ vs) h.0.1 ∙ ap (λ ws. str_value h.0.0 ∷ ws) e)

Has-of_map : (k : String) (ks : List String) → Has (str_value k) (map str_value ks) → Has k ks
Has-of_map k [] m = elim m [ ]
Has-of_map k (j ∷ ks) (here q) = here cc
Has-of_map k (j ∷ ks) (there m) = there (Has-of_map k ks m)

All-mapped :
    {A B : Type 0} (P : B → Type 0) (f : A → B) (xs : List A)
    → ((x : A) → Has x xs → P (f x))
    → All P (map f xs)
All-mapped P f [] h = tt
All-mapped P f (x ∷ xs) h = (h x (here refl), All-mapped P f xs (λ y m. h y (there m)))

All-of_mapped :
    (P : Value → Type 0) (Q : String → Type 0) (ks : List String)
    → All P (map str_value ks)
    → ((k : String) → P (str_value k) → Q k)
    → All Q ks
All-of_mapped P Q [] h f = tt
All-of_mapped P Q (k ∷ ks) h f = (f k h.0, All-of_mapped P Q ks h.1 f)

module _ (args : WindowArgs) (orders : List Row) (drifted : Dict Row) (r : DriftReport)
    (keyed : IsKeyed orders)
    (checked : compare_paid_orders_to_index args orders drifted ≡ ok r) where
  -- The identifier of an order.
  IsKey : Value → Type 0
  IsKey v =
      (k : String) × (v ≡ str_value k)
      × (order : Row) × Has order orders
      × (get "id" order ≡ some v)

  IsKey-of_source : (order : Row) (v : Value) → Has order orders → get "id" order ≡ some v → IsKey v
  unfolding IsKey
  IsKey-of_source order v m i =
      let (k, e) = key_of_member order orders keyed m in
      let same : some v ≡ some (str_value k) = sym i ∙ e in (k, cc, order, m, i)

  reported_ids-IsKey : All IsKey (reported_ids r)
  reported_ids-IsKey =
      All-append IsKey (missing_ids r) (stale_ids r)
        (All-mapped IsKey (λ (m : MissingItem). m.order_id) r.missing
          (λ m h.
            let (i, g, x) = (existence_items args orders drifted r checked).0 m h in
            IsKey-of_source m.source m.order_id i g))
        (All-mapped IsKey (λ (s : StaleItem). s.order_id) r.stale
          (λ s h.
            let (i, g, x, y, z) = (existence_items args orders drifted r checked).1 s h in
            IsKey-of_source s.source s.order_id i g))

  IsText-of_IsKey : (v : Value) → IsKey v → IsText v
  unfolding IsKey IsText
  IsText-of_IsKey v x = (x.0, x.1)

  module _ (ks : List String) (made : reported_ids r ≡ map str_value ks) where
    found_by_key :
        (by_id : Dict Row)
        → orders_by_id orders [] ≡ ok by_id
        → All (λ k. (order : Row) × (get k by_id ≡ some order)) ks
    unfolding IsKey
    found_by_key by_id e =
        All-of_mapped IsKey _ ks (subst (All IsKey) made reported_ids-IsKey) (λ k x.
          let (j, q, order, m, i) = x in
          (order, get-orders_by_id orders [] by_id order k keyed m i e))

    listed-Has : (k : String) → IsListed (str_value k) r → Has k ks
    listed-Has k (listed_missing m h q) = Has-of_map k ks (
        subst (λ vs. Has (str_value k) vs) made
          (Has-append_left (missing_ids r) (stale_ids r) (
            subst (λ v. Has v (missing_ids r)) q
              (Has-map (λ (m : MissingItem). m.order_id) r.missing h))))
    listed-Has k (listed_stale s h q) = Has-of_map k ks (
        subst (λ vs. Has (str_value k) vs) made
          (Has-append_right (missing_ids r) (stale_ids r) (
            subst (λ v. Has v (stale_ids r)) q
              (Has-map (λ (s : StaleItem). s.order_id) r.stale h))))

    IsShown-after :
        (by_id repaired : Dict Row)
        → orders_by_id orders [] ≡ ok by_id
        → reindex by_id (map str_value (sorted_texts ks)) drifted ≡ ok repaired
        → (order : Row) → Has order orders
        → IsShown repaired order
    unfolding Kept
    IsShown-after by_id repaired e p order m =
        let (k, i) = key_of_member order orders keyed m in
        elim (reindex-Kept by_id (sorted_texts ks) drifted repaired k p) [
          | inl (other, q, g) ↦
              let same : some other ≡ some order =
                sym q ∙ get-orders_by_id orders [] by_id order k keyed m i e in
              IsShown-of_reindexed repaired order k i (g ∙ ap (λ o. some (reindexed o)) cc)
          | inr (n, g) ↦
              elim (existence_complete args orders drifted r checked order (str_value k) m i) [
                | inl shown ↦ IsShown-of_kept drifted repaired order k i g shown
                | inr listed ↦ absurd (n (Has-sorted_texts ks (listed-Has k listed)))
              ]
        ]

  -- The repair of the orders that an existence check of an index reported succeeds, and the existence
  -- check of the repaired index succeeds and is healthy, whatever the index held, where every source
  -- order has a text for its identifier and no two have the same.
  pub repair_heals :
      (after : WindowArgs)
      → (repaired : Dict Row) × (payload : JsonFields) × (r' : DriftReport)
        × (repair_index_from_report orders drifted r ≡ ok (repaired, payload))
        × (compare_paid_orders_to_index after orders repaired ≡ ok r')
        × (healthy r' ≡ true)
  unfolding repair_index_from_report
  repair_heals after =
      let (ks, made) =
        texts_of_values (reported_ids r)
          (All-map IsKey IsText (reported_ids r) IsText-of_IsKey reported_ids-IsKey) in
      let (by_id, e) = orders_by_id_total orders [] keyed in
      let (repaired, p) =
        reindex_total by_id (sorted_texts ks) drifted
          (All-sorted_texts _ ks (found_by_key ks made by_id e)) in
      let sorted : sorted_values (reported_ids r) ≡ ok (map str_value (sorted_texts ks)) =
        ap sorted_values made ∙ sorted_values-str ks in
      let (r', c, n) = existence_total after orders repaired (
        All-of_Has _ orders
          (λ order m. let (k, i) = key_of_member order orders keyed m in (str_value k, i))) in
      (
        repaired,
        repair_result (map str_value (sorted_texts ks)) r,
        r',
        rw (e, sorted, p) refl,
        c,
        (existence_healthy_iff after orders repaired r' c).1
            (All-of_Has (IsShown repaired) orders (IsShown-after ks made by_id repaired e p)),
      )
