-- ===== src/KubeReport/Candidates.antt =====
-- The repair job repairs from the ConfigMap what it would repair from the report itself.
use kube_data_guard.Common.{
  ◌≡◌, refl, sym, ap, ◌∙◌, ◌==◌, eq_iff, inl, inr, Bool, true, false, none, some, String, List, [],
  ◌∷◌, ◌++◌, map, Bool-cases,
}
use kube_data_guard.Python.{
  Outcome, ok, raise, key_error, type_error, scalar, ◌>>=◌, traverse, Value, Json, JsonFields, item,
  no_fields, field, object, list, items_of_list, list_of_items, find, get_default, index, iterate,
  sorted_values,
}
use kube_data_guard.Repair.{item_order_id, listed_items, repair_order_ids}
use kube_data_guard.Repair.Dispatch.{list_of_list}
use kube_data_guard.KubeReport.{
  is_candidate_key, keep_candidate_keys, compact_items, candidate_items, repair_input,
}

differ : (b : Bool) → b ≡ true → b ≡ false → ⊥
differ b t f = cc

other :
    (k j : String) (v : Json) (d : JsonFields)
    → is_candidate_key k ≡ true
    → is_candidate_key j ≡ false
    → find k (field j v d) ≡ find k d
unfolding find
other k j v d c gone = elim (Bool-cases (j == k)) [
  | inl same ↦
      let jk = (eq_iff j k).0 same in
      let t : is_candidate_key j ≡ true = ap is_candidate_key jk ∙ c in
      absurd (differ (is_candidate_key j) t gone)
  | inr n ↦ rw n refl
]

find-keep_candidate_keys :
    (k : String) (d : JsonFields)
    → is_candidate_key k ≡ true
    → find k (keep_candidate_keys d) ≡ find k d
unfolding find keep_candidate_keys
find-keep_candidate_keys k no_fields c = refl
find-keep_candidate_keys k (field j v d) c = elim (Bool-cases (is_candidate_key j)) [
  | inl kept ↦ rw (keep_candidate_keys, kept) (rw (find-keep_candidate_keys k d c) refl)
  | inr gone ↦
      rw (keep_candidate_keys, gone) (find-keep_candidate_keys k d c ∙ sym (other k j v d c gone))
]

-- The field of that name is a list of dictionaries, or absent.
abbrev pub HasItems : JsonFields → String → Type 0
HasItems payload name =
    (ds : List JsonFields) × (get_default name (list []) payload ≡ list (map object ds))

item_order_id-keep :
    (d : JsonFields) → item_order_id (object (keep_candidate_keys d)) ≡ item_order_id (object d)
unfolding item_order_id index
item_order_id-keep d =
    ap
      (λ o.
        elim o as (λ x. Outcome Json) [ none ↦ raise (key_error "order_id") | some j ↦ ok j ]
        >>= λ j. elim j as (λ x. Outcome Value) [ scalar v ↦ ok v | _ ↦ raise type_error ])
      (find-keep_candidate_keys "order_id" d refl)

traverse-step :
    (x y : Json) (us vs : List Json)
    → item_order_id x ≡ item_order_id y
    → traverse item_order_id us ≡ traverse item_order_id vs
    → traverse item_order_id (x ∷ us) ≡ traverse item_order_id (y ∷ vs)
unfolding traverse
traverse-step x y us vs e k = rw (traverse, e, k) refl

traverse-keep :
    (ds : List JsonFields) (us vs : List Json)
    → traverse item_order_id us ≡ traverse item_order_id vs
    → traverse item_order_id (map object (map keep_candidate_keys ds) ++ us)
      ≡ traverse item_order_id (map object ds ++ vs)
traverse-keep [] us vs e = e
traverse-keep (d ∷ ds) us vs e =
    traverse-step _ _ (map object (map keep_candidate_keys ds) ++ us) (map object ds ++ vs)
      (item_order_id-keep d) (traverse-keep ds us vs e)

traverse-kept :
    (ds : List JsonFields)
    → traverse item_order_id (map object (map keep_candidate_keys ds))
      ≡ traverse item_order_id (map object ds)
traverse-kept [] = refl
traverse-kept (d ∷ ds) = traverse-step _ _ _ _ (item_order_id-keep d) (traverse-kept ds)

compact_items-objects :
    (ds : List JsonFields)
    → compact_items (items_of_list (map object ds))
      ≡ items_of_list (map object (map keep_candidate_keys ds))
unfolding compact_items
compact_items-objects [] = refl
compact_items-objects (d ∷ ds) =
    ap (item (object (keep_candidate_keys d))) (compact_items-objects ds)

-- What a list of candidates is read as.
iterate-candidate_items :
    (j : Json) (ds : List JsonFields)
    → j ≡ list (map object ds)
    → iterate (candidate_items j) ≡ ok (map object (map keep_candidate_keys ds))
unfolding candidate_items iterate
iterate-candidate_items j ds e =
    ap (λ i. iterate (candidate_items i)) e
    ∙ ap (λ i. ok (list_of_items i)) (compact_items-objects ds)
    ∙ ap ok (list_of_list (map object (map keep_candidate_keys ds)))

listed_items-objects :
    (payload : JsonFields) (name : String) (i : HasItems payload name)
    → listed_items payload name ≡ ok (map object i.0)
unfolding listed_items iterate
listed_items-objects payload name (ds, e) = ap iterate e ∙ ap ok (list_of_list (map object ds))

-- The identifiers of three lists that were read.
chained :
    (missing stale freshness : Outcome (List Json)) (ms ss fs : List Json)
    → missing ≡ ok ms
    → stale ≡ ok ss
    → freshness ≡ ok fs
    → (missing >>= λ a.
        stale >>= λ b. freshness >>= λ c. traverse item_order_id (a ++ (b ++ c)) >>= sorted_values)
      ≡ (traverse item_order_id (ms ++ (ss ++ fs)) >>= sorted_values)
chained missing stale freshness ms ss fs a b c = rw (a, b, c) refl

-- Where a report's missing, stale and late items are lists of dictionaries, or absent, the repair input
-- made from the report names the same orders for the repair as the report: the same identifiers in the
-- same order, or the same error.
pub repair_order_ids-repair_input :
    (payload : JsonFields)
    → HasItems payload "missing"
    → HasItems payload "stale"
    → HasItems payload "freshness_violations"
    → repair_order_ids (repair_input payload) ≡ repair_order_ids payload
unfolding repair_order_ids listed_items repair_input
repair_order_ids-repair_input payload m s f =
    chained _ _ _ _ _ _ (iterate-candidate_items _ m.0 m.1) (iterate-candidate_items _ s.0 s.1)
      (iterate-candidate_items _ f.0 f.1)
    ∙ ap (λ t. t >>= sorted_values)
        (traverse-keep m.0 _ _ (traverse-keep s.0 _ _ (traverse-kept f.0)))
    ∙ sym (
        chained _ _ _ _ _ _ (listed_items-objects payload "missing" m)
          (listed_items-objects payload "stale" s)
          (listed_items-objects payload "freshness_violations" f))
