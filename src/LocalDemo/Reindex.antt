-- ===== src/LocalDemo/Reindex.antt =====
-- What the steps of the repair leave in an index.
use kube_data_guard.Common.{
  ◌≡◌, ◌≢◌, refl, sym, ap, ◌∙◌, ◌⊎◌, inl, inr, ◌==◌, eq_iff, eq_refl, true, false, none, some,
  String, List, [], ◌∷◌, map, All, Has, here, there, arith, Bool-cases, Option-cases, if◌then◌else◌,
}
use kube_data_guard.Python.{
  ok, Value, str_value, value_eq, Dict, Row, get, put, get-put, value_eq_refl, cell-put_other,
  require-get, cell,
}
use kube_data_guard.Invariants.Verdict.{get_by_id}
use kube_data_guard.Invariants.Existence.{order_fields}
use kube_data_guard.Invariants.Existence.Exact.{SameFields, IsShown}
use kube_data_guard.LocalDemo.{orders_by_id, repaired_at, reindexed, reindex}

-- Every order has a text for its identifier, and no two orders have the same.
pub data IsKeyed : List Row → Type 0 where
  keyed_nil : IsKeyed []
  keyed_cons :
      (k : String) {order : Row} {orders : List Row}
      → get "id" order ≡ some (str_value k)
      → All (λ other. get "id" other ≢ some (str_value k)) orders
      → IsKeyed orders
      → IsKeyed (order ∷ orders)

-- The key of an order with keys.
pub key_of_member :
    (order : Row) (orders : List Row)
    → IsKeyed orders
    → Has order orders
    → (k : String) × (get "id" order ≡ some (str_value k))
key_of_member order _ keyed_nil m = elim m [ ]
key_of_member order _ (keyed_cons k e d r) (here q) = (k, ap (get "id") q ∙ e)
key_of_member order _ (keyed_cons k e d r) (there m) = key_of_member order _ r m

step_by_id :
    (order : Row) (orders : List Row) (k : String) (d : Dict Row)
    → get "id" order ≡ some (str_value k)
    → orders_by_id (order ∷ orders) d ≡ orders_by_id orders (put k order d)
unfolding orders_by_id
step_by_id order orders k d e = rw (require-get "id" order e) refl

pub orders_by_id_total :
    (orders : List Row) (d : Dict Row)
    → IsKeyed orders
    → (by_id : Dict Row) × (orders_by_id orders d ≡ ok by_id)
unfolding orders_by_id
orders_by_id_total [] d keyed_nil = (d, refl)
orders_by_id_total (order ∷ orders) d (keyed_cons k e x r) =
    let (b, p) = orders_by_id_total orders (put k order d) r in
    (b, step_by_id order orders k d e ∙ p)

-- A key that no order has is left as it was,
get-orders_by_id-other :
    (orders : List Row) (d by_id : Dict Row) (k : String)
    → IsKeyed orders
    → All (λ other. get "id" other ≢ some (str_value k)) orders
    → orders_by_id orders d ≡ ok by_id
    → get k by_id ≡ get k d
unfolding orders_by_id
get-orders_by_id-other [] d by_id k keyed_nil h e = let p : d ≡ by_id = cc in ap (get k) (sym p)
get-orders_by_id-other (order ∷ orders) d by_id k (keyed_cons j e x r) h p =
    let other : (j == k) ≡ false = elim (Bool-cases (j == k)) [
      | inl t ↦ absurd (h.0 (e ∙ ap (λ n. some (str_value n)) ((eq_iff j k).0 t)))
      | inr t ↦ t
    ] in
    get-orders_by_id-other orders (put j order d) by_id k r h.1
      (sym (step_by_id order orders j d e) ∙ p)
    ∙ get-put j k order d
    ∙ ap (λ b. if b then some order else get k d) other

-- and each order is found under its key.
pub get-orders_by_id :
    (orders : List Row) (d by_id : Dict Row) (order : Row) (k : String)
    → IsKeyed orders
    → Has order orders
    → get "id" order ≡ some (str_value k)
    → orders_by_id orders d ≡ ok by_id
    → get k by_id ≡ some order
get-orders_by_id _ d by_id order k keyed_nil m i e = elim m [ ]
get-orders_by_id (x ∷ xs) d by_id order k (keyed_cons j e h r) (here q) i p =
    let same : some (str_value j) ≡ some (str_value k) = sym e ∙ ap (get "id") (sym q) ∙ i in
    let jk : j ≡ k = cc in
    ap (λ n. get n by_id) (sym jk)
    ∙ get-orders_by_id-other xs (put j x d) by_id j r h (sym (step_by_id x xs j d e) ∙ p)
    ∙ get-put j j x d
    ∙ ap (λ b. if b then some x else get j d) (eq_refl j)
    ∙ ap some (sym q)
get-orders_by_id (x ∷ xs) d by_id order k (keyed_cons j e h r) (there m) i p =
    get-orders_by_id xs (put j x d) by_id order k r m i (sym (step_by_id x xs j d e) ∙ p)

-- What the repair leaves under a key.
unfoldable pub Kept : Dict Row → List String → Dict Row → Dict Row → String → Type 0
Kept by_id ks index index' k =
    ((order : Row) × (get k by_id ≡ some order) × (get k index' ≡ some (reindexed order)))
    ⊎ ((Has k ks → ⊥) × (get k index' ≡ get k index))

not-Has_cons :
    (j k : String) (ks : List String) → (j == k) ≡ false → (Has k ks → ⊥) → Has k (j ∷ ks) → ⊥
not-Has_cons j k ks t n (here q) = ground (arith, eq_iff j k, q)
not-Has_cons j k ks t n (there m) = n m

reindex-found :
    (by_id : Dict Row) (k : String) (vs : List Value) (index : Dict Row) (order : Row)
    → get k by_id ≡ some order
    → reindex by_id (str_value k ∷ vs) index ≡ reindex by_id vs (put k (reindexed order) index)
unfolding reindex get_by_id
reindex-found by_id k vs index order e = rw (reindex, get_by_id, e) refl

reindex-absent :
    (by_id : Dict Row) (k : String) (vs : List Value) (index index' : Dict Row)
    → get k by_id ≡ none
    → reindex by_id (str_value k ∷ vs) index ≢ ok index'
unfolding reindex get_by_id
reindex-absent by_id k vs index index' e p = cc (rw (reindex, get_by_id, e) at p)

pub reindex-Kept :
    (by_id : Dict Row) (ks : List String) (index index' : Dict Row) (k : String)
    → reindex by_id (map str_value ks) index ≡ ok index'
    → Kept by_id ks index index' k
unfolding reindex Kept
reindex-Kept by_id [] index index' k e =
    let p : index ≡ index' = cc in inr ((λ m. elim m [ ]), ap (get k) (sym p))
reindex-Kept by_id (j ∷ ks) index index' k e = elim (Option-cases (get j by_id)) [
  | inl absent ↦ absurd (reindex-absent by_id j (map str_value ks) index index' absent e)
  | inr (order, present) ↦
      elim (reindex-Kept by_id ks (put j (reindexed order) index) index' k
        (sym (reindex-found by_id j (map str_value ks) index order present) ∙ e)) [
          | inl x ↦ inl x
          | inr (n, g) ↦ elim (Bool-cases (j == k)) [
            | inl t ↦
                let jk = (eq_iff j k).0 t in
                inl (
                  order,
                  ap (λ n. get n by_id) (sym jk) ∙ present,
                  g
                      ∙ get-put j k (reindexed order) index
                      ∙ ap (λ b. if b then some (reindexed order) else get k index) t,
                )
            | inr t ↦ inr (
              (λ m. not-Has_cons j k ks t n m),
              g
                  ∙ get-put j k (reindexed order) index
                  ∙ ap (λ b. if b then some (reindexed order) else get k index) t,
            )
          ]
        ]
]

pub reindex_total :
    (by_id : Dict Row) (ks : List String) (index : Dict Row)
    → All (λ k. (order : Row) × (get k by_id ≡ some order)) ks
    → (index' : Dict Row) × (reindex by_id (map str_value ks) index ≡ ok index')
unfolding reindex
reindex_total by_id [] index h = (index, refl)
reindex_total by_id (k ∷ ks) index h =
    let (order, present) = h.0 in
    let (index', e) = reindex_total by_id ks (put k (reindexed order) index) h.1 in
    (index', reindex-found by_id k (map str_value ks) index order present ∙ e)

cell-reindexed :
    (order : Row) (name : String)
    → ("indexed_at" == name) ≡ false
    → value_eq (cell name order) (cell name (reindexed order)) ≡ true
cell-reindexed order name n =
    ap (λ v. value_eq (cell name order) v)
      (cell-put_other "indexed_at" name (str_value repaired_at) order n)
    ∙ value_eq_refl (cell name order)

-- The time of indexing is none of the fields compared.
reindexed-SameFields : (order : Row) → SameFields order (reindexed order) order_fields
reindexed-SameFields order = (
  cell-reindexed order "status" refl,
  (
    cell-reindexed order "amount_cents" refl,
    (cell-reindexed order "currency" refl, (cell-reindexed order "version" refl, tt)),
  ),
)

pub IsShown-of_kept :
    (index index' : Dict Row) (order : Row) (k : String)
    → get "id" order ≡ some (str_value k)
    → get k index' ≡ get k index
    → IsShown index order
    → IsShown index' order
unfolding get_by_id
IsShown-of_kept index index' order k i g s =
    let same : some s.order_id ≡ some (str_value k) = sym s.identified ∙ i in
    let v : s.order_id ≡ str_value k = cc in
    record {
      order_id = str_value k;
      target = s.target;
      identified = i;
      found = g ∙ ap (λ v. get_by_id v index) (sym v) ∙ s.found;
      same = s.same;
    }

pub IsShown-of_reindexed :
    (index' : Dict Row) (order : Row) (k : String)
    → get "id" order ≡ some (str_value k)
    → get k index' ≡ some (reindexed order)
    → IsShown index' order
unfolding get_by_id
IsShown-of_reindexed index' order k i g = record {
  order_id = str_value k;
  target = reindexed order;
  identified = i;
  found = g;
  same = reindexed-SameFields order;
}
