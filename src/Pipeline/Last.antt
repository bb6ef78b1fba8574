-- ===== src/Pipeline/Last.antt =====
-- The last event for an order among the consumed messages, and the document that it leaves.
use kube_data_guard.Common.{
  ℕ, suc, ◌≡◌, refl, ap, ◌∙◌, ◌==◌, inl, inr, true, false, none, some, String, List, [], ◌∷◌, ◌++◌,
  All, Bool-cases, if◌then◌else◌,
}
use kube_data_guard.Python.{str_value, value_eq, value_eq_refl, cell-put_other, Row, get, cell}
use kube_data_guard.Target.{EventMetadata, index_document}
use kube_data_guard.Invariants.Existence.{order_fields}
use kube_data_guard.Invariants.Existence.Exact.{SameFields}
use kube_data_guard.Pipeline.{Message, is_paid}
use kube_data_guard.Pipeline.Overwritten.{View, delivered, overwritten}
use kube_data_guard.Pipeline.Latest.{order_id_of}

-- The order is what the last event for it in the messages carries.
pub record IsLast (messages : List Message) (order : Row) : Type 0 where
  pub key : String
  pub before : List Message
  pub event : Message
  pub after : List Message
  pub identified : get "id" order ≡ some (str_value key)
  pub split : messages ≡ before ++ event ∷ after
  pub carried : event.order ≡ order
  pub last : All (λ m. (order_id_of m == key) ≡ false) after

pub delivered_all : (seen : ℕ) (ms : List Message) → delivered none seen ms ≡ ms
unfolding delivered
delivered_all seen [] = refl
delivered_all seen (m ∷ ms) = elim (Bool-cases (is_paid m)) [
  | inl e ↦ rw (delivered, e) (ap (λ l. m ∷ l) (delivered_all (suc seen) ms))
  | inr e ↦ rw (delivered, e) (ap (λ l. m ∷ l) (delivered_all seen ms))
]

module _ (document_of : Message → Row) where
  overwritten_other :
      (k : String) (ms : List Message) (v : View)
      → All (λ m. (order_id_of m == k) ≡ false) ms
      → overwritten order_id_of document_of ms v k ≡ v k
  unfolding overwritten
  overwritten_other k [] v h = refl
  overwritten_other k (m ∷ ms) v h =
      overwritten_other k ms _ h.1 ∙ ap (λ b. if b then some (document_of m) else v k) h.0

  pub overwritten_last :
      (k : String) (before : List Message) (m : Message) (after : List Message) (v : View)
      → (order_id_of m == k) ≡ true
      → All (λ n. (order_id_of n == k) ≡ false) after
      → overwritten order_id_of document_of (before ++ m ∷ after) v k ≡ some (document_of m)
  unfolding overwritten
  overwritten_last k [] m after v e h =
      overwritten_other k after _ h ∙ ap (λ b. if b then some (document_of m) else v k) e
  overwritten_last k (n ∷ before) m after v e h = overwritten_last k before m after _ e h

-- The fields compared are none of those that indexing sets.
abbrev Untouched : String → Type 0
Untouched name =
    (("indexed_at" == name) ≡ false)
    × (("dataguard_indexed_from" == name) ≡ false)
    × (("dataguard_event_id" == name) ≡ false)
    × (("dataguard_event_type" == name) ≡ false)
    × (("dataguard_topic" == name) ≡ false)
    × (("dataguard_partition" == name) ≡ false)
    × (("dataguard_offset" == name) ≡ false)

cell-index_document :
    (name now : String) (order : Row) (m : EventMetadata)
    → Untouched name
    → cell name (index_document now order (some m)) ≡ cell name order
unfolding index_document
cell-index_document name now order m (a, b, c, d, e, f, g) =
    cell-put_other "dataguard_offset" name _ _ g
    ∙ (cell-put_other "dataguard_partition" name _ _ f
        ∙ (cell-put_other "dataguard_topic" name _ _ e
            ∙ (cell-put_other "dataguard_event_type" name _ _ d
                ∙ (cell-put_other "dataguard_event_id" name _ _ c
                    ∙ (cell-put_other "dataguard_indexed_from" name _ _ b
                        ∙ cell-put_other "indexed_at" name _ order a)))))

same_field :
    (name now : String) (order : Row) (m : EventMetadata)
    → Untouched name
    → value_eq (cell name order) (cell name (index_document now order (some m))) ≡ true
same_field name now order m u =
    ap (λ v. value_eq (cell name order) v) (cell-index_document name now order m u)
    ∙ value_eq_refl (cell name order)

pub index_document-SameFields :
    (now : String) (order : Row) (m : EventMetadata)
    → SameFields order (index_document now order (some m)) order_fields
index_document-SameFields now order m = (
  same_field "status" now order m (refl, refl, refl, refl, refl, refl, refl),
  (
    same_field "amount_cents" now order m (refl, refl, refl, refl, refl, refl, refl),
    (
      same_field "currency" now order m (refl, refl, refl, refl, refl, refl, refl),
      (same_field "version" now order m (refl, refl, refl, refl, refl, refl, refl), tt),
    ),
  ),
)
