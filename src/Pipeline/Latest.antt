-- ===== src/Pipeline/Latest.antt =====
-- What the two consumers leave in their stores: the last delivered event of each key.
use mathlib.Core.Path.{subst}
use kube_data_guard.Common.{ℕ, ◌≡◌, sym, ap, ◌==◌, Option, none, some, String, if◌then◌else◌}
use kube_data_guard.Common.Int.{ℤ}
use kube_data_guard.Python.{
  Outcome, ok, >>=-eq-ok, Value, none_value, value_text, Row, require, cell, get-require,
}
use kube_data_guard.Target.{
  Store, index_order, cache_order, index_document, cache_document, order_key,
}
use kube_data_guard.Pipeline.{
  Message, metadata_of, run_consumer, Polled, consume_events, run_indexer, run_cache_indexer,
  apply_index, apply_cache,
}
use kube_data_guard.Pipeline.Overwritten.{Leaves, run_messages-Leaves}

cell-require : (k : String) (d : Row) {v : Value} → require k d ≡ ok v → cell k d ≡ v
unfolding cell
cell-require k d e =
    ap (λ (o : Option Value). elim o [ none ↦ none_value | some v ↦ v ]) (get-require k d e)

-- The identifier of the order of an event, as text.
abbrev pub order_id_of : Message → String
order_id_of m = value_text (cell "id" m.order)

module _ (store : Store) (clock : Message → String) where
  abbrev pub indexed_row : Message → Row
  indexed_row m = index_document (clock m) m.order (some (metadata_of m))

  abbrev pub cached_row : Message → Row
  cached_row m = cache_document (clock m) m.order (some (metadata_of m))

  index-law :
      (m : Message) (s s' : store.State)
      → apply_index store clock m s ≡ ok s'
      → (k : String)
      → store.document s' k
        ≡ (if order_id_of m == k then some (indexed_row m) else store.document s k)
  unfolding apply_index index_order
  index-law m s s' e k =
      let (v, p, q) = >>=-eq-ok (require "id" m.order) _ e in
      subst
        (λ w.
          store.document s' k
          ≡ (if value_text w == k then some (indexed_row m) else store.document s k))
        (sym (cell-require "id" m.order p))
        (store.document-write (value_text v) (indexed_row m) s s' q k)

  cache-law :
      (prefix : String) (m : Message) (s s' : store.State)
      → apply_cache store clock prefix m s ≡ ok s'
      → (k : String)
      → store.document s' k ≡ (
          if order_key prefix (order_id_of m) == k then some (cached_row m) else store.document s k)
  unfolding apply_cache cache_order
  cache-law prefix m s s' e k =
      let (v, p, q) = >>=-eq-ok (require "id" m.order) _ e in
      subst
        (λ w. store.document s' k ≡ (
          if order_key prefix (value_text w) == k then some (cached_row m) else store.document s k))
        (sym (cell-require "id" m.order p))
        (store.document-write (order_key prefix (value_text v)) (cached_row m) s s' q k)

module _ (store : Store) (clock : Message → String) (commit : Message → Outcome (Unit {0})) where
  -- However a run of either consumer ended, its store holds under each key the document of the last
  -- delivered event for it among the messages committed and the one, if any, whose commit ended the run,
  -- and what it held before where there is none. Those messages are the first that were handed on.
  -- Delivered are all but every n-th event of payment, where that fault is simulated.
  pub run_indexer-overwritten :
      (prefix : String) (most : Option ℤ) (every : Option ℕ) (polled : Polled) (s : store.State)
      → Leaves order_id_of
          (indexed_row store clock)
          store
          commit
          every
          (consume_events most polled).messages
          s
          (run_indexer store clock commit most every polled s)
        × Leaves
            (λ m. order_key prefix (order_id_of m))
            (cached_row store clock)
            store
            commit
            every
            (consume_events most polled).messages
            s
            (run_cache_indexer store clock commit prefix most every polled s)
  unfolding run_indexer run_cache_indexer run_consumer
  run_indexer-overwritten prefix most every polled s =
      let given = consume_events most polled in
      (
        run_messages-Leaves order_id_of (indexed_row store clock) store (apply_index store clock)
            commit every given.ending (index-law store clock) given.messages s,
        run_messages-Leaves (λ m. order_key prefix (order_id_of m)) (cached_row store clock) store
            (apply_cache store clock prefix) commit every given.ending
            (cache-law store clock prefix) given.messages s,
      )
