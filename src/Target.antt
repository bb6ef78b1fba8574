-- ===== src/Target.antt =====
-- The derived views as src/dataguard/search.py and src/dataguard/cache.py write and read them: the
-- documents that they store for an order, and the lookup of orders by identifier. The store itself, an
-- OpenSearch index or Redis, is the interface `Store`.
pub mod Lookup
pub mod CacheOffsets
use kube_data_guard.Common.{
  ◌≡◌, ◌==◌, Bool, true, false, not, ◌&&◌, Option, none, some, String, List, [], ◌∷◌, if◌then◌else◌,
}
use kube_data_guard.Common.Int.{ℤ}
use kube_data_guard.Python.{
  Outcome, ok, raise, ◌>>=◌, Value, none_value, int_value, str_value, value_text, Dict, Row, get,
  put, require,
}
use kube_data_guard.Merkle.{◌&◌}

-- Documents by key. A write may fail; one that succeeds changes the document of its key alone.
pub record Store : Type 1 where
  pub State : Type 0
  pub write : String → Row → State → Outcome State
  pub document : State → String → Option Row
  pub document-write :
      (k : String) (d : Row) (s s' : State)
      → write k d s ≡ ok s'
      → (j : String) → document s' j ≡ (if k == j then some d else document s j)

-- Where an event stood in its topic, and what it was.
pub record EventMetadata : Type 0 where
  pub event_id : Value
  pub event_type : Value
  pub topic : String
  pub partition : ℤ
  pub offset : ℤ

abbrev pub with_origin : Option EventMetadata → String → Row → Row
with_origin none name d = put name (str_value "source") d
with_origin (some m) name d = put name (str_value "kafka") d

abbrev pub with_position : EventMetadata → Row → Row
with_position m d = put "dataguard_offset" (int_value m.offset) (
    put "dataguard_partition" (int_value m.partition) (put "dataguard_topic" (str_value m.topic) d))

-- The document that `index_order` stores; `now` is the formatted time.
unfoldable pub index_document : String → Row → Option EventMetadata → Row
unfolding put
index_document now order none =
    with_origin none "dataguard_indexed_from" (put "indexed_at" (str_value now) order)
index_document now order (some m) = with_position m (
    put "dataguard_event_type" m.event_type (
      put "dataguard_event_id" m.event_id
        (with_origin (some m) "dataguard_indexed_from" (put "indexed_at" (str_value now) order))))

unfoldable pub cache_document : String → Row → Option EventMetadata → Row
unfolding put
cache_document now order none =
    with_origin none "dataguard_cached_from" (put "cached_at" (str_value now) order)
cache_document now order (some m) =
    with_position m
      (with_origin (some m) "dataguard_cached_from" (put "cached_at" (str_value now) order))

-- The key of an order in Redis.
abbrev pub order_key : String → String → String
order_key prefix order_id = prefix & ":" & order_id

-- A document read from the cache shows the time of caching as that of indexing.
unfoldable pub cached_view : Row → Row
unfolding get put
cached_view d = elim (get "cached_at" d) [
  | none ↦ d
  | some at ↦ elim (get "indexed_at" d) [ none ↦ put "indexed_at" at d | some v ↦ d ]
]

-- What the loop does with the answer for an identifier.
unfoldable pub put_found : (Row → Row) → Option Row → String → Dict Row → Dict Row
unfolding put
put_found view none id found = found
put_found view (some d) id found = put id (view d) found

module _ (store : Store) where
  unfoldable pub index_order :
      String → Row → Option EventMetadata → store.State → Outcome store.State
  unfolding require index_document value_text
  index_order now order metadata s = do
    order_id ← require "id" order
    store.write (value_text order_id) (index_document now order metadata) s

  unfoldable pub cache_order :
      String → String → Row → Option EventMetadata → store.State → Outcome store.State
  unfolding require cache_document value_text
  cache_order prefix now order metadata s = do
    order_id ← require "id" order
    store.write (order_key prefix (value_text order_id)) (cache_document now order metadata) s

  -- The loop over the answers of `mget`, one for each identifier asked for; `key` is the key of an
  -- identifier in the store, and `view` what is made of a document.
  unfoldable pub mget_from :
      (String → String) → (Row → Row) → store.State → List Value → Dict Row → Dict Row
  unfolding put_found value_text
  mget_from key view s [] found = found
  mget_from key view s (id ∷ ids) found =
      mget_from key view s ids
        (put_found view (store.document s (key (value_text id))) (value_text id) found)

  unfoldable pub mget_orders : store.State → List Value → Dict Row
  unfolding mget_from
  mget_orders s ids = mget_from (λ k. k) (λ d. d) s ids []

  unfoldable pub mget_cached_orders : String → store.State → List Value → Dict Row
  unfolding mget_from cached_view
  mget_cached_orders prefix s ids = mget_from (order_key prefix) cached_view s ids []
