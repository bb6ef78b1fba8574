-- ===== src/Checker/Indexed.antt =====
-- The existence check over the index that the consumer of the event topic has filled.
use mathlib.Core.Path.{subst}
use kube_data_guard.Common.{
  ◌≡◌, refl, sym, ap, ◌∙◌, ◌==◌, eq_iff, All-of_Has, All-at, true, Option, none, some, String, List,
  [], ◌∷◌, ◌++◌, map, All, All-map, Has, here, there, if◌then◌else◌,
}
use kube_data_guard.Common.Int.{ℤ}
use kube_data_guard.Python.{
  Outcome, ok, ◌>>=◌, traverse, Yields, finish, follow, traverse-Yields, traverse_total, Value,
  none_value, str_value, value_text, Row, get, require, cell, get-require, require-get,
}
use kube_data_guard.Target.{Store, index_document, mget_orders}
use kube_data_guard.Target.Lookup.{Has-is_asked, get-mget_orders}
use kube_data_guard.Invariants.Report.{DriftReport, healthy}
use kube_data_guard.Invariants.Window.{latest_source_watermark}
use kube_data_guard.Invariants.Verdict.{get_by_id}
use kube_data_guard.Invariants.Existence.{order_fields, compare_paid_orders_to_index}
use kube_data_guard.Invariants.Existence.Exact.{
  SameFields, IsShown, existence_healthy_iff, existence_total,
}
use kube_data_guard.Scan.Ordered.{append-nil}
use kube_data_guard.Pipeline.{
  Message, Polled, Run, metadata_of, apply_index, consume_events, run_indexer,
}
use kube_data_guard.Pipeline.Counts.{IsAccounted-ok, run_indexer-IsAccounted}
use kube_data_guard.Pipeline.Overwritten.{Unacknowledged-ok, delivered, overwritten}
use kube_data_guard.Pipeline.Latest.{order_id_of, indexed_row, run_indexer-overwritten}
use kube_data_guard.Checker.{Services, search_orders, check_args, check_paid_orders_indexed}
use kube_data_guard.Pipeline.Last.{
  IsLast, delivered_all, overwritten_last, index_document-SameFields,
}

Yields-Has :
    {orders : List Row} {ids : List Value}
    → Yields (require "id") orders ids
    → All
        (λ order. (k : String) → get "id" order ≡ some (str_value k) → Has k (map value_text ids))
        orders
unfolding value_text
Yields-Has finish = tt
Yields-Has (follow {x} {y} {xs} {ys} p rest) = (
  (λ k e.
      let same : some y ≡ some (str_value k) = sym (get-require "id" x p) ∙ e in
      let v : y ≡ str_value k = cc in here (sym (ap value_text v))),
  All-map (λ order. (k : String) → get "id" order ≡ some (str_value k) → Has k (map value_text ys))
      (λ order.
        (k : String) → get "id" order ≡ some (str_value k) → Has k (map value_text (y ∷ ys)))
      xs (λ order h k e. there (h k e)) (Yields-Has rest),
)

search_orders-mget :
    (s : Services) (max_lag_seconds : ℤ) (state : s.index.State) (ids : List Value)
    → s.index_state ≡ ok state
    → search_orders s max_lag_seconds ids ≡ ok (mget_orders s.index state ids)
unfolding search_orders mget_orders
search_orders-mget s max_lag_seconds state [] e = refl
search_orders-mget s max_lag_seconds state (id ∷ ids) e =
    ap (λ o. o >>= λ t. ok (mget_orders s.index t (id ∷ ids))) e

key_of_event :
    (m : Message) (order : Row) (k : String)
    → m.order ≡ order
    → get "id" order ≡ some (str_value k)
    → (order_id_of m == k) ≡ true
unfolding cell value_text
key_of_event m order k c e =
    let identifier : order_id_of m ≡ k =
      ap (λ o. value_text (cell "id" o)) c
      ∙ ap (λ o. value_text (elim o [ none ↦ none_value | some v ↦ v ])) e in
    (eq_iff (order_id_of m) k).1 identifier

module _ (store : Store) (clock : Message → String) (commit : Message → Outcome (Unit {0}))
    (most : Option ℤ) (polled : Polled) (s : store.State) where
  abbrev run : Run store.State
  run = run_indexer store clock commit most none polled s

  abbrev handed_on : List Message
  handed_on = (consume_events most polled).messages

  run-document :
      (order : Row) (l : IsLast handed_on order)
      → run.outcome ≡ ok tt
      → store.document run.progress.state l.key ≡ some (indexed_row store clock l.event)
  run-document order l done =
      let counted = (run_indexer-IsAccounted store clock commit "" most none polled s).0 in
      let left = (run_indexer-overwritten store clock commit "" most none polled s).0 in
      let settled : left.pending ≡ [] =
        Unacknowledged-ok commit run.outcome left.pending done left.unacknowledged in
      let committed : run.progress.committed ≡ handed_on =
        IsAccounted-ok (apply_index store clock) commit handed_on
          (consume_events most polled).ending run counted done in
      let all_of : delivered none 0 (run.progress.committed ++ left.pending)
          ≡ l.before ++ l.event ∷ l.after =
        delivered_all 0 _
        ∙ (ap (λ ms. run.progress.committed ++ ms) settled
            ∙ (append-nil run.progress.committed ∙ (committed ∙ l.split))) in
      left.holds l.key
      ∙ (ap (λ ms. overwritten order_id_of (indexed_row store clock) ms (store.document s) l.key)
            all_of
          ∙ overwritten_last (indexed_row store clock) l.key l.before l.event l.after
              (store.document s) (key_of_event l.event order l.key l.carried l.identified) l.last)

  run-IsShown :
      (orders : List Row) (ids : List Value)
      → traverse (require "id") orders ≡ ok ids
      → run.outcome ≡ ok tt
      → All (IsLast (consume_events most polled).messages) orders
      → All (IsShown (mget_orders store run.progress.state ids)) orders
  unfolding get_by_id
  run-IsShown orders ids read done lasts =
      let asked = Yields-Has (traverse-Yields (require "id") orders ids read) in
      All-of_Has (IsShown (mget_orders store run.progress.state ids)) orders (λ order h.
        let l = All-at (IsLast (consume_events most polled).messages) orders lasts h in
        let has =
          All-at (λ o. (k : String) → get "id" o ≡ some (str_value k) → Has k (map value_text ids))
            orders asked h l.key l.identified in
        record {
          order_id = str_value l.key;
          target = indexed_row store clock l.event;
          identified = l.identified;
          found =
              get-mget_orders store run.progress.state ids l.key
              ∙ (ap (λ b. if b then store.document run.progress.state l.key else none)
                    (Has-is_asked l.key ids has)
                  ∙ run-document order l done);
          same =
              subst
                (λ o.
                  SameFields order (index_document (clock l.event) o (some (metadata_of l.event)))
                    order_fields)
                (sym l.carried)
                (index_document-SameFields (clock l.event) order (metadata_of l.event));
        })

-- The steps of the check whose parts return.
chained :
    {A B C D : Type 0} (orders : Outcome A) (ids : A → Outcome B) (found : B → Outcome C)
    (next : A → C → Outcome D) (a : A) (b : B) (c : C)
    → orders ≡ ok a
    → ids a ≡ ok b
    → found b ≡ ok c
    → (orders >>= λ x. ids x >>= λ y. found y >>= λ z. next x z) ≡ next a c
chained orders ids found next a b c p q r = rw (p, q, r) refl

-- Where the consumer of the topic ran without the simulated fault and ended without an error, and every
-- paid order is what the last event for it among the consumed messages carries, the existence check of
-- the index that the consumer filled succeeds and is healthy, whatever evidence could be gathered.
pub check_paid_orders_indexed-run_indexer :
    (s : Services) (max_lag_seconds : ℤ) (orders : List Row) (clock : Message → String)
    (commit : Message → Outcome (Unit {0})) (most : Option ℤ) (polled : Polled)
    (start : s.index.State)
    → s.paid_orders max_lag_seconds ≡ ok orders
    → (run_indexer s.index clock commit most none polled start).outcome ≡ ok tt
    → s.index_state ≡ ok (run_indexer s.index clock commit most none polled start).progress.state
    → All (IsLast (consume_events most polled).messages) orders
    → (r : DriftReport) × (check_paid_orders_indexed s max_lag_seconds ≡ ok r) × (healthy r ≡ true)
unfolding check_paid_orders_indexed
check_paid_orders_indexed-run_indexer s max_lag_seconds orders clock commit most polled start paid
      done filled lasts =
    let state = (run_indexer s.index clock commit most none polled start).progress.state in
    let args = check_args s max_lag_seconds (latest_source_watermark orders) none in
    let (ids, read) = traverse_total (require "id") orders (
      All-map (IsLast (consume_events most polled).messages)
        (λ o. (v : Value) × (require "id" o ≡ ok v)) orders
        (λ o l. (str_value l.key, require-get "id" o l.identified)) lasts) in
    let indexed = mget_orders s.index state ids in
    let shown = run-IsShown s.index clock commit most polled start orders ids read done lasts in
    let (r, compared, counted) = existence_total args orders indexed (
      All-map (IsLast (consume_events most polled).messages)
        (λ o. (v : Value) × (get "id" o ≡ some v)) orders (λ o l. (str_value l.key, l.identified))
        lasts) in
    (
      r,
      chained (s.paid_orders max_lag_seconds) (traverse (require "id"))
            (search_orders s max_lag_seconds)
            (λ os.
              compare_paid_orders_to_index
                (check_args s max_lag_seconds (latest_source_watermark os) none) os)
            orders ids indexed paid read (search_orders-mget s max_lag_seconds state ids filled)
          ∙ compared,
      (existence_healthy_iff args orders indexed r compared).1 shown,
    )
