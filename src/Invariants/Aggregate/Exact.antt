-- ===== src/Invariants/Aggregate/Exact.antt =====
-- An aggregate comparison is healthy exactly when the counts and the totals are equal.
use kube_data_guard.Common.{List, []}
use kube_data_guard.Common.Int.{ℤ}
use kube_data_guard.Invariants.Report.{AggregateItem}
use kube_data_guard.Invariants.Aggregate.{list_difference}

differences : ℤ → ℤ → ℤ → ℤ → List AggregateItem
differences count count' total total' =
    list_difference "count" count count' (list_difference "total_amount_cents" total total' [])
