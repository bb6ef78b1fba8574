-- ===== src/Scan/Resumed.antt =====
-- A scan called with a key to resume after reads the rows behind it.
use mathlib.Core.Path.{subst}
use kube_data_guard.Common.{
  ℕ, ◌<◌, ◌≡◌, refl, sym, ap, ◌∙◌, Bool, true, false, some, String, List, ◌∷◌, ◌++◌, length,
  if◌then◌else◌,
}
use kube_data_guard.Common.Int.{ℤ, pos, ltb_ℤ}
use kube_data_guard.Python.{ok, Value, none_value, truthy, cell, Row, JsonFields}
use kube_data_guard.Scan.{
  PageRequest, ScanArgs, ScanEnd, scan_args, scan_start, query_scan_evidence,
  execute_source_query_keyset,
}
use kube_data_guard.Scan.Ordered.{IsOrdered}
use kube_data_guard.Scan.Complete.{Answers, scan_pages-resumed}
use kube_data_guard.Scan.Whole.{scan_args-Checked}

-- A scan that its caller starts with the key of a row of the table to resume after, a key that is neither
-- null, empty nor zero, and without a limit on the pages, with arguments that pass their checks, of a
-- database that answers a page's query with the first rows above its key, over a table whose keys are
-- different and not null: with more fuel than there are rows behind that row it returns, complete, with
-- exactly those, each once and in order.
pub execute_source_query_keyset-resumed :
    (gt : Value → Value → Bool) (fetch : PageRequest → List Row) (pre : List Row) (row : Row)
    (post : List Row) (fuel : ℕ) (query key_field : String) (page_size : Value) (max_pages : ℤ)
    (a : ScanArgs)
    → scan_args query key_field page_size (cell key_field row) max_pages ≡ ok a
    → truthy (cell key_field row) ≡ true
    → ltb_ℤ (pos 0) max_pages ≡ false
    → Answers gt key_field fetch (pre ++ row ∷ post)
    → IsOrdered gt key_field (pre ++ row ∷ post)
    → length post < fuel
    → (e : ScanEnd) × (evidence : JsonFields) × (execute_source_query_keyset fetch fuel query
          key_field page_size
          (cell key_field row)
          max_pages
        ≡ some (ok (e, evidence)))
      × (e.state.rows ≡ post)
      × (e.completed ≡ true)
unfolding execute_source_query_keyset
execute_source_query_keyset-resumed gt fetch pre row post fuel query key_field page_size max_pages a
      c named l answers o f =
    let key = cell key_field row in
    let table = pre ++ row ∷ post in
    let (n, s, m, k) = scan_args-Checked query key_field page_size key max_pages a c in
    let starts : (scan_start key).last_key ≡ cell a.key_field row =
      ap (λ b. if b then key else none_value) named ∙ ap (λ x. cell x row) (sym k) in
    let (e, g, rows, done) =
      scan_pages-resumed gt fetch table a n s (ap (λ p. ltb_ℤ (pos 0) p) m ∙ l)
        (subst (λ x. Answers gt x fetch table) (sym k) answers)
        (subst (λ x. IsOrdered gt x table) (sym k) o) fuel pre row post (scan_start key) refl f
        starts refl in
    (
      e,
      query_scan_evidence a e.state e.completed e.stop_reason,
      rw (execute_source_query_keyset, c, g) refl,
      rows,
      done,
    )
