-- ===== src/Checker/Query/Whole.antt =====
-- A check of a query from its scan to its verdict.
use mathlib.Core.Path.{subst}
use kube_data_guard.Common.{
  ◌≡◌, refl, ap, ◌∙◌, ◌↔◌, ◌==◌, eq_iff, ℕ, ◌<◌, ◌≤◌, Bool, true, false, not, Option, none, some,
  String, List, [], ◌∷◌, ◌++◌, map, length, All, if◌then◌else◌,
}
use kube_data_guard.Common.Int.{pos, ltb_ℤ}
use kube_data_guard.Python.{Outcome, ok, Value, none_value, int_value, Row, Json, JsonFields}
use kube_data_guard.Invariants.Report.{DriftReport, check_complete, healthy}
use kube_data_guard.Invariants.Query.Exact.{IsMatched, query_healthy_iff}
use kube_data_guard.Scan.{ScanArgs, ScanEnd, scan_args, execute_source_query_keyset}
use kube_data_guard.Scan.Ordered.{IsOrdered}
use kube_data_guard.Scan.Complete.{Answers}
use kube_data_guard.Scan.Whole.{execute_source_query_keyset-whole}
use kube_data_guard.Search.{Hit, hit_row, target_request, execute_target_query}
use kube_data_guard.Search.Pages.{Serves, paginated_search-whole}
use kube_data_guard.Jobs.{QueryCall}
use kube_data_guard.Checker.{stream_args}
use kube_data_guard.Checker.Query.{
  QueryServices, and_then, resume_key, given_key, check_hash, query_hash, loaded_checkpoint,
  save_scan, query_status, query_args, query_report, compare_scanned, check_query_invariant,
}

and_then-chain :
    {A B C D E : Type 0} (load : Option (Outcome A)) (hash : A → Option (Outcome B))
    (scan : A → Option (Outcome C)) (save : C → Option (Outcome D)) (target : Option (Outcome E))
    {R : Type 0} (report : A → C → D → E → R) (a : A) (b : B) (c : C) (d : D) (t : E)
    → load ≡ some (ok a)
    → hash a ≡ some (ok b)
    → scan a ≡ some (ok c)
    → save c ≡ some (ok d)
    → target ≡ some (ok t)
    → and_then load (λ x. and_then (hash x) (λ u.
      and_then
        (scan x)
        (λ y. and_then (save y) (λ z. and_then target (λ w. some (ok (report x y z w)))))))
      ≡ some (ok (report a c d t))
and_then-chain load hash scan save target report a b c d t p q r s u = rw (p, q, r, s, u) refl

module _ (s : QueryServices) (q : QueryCall) (unsaved : q.source_checkpoint_id ≡ "") where
  no_checkpoint : (q.source_checkpoint_id == "") ≡ true
  no_checkpoint = (eq_iff q.source_checkpoint_id "").1 unsaved

  loaded-none : (state : s.blobs.State) → loaded_checkpoint s q state ≡ ok none
  unfolding loaded_checkpoint
  loaded-none state = rw (loaded_checkpoint, no_checkpoint) refl

  save_scan-none :
      (evidences : List JsonFields) (state : s.blobs.State)
      → save_scan s q evidences state ≡ ok (none, state)
  unfolding save_scan
  save_scan-none evidences state = rw (save_scan, no_checkpoint) refl

execute_target_query-whole :
    (search : JsonFields → Outcome (List Hit)) (loads : String → Outcome Json) (fuel : ℕ)
    (query key_field : String) (body : JsonFields) (page_size : ℕ) (hits : List Hit)
    → target_request search loads query key_field ≡ ok (body, page_size)
    → 1 ≤ page_size
    → Serves search body page_size hits
    → length hits < fuel
    → execute_target_query search loads fuel query key_field
      ≡ some (ok (map (hit_row key_field) hits))
unfolding execute_target_query
execute_target_query-whole search loads fuel query key_field body page_size hits made sized serves
      enough =
    rw (execute_target_query, made)
      (paginated_search-whole search body page_size key_field hits fuel sized serves enough)

query_report-healthy_iff :
    (s : QueryServices) (q : QueryCall) (ref : Option String) (end : ScanEnd)
    (evidence : JsonFields) (targets : List Row)
    → end.completed ≡ true
    → (healthy (query_report s q none_value none ref end evidence targets) ≡ true)
      ↔ All (IsMatched q.key_field q.compare_fields targets) end.state.rows
unfolding query_report query_args query_status
query_report-healthy_iff s q ref end evidence targets done =
    let args =
      stream_args s.stream s.checked_at s.target_read_at q.max_lag_seconds
        end.state.source_watermark none in
    let iff =
      query_healthy_iff args (query_args s q none_value none ref end evidence) end.state.rows
        targets in
    (λ h. (iff.0 h).1, λ m. iff.1 (ap (λ b. if not b then "partial" else check_complete) done, m))

-- A check of a query without a checkpoint, without a key to resume after and without a limit on the
-- pages, with arguments that pass their checks, over a source table whose keys are different and not null
-- and a target search that pages through its hits: on fuel for more rounds than there are rows or hits it
-- returns a report, leaves the checkpoints as they were, and the report is healthy exactly when every row
-- of the table has a hit with its key that reads as it does in every field compared.
pub check_query_invariant-whole :
    (s : QueryServices) (q : QueryCall) (fuel : ℕ) (state : s.blobs.State)
    (gt : Value → Value → Bool) (table : List Row) (a : ScanArgs) (body : JsonFields)
    (page_size : ℕ) (hits : List Hit)
    → q.source_checkpoint_id ≡ ""
    → q.source_resume_after_key ≡ none
    → scan_args q.source_query q.key_field
        (int_value q.source_scan_page_size)
        none_value
        q.source_max_pages
      ≡ ok a
    → ltb_ℤ (pos 0) q.source_max_pages ≡ false
    → Answers gt q.key_field s.fetch table
    → IsOrdered gt q.key_field table
    → target_request s.search s.loads q.target_query q.key_field ≡ ok (body, page_size)
    → 1 ≤ page_size
    → Serves s.search body page_size hits
    → length table < fuel
    → length hits < fuel
    → (r : DriftReport) × (check_query_invariant s q fuel state ≡ some (ok (r, state)))
      × ((healthy r ≡ true)
          ↔ All (IsMatched q.key_field q.compare_fields (map (hit_row q.key_field) hits)) table)
unfolding check_query_invariant compare_scanned resume_key check_hash
check_query_invariant-whole s q fuel state gt table a body page_size hits unsaved unkeyed args
      unlimited answers ordered request sized serves enough_rows enough_hits =
    let (end, evidence, scanned, rows, done) =
      execute_source_query_keyset-whole gt s.fetch table fuel q.source_query q.key_field
        (int_value q.source_scan_page_size) q.source_max_pages a args unlimited answers ordered
        enough_rows in
    let targets = map (hit_row q.key_field) hits in
    let key : given_key q.source_resume_after_key ≡ none_value = ap given_key unkeyed in
    let report = query_report s q none_value none none end evidence targets in
    (
      report,
      and_then-chain (some (loaded_checkpoint s q state))
            (λ l. some (check_hash (query_hash s q) l))
            (λ l.
              execute_source_query_keyset s.fetch fuel q.source_query q.key_field
                (int_value q.source_scan_page_size) (resume_key q l) q.source_max_pages)
            (λ y. some (save_scan s q (y.0.state.progress ++ y.1 ∷ []) state))
            (execute_target_query s.search s.loads fuel q.target_query q.key_field)
            (λ l y z w. (query_report s q (resume_key q l) l z.0 y.0 y.1 w, z.1)) none tt
            (end, evidence) (none, state) targets (ap some (loaded-none s q unsaved state)) refl
            (ap
                (λ k.
                  execute_source_query_keyset s.fetch fuel q.source_query q.key_field
                    (int_value q.source_scan_page_size) k q.source_max_pages)
                key
              ∙ scanned)
            (ap some (save_scan-none s q unsaved _ state))
            (execute_target_query-whole s.search s.loads fuel q.target_query q.key_field body
              page_size hits request sized serves enough_hits)
          ∙ ap (λ k. some (ok (query_report s q k none none end evidence targets, state))) key,
      subst (λ t. (healthy report ≡ true) ↔ All (IsMatched q.key_field q.compare_fields targets) t)
          rows (query_report-healthy_iff s q none end evidence targets done),
    )
