-- ===== src/Checker/Query/Honest.antt =====
-- What a healthy check of a query promises.
use kube_data_guard.Common.{
  ◌≡◌, refl, ap, ◌∙◌, eq_iff, inl, inr, ℕ, Bool, true, false, not, ◌||◌, Option, none, some, String,
  List, [], ◌∷◌, ◌++◌, All, Bool-cases,
}
use kube_data_guard.Python.{Outcome, ok, raise, Value, int_value, truthy, Row, JsonFields}
use kube_data_guard.Invariants.Report.{DriftReport, check_complete, healthy}
use kube_data_guard.Invariants.Query.Exact.{IsMatched, query_healthy_iff}
use kube_data_guard.Scan.{ScanEnd, execute_source_query_keyset}
use kube_data_guard.Search.{execute_target_query}
use kube_data_guard.Jobs.{QueryCall}
use kube_data_guard.Checker.{stream_args}
use kube_data_guard.Checker.Query.{
  QueryServices, and_then, resume_key, check_hash, query_hash, loaded_checkpoint, save_scan,
  query_status, query_args, query_report, compare_scanned, check_query_invariant,
}

pub and_then-ok {ℓ κ} :
    {A : Type ℓ} {B : Type κ} (o : Option (Outcome A)) (next : A → Option (Outcome B)) {b : B}
    → and_then o next ≡ some (ok b)
    → (a : A) × (o ≡ some (ok a)) × (next a ≡ some (ok b))
and_then-ok none next e = absurd (cc e)
and_then-ok (some (raise x)) next e = absurd (cc e)
and_then-ok (some (ok a)) next e = (a, refl, e)

some_ok {ℓ} : {A : Type ℓ} {o : Outcome A} {a : A} → some o ≡ some (ok a) → o ≡ ok a
some_ok {o = o} e = ap (λ p. elim p [ none ↦ o | some x ↦ x ]) e

abbrev result_or : {A : Type 0} → A → Option (Outcome A) → A
result_or a none = a
result_or a (some (raise e)) = a
result_or a (some (ok b)) = b

pub both_of :
    {A : Type 0} {B : Type 0} (a c : A) (b d : B)
    → ◌≡◌ {A = Option (Outcome (A × B))} (some (ok (a, b))) (some (ok (c, d)))
    → (a ≡ c) × (b ≡ d)
both_of {A} {B} a c b d e =
    (ap (λ p. (result_or {A = A × B} (a, b) p).0) e, ap (λ p. (result_or {A = A × B} (a, b) p).1) e)

neither : (a b : Bool) → (a || not b) ≡ false → (a ≡ false) × (b ≡ true)
neither true b e = cc
neither false true e = (refl, refl)
neither false false e = cc

query_status_complete :
    (key : Value) (end : ScanEnd)
    → query_status key end ≡ check_complete
    → (truthy key ≡ false) × (end.completed ≡ true)
unfolding query_status
query_status_complete key end e = elim (Bool-cases (truthy key || not end.completed)) [
  | inl some_left ↦
      let same : "partial" ≡ check_complete = rw some_left at e in
      absurd (cc ((eq_iff "partial" check_complete).1 same))
  | inr none_left ↦ neither (truthy key) end.completed none_left
]

module _ (s : QueryServices) (q : QueryCall) where
  query_report-healthy :
      (key : Value) (loaded : Option JsonFields) (ref : Option String) (end : ScanEnd)
      (evidence : JsonFields) (targets : List Row)
      → healthy (query_report s q key loaded ref end evidence targets) ≡ true
      → (truthy key ≡ false)
        × (end.completed ≡ true)
        × All (IsMatched q.key_field q.compare_fields targets) end.state.rows
  unfolding query_report query_args
  query_report-healthy key loaded ref end evidence targets h =
      let args =
        stream_args s.stream s.checked_at s.target_read_at q.max_lag_seconds
          end.state.source_watermark none in
      let (status, matched) =
        (query_healthy_iff args (query_args s q key loaded ref end evidence) end.state.rows
            targets).0
          h in
      let (a, b) = query_status_complete key end status in (a, b, matched)

  -- The parts of a check that returned.
  pub check_query_invariant-parts :
      (fuel : ℕ) (state : s.blobs.State) (r : DriftReport) (state' : s.blobs.State)
      → check_query_invariant s q fuel state ≡ some (ok (r, state'))
      → (loaded : Option JsonFields) × (scanned : ScanEnd × JsonFields) × (saved : Option String
          × s.blobs.State)
        × (targets : List Row) × (loaded_checkpoint s q state ≡ ok loaded)
        × (check_hash (query_hash s q) loaded ≡ ok tt)
        × (execute_source_query_keyset s.fetch fuel q.source_query q.key_field
              (int_value q.source_scan_page_size)
              (resume_key q loaded)
              q.source_max_pages
            ≡ some (ok scanned))
        × (save_scan s q (scanned.0.state.progress ++ scanned.1 ∷ []) state ≡ ok saved)
        × (execute_target_query s.search s.loads fuel q.target_query q.key_field
            ≡ some (ok targets))
        × (query_report s q (resume_key q loaded) loaded saved.0 scanned.0 scanned.1 targets ≡ r)
        × (saved.1 ≡ state')
  unfolding check_query_invariant compare_scanned
  check_query_invariant-parts fuel state r state' e =
      let (loaded, a, e1) = and_then-ok (some (loaded_checkpoint s q state)) _ e in
      let (u, b, e2) = and_then-ok (some (check_hash (query_hash s q) loaded)) _ e1 in
      let (scanned, c, e3) =
        and_then-ok
          (execute_source_query_keyset s.fetch fuel q.source_query q.key_field
            (int_value q.source_scan_page_size) (resume_key q loaded) q.source_max_pages)
          _ e2 in
      let (saved, d, e4) =
        and_then-ok (some (save_scan s q (scanned.0.state.progress ++ scanned.1 ∷ []) state)) _
          e3 in
      let (targets, f, e5) =
        and_then-ok (execute_target_query s.search s.loads fuel q.target_query q.key_field) _ e4 in
      (
        loaded,
        scanned,
        saved,
        targets,
        some_ok a,
        some_ok b,
        c,
        some_ok d,
        f,
        (both_of _ _ _ _ e5).0,
        (both_of _ _ _ _ e5).1,
      )

-- A check of a query that reports healthy did not resume after a key, its scan read the source to the
-- end, and every row that the scan read has a row of the target query with its key that reads as it does
-- in every field compared.
pub check_query_invariant-healthy :
    (s : QueryServices) (q : QueryCall) (fuel : ℕ) (state : s.blobs.State) (r : DriftReport)
    (state' : s.blobs.State)
    → check_query_invariant s q fuel state ≡ some (ok (r, state'))
    → healthy r ≡ true
    → (loaded : Option JsonFields) × (end : ScanEnd) × (evidence : JsonFields) × (targets : List
        Row)
      × (loaded_checkpoint s q state ≡ ok loaded)
      × (truthy (resume_key q loaded) ≡ false)
      × (execute_source_query_keyset s.fetch fuel q.source_query q.key_field
            (int_value q.source_scan_page_size)
            (resume_key q loaded)
            q.source_max_pages
          ≡ some (ok (end, evidence)))
      × (end.completed ≡ true)
      × (execute_target_query s.search s.loads fuel q.target_query q.key_field ≡ some (ok targets))
      × All (IsMatched q.key_field q.compare_fields targets) end.state.rows
check_query_invariant-healthy s q fuel state r state' e h =
    let (loaded, scanned, saved, targets, a, b, c, d, f, made, i) =
      check_query_invariant-parts s q fuel state r state' e in
    let (from_start, whole, matched) =
      query_report-healthy s q (resume_key q loaded) loaded saved.0 scanned.0 scanned.1 targets
        (ap healthy made ∙ h) in
    (loaded, scanned.0, scanned.1, targets, a, from_start, c, whole, f, matched)
