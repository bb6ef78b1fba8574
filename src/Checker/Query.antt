-- ===== src/Checker/Query.antt =====
-- `check_query_invariant` of src/dataguard/checker.py: the scan of a source query, with its checkpoint,
-- against the rows of a target query. A result tells the report and the checkpoints after the check.
pub mod Honest
pub mod Whole
pub mod Resumed
use kube_data_guard.Common.{
  ◌==◌, ℕ, Bool, true, false, not, ◌&&◌, ◌||◌, Option, none, some, String, List, [], ◌∷◌, ◌++◌,
  is_empty, if◌then◌else◌,
}
use kube_data_guard.Common.Int.{ℤ, pos}
use kube_data_guard.Python.{
  Outcome, ok, raise, value_error, ◌>>=◌, Value, none_value, int_value, str_value, truthy, Row,
  Json, JsonFields, object, field, no_fields, scalar, text, text?, null, get_default, set_field,
  json_truthy,
}
use kube_data_guard.Python.Clock.{Instant}
use kube_data_guard.Merkle.{◌&◌}
use kube_data_guard.Invariants.Report.{DriftReport, check_complete}
use kube_data_guard.Invariants.Query.{QueryArgs, compare_query_results}
use kube_data_guard.Scan.{PageRequest, ScanEnd, strip, execute_source_query_keyset}
use kube_data_guard.Checkpoints.{Blobs, Settings, load_scan_checkpoint, save_scan_checkpoint}
use kube_data_guard.Search.{Hit, execute_target_query}
use kube_data_guard.Jobs.{QueryCall}
use kube_data_guard.Checker.{StreamServices, source_lsn_or_none, stream_args}

-- `clock` is the formatted time at which a checkpoint is saved.
pub record QueryServices : Type 1 where
  pub stream : StreamServices
  pub checked_at : Instant
  pub target_read_at : Instant
  pub fetch : PageRequest → List Row
  pub loads : String → Outcome Json
  pub search : JsonFields → Outcome (List Hit)
  pub blobs : Blobs
  pub settings : Settings
  pub clock : JsonFields → String
  pub sha256_hex : String → String

-- Sequencing of what may run out of fuel.
abbrev pub and_then {ℓ κ} :
    {A : Type ℓ} {B : Type κ} → Option (Outcome A) → (A → Option (Outcome B)) → Option (Outcome B)
and_then none next = none
and_then (some (raise e)) next = some (raise e)
and_then (some (ok a)) next = next a

unfoldable pub scan_query_hash : (String → String) → QueryCall → String
unfolding strip
scan_query_hash sha256_hex q =
    sha256_hex (strip q.source_query & "\n" & strip q.target_query & "\n" & strip q.key_field)

abbrev pub value_of : Json → Value
value_of (scalar v) = v
value_of _ = none_value

-- `d.get(name)`
unfoldable pub copied : JsonFields → String → Json
unfolding get_default
copied d name = get_default name null d

abbrev pub same_hash : Json → String → Bool
same_hash (scalar (str_value t)) hash = t == hash
same_hash _ hash = false

-- An empty checkpoint is as good as none.
abbrev pub or_no_checkpoint : Option JsonFields → Option JsonFields
or_no_checkpoint none = none
or_no_checkpoint (some no_fields) = none
or_no_checkpoint (some (field k j d)) = some (field k j d)

abbrev pub given_key : Option String → Value
given_key none = none_value
given_key (some k) = str_value k

-- The key to resume after: the one given, else the last one of the checkpoint.
unfoldable pub resume_key : QueryCall → Option JsonFields → Value
unfolding truthy copied
resume_key q none = given_key q.source_resume_after_key
resume_key q (some d) =
    let last_key = value_of (copied d "last_key") in
    if truthy (given_key q.source_resume_after_key)
    then given_key q.source_resume_after_key
    else if truthy last_key
    then last_key
    else none_value

-- A checkpoint of another query is refused.
unfoldable pub check_hash : String → Option JsonFields → Outcome (Unit {0})
unfolding copied
check_hash hash none = ok tt
check_hash hash (some d) =
    let loaded = copied d "query_hash" in
    if json_truthy loaded && not (same_hash loaded hash)
    then raise (value_error "checkpoint was created for a different query")
    else ok tt

-- A check that resumed, or whose scan did not end, is partial.
unfoldable pub query_status : Value → ScanEnd → String
unfolding truthy
query_status key end = if truthy key || not end.completed then "partial" else check_complete

module _ (s : QueryServices) (q : QueryCall) where
  abbrev pub query_hash : String
  unfolding scan_query_hash
  query_hash = scan_query_hash s.sha256_hex q

  unfoldable pub loaded_checkpoint : s.blobs.State → Outcome (Option JsonFields)
  unfolding load_scan_checkpoint
  loaded_checkpoint state =
      if not (q.source_checkpoint_id == "") && not q.source_reset_checkpoint
      then (load_scan_checkpoint s.blobs s.settings q.source_checkpoint_id state >>= λ d.
          ok (or_no_checkpoint d))
      else ok none

  -- What a check saves of the evidence of its scan.
  unfoldable pub checkpoint_payload : JsonFields → JsonFields
  unfolding copied query_hash
  checkpoint_payload evidence =
      field "status"
        (text (if json_truthy (copied evidence "completed") then "complete" else "inProgress"))
        (field "query_hash" (text query_hash) (
          field "check_id" (text q.check_id) (
            field "key_field" (text q.key_field) (
              field "last_key" (copied evidence "last_key") (
                field "first_key" (copied evidence "first_key") (
                  field "resume_after_key" (copied evidence "resume_after_key") (
                    field "source_watermark" (copied evidence "source_watermark") (
                      field "source_lsn" (text? (source_lsn_or_none s.stream.current_wal_lsn)) (
                        field "pages" (copied evidence "pages") (
                          field "rows" (copied evidence "rows") (
                            field "stop_reason" (copied evidence "stop_reason") no_fields)))))))))))

  -- The saves after each page and at the end, in order; the last one's reference counts.
  unfoldable pub save_checkpoints :
      List JsonFields → Option String → s.blobs.State → Outcome (Option String × s.blobs.State)
  unfolding checkpoint_payload save_scan_checkpoint
  save_checkpoints [] ref state = ok (ref, state)
  save_checkpoints (evidence ∷ rest) ref state =
      save_scan_checkpoint s.blobs s.settings (s.clock evidence) q.source_checkpoint_id
        (checkpoint_payload evidence) state
      >>= λ saved. save_checkpoints rest (some saved.0) saved.1

  unfoldable pub save_scan :
      List JsonFields → s.blobs.State → Outcome (Option String × s.blobs.State)
  unfolding save_checkpoints
  save_scan evidences state =
      if q.source_checkpoint_id == ""
      then ok (none, state)
      else save_checkpoints evidences none state

  abbrev pub with_checkpoint : Option JsonFields → JsonFields → JsonFields
  unfolding copied set_field
  with_checkpoint none evidence = evidence
  with_checkpoint (some d) evidence =
      set_field "loaded_checkpoint"
        (object (
          field "checkpoint_id" (copied d "checkpoint_id") (
            field "last_key" (copied d "last_key") (
              field "updated_at" (copied d "updated_at")
                (field "status" (copied d "status") no_fields)))))
        evidence

  abbrev pub with_text : Bool → String → String → JsonFields → JsonFields
  unfolding set_field
  with_text is_given name value evidence =
      if is_given then set_field name (text value) evidence else evidence

  abbrev pub with_ref : Option String → JsonFields → JsonFields
  unfolding with_text
  with_ref none evidence = evidence
  with_ref (some ref) evidence = with_text (not (ref == "")) "checkpoint_ref" ref evidence

  -- The evidence that the report carries.
  unfoldable pub report_evidence : Option JsonFields → Option String → JsonFields → JsonFields
  unfolding set_field with_text with_ref with_checkpoint query_hash
  report_evidence loaded ref evidence = with_checkpoint loaded (
      with_ref ref (
        with_text (not (q.source_checkpoint_id == "")) "checkpoint_id" q.source_checkpoint_id
          (set_field "query_hash" (text query_hash) evidence)))

  unfoldable pub query_args :
      Value → Option JsonFields → Option String → ScanEnd → JsonFields → QueryArgs
  unfolding report_evidence query_status
  query_args key loaded ref end evidence = record {
    invariant_name = q.invariant_name;
    key_field = q.key_field;
    compare_fields = q.compare_fields;
    guarantee = if is_empty q.compare_fields then "existence" else "existence+fieldEquality";
    source_scan = some (object (report_evidence loaded ref evidence));
    check_status = query_status key end;
  }

  unfoldable pub query_report :
      Value → Option JsonFields → Option String → ScanEnd → JsonFields → List Row → DriftReport
  unfolding stream_args query_args compare_query_results
  query_report key loaded ref end evidence target_rows =
      compare_query_results
        (stream_args s.stream s.checked_at s.target_read_at q.max_lag_seconds
          end.state.source_watermark none)
        (query_args key loaded ref end evidence) end.state.rows target_rows

  -- What follows the scan: its checkpoints are saved, and its rows compared with those of the target.
  unfoldable pub compare_scanned :
      ℕ
      → Value
      → Option JsonFields
      → s.blobs.State
      → ScanEnd × JsonFields
      → Option (Outcome (DriftReport × s.blobs.State))
  unfolding save_scan execute_target_query query_report
  compare_scanned fuel key loaded state scanned =
      and_then (some (save_scan (scanned.0.state.progress ++ scanned.1 ∷ []) state)) (λ saved.
        and_then (execute_target_query s.search s.loads fuel q.target_query q.key_field)
          (λ target_rows.
            some (ok (query_report key loaded saved.0 scanned.0 scanned.1 target_rows, saved.1))))

  unfoldable pub check_query_invariant :
      ℕ → s.blobs.State → Option (Outcome (DriftReport × s.blobs.State))
  unfolding loaded_checkpoint check_hash resume_key execute_source_query_keyset compare_scanned
  check_query_invariant fuel state = and_then (some (loaded_checkpoint state)) (λ loaded.
      and_then (some (check_hash query_hash loaded)) (λ u.
        and_then
          (execute_source_query_keyset s.fetch fuel q.source_query q.key_field
            (int_value q.source_scan_page_size) (resume_key q loaded) q.source_max_pages)
          (compare_scanned fuel (resume_key q loaded) loaded state)))
