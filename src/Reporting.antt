-- ===== src/Reporting.antt =====
-- src/dataguard/reporting.py without the texts that it writes: the compact form of a report, the names and
-- options of its objects in S3, and the retention of the local files. A file of the report directory is its
-- name and the time at which it was modified.
pub mod Retention
use Prim.Native.Char.{Char, code}
use kube_data_guard.Common.{
  ◌==◌, ◌||◌, ◌&&◌, not, ℕ, zero, suc, ◌*◌, Bool, true, false, Option, none, some, String, List, [],
  ◌∷◌, length, keep, leb, ltb, nat_eq, if◌then◌else◌,
}
use kube_data_guard.Common.Int.{ℤ, pos, pos_part, ltb_ℤ}
use kube_data_guard.Python.{
  Outcome, ok, raise, value_error, ◌>>=◌, ◌>>◌, guard, strip_chars, lower, int_text, Json,
  JsonItems, JsonFields, no_items, item, field, no_fields, object, array, scalar, text, number,
  null, get_default, json_truthy,
}
use kube_data_guard.Python.Clock.{Instant, minus_seconds}
use kube_data_guard.Merkle.{◌&◌}
use kube_data_guard.Scan.{strip}
use kube_data_guard.Checkpoints.{is_slash}

-- `payload.get(name)`
unfoldable pub entry : JsonFields → String → Json
unfolding get_default
entry payload name = get_default name null payload

-- `payload.get(name) or {}`, of what is a dictionary where it is there.
abbrev pub part : Json → JsonFields
part (object d) = d
part _ = no_fields

abbrev pub count_items : JsonItems → ℕ
count_items no_items = 0
count_items (item j js) = suc (count_items js)

-- `len(payload.get(name) or [])`
abbrev pub count_of : Json → ℕ
count_of (array js) = count_items js
count_of _ = 0

unfoldable pub compact_report : JsonFields → JsonFields
unfolding entry
compact_report payload =
    let window = part (entry payload "observation_window") in
    let frontier = part (entry window "cdc_frontier") in
    field "invariant" (entry payload "invariant") (
      field "status" (entry payload "status") (
        field "healthy" (entry payload "healthy") (
          field "guarantee" (entry payload "guarantee") (
            field "check_status" (entry payload "check_status") (
              field "checked_records" (entry payload "checked_records") (
                field "drift_count" (entry payload "drift_count") (
                  field "counterexample_count" (number (count_of (entry payload "counterexamples")))
                    (field "freshness_breach_count"
                      (number (count_of (entry payload "freshness_breaches")))
                      (field "checked_at" (entry window "checked_at") (
                        field "target_read_at" (entry window "target_read_at") (
                          field "source_watermark" (entry window "source_watermark") (
                            field "source_lsn" (entry window "source_lsn") (
                              field "cdc_frontier_status" (entry frontier "status") (
                                field "cdc_frontier_reason" (entry frontier "reason") (
                                  field "kubernetes_status" (entry payload "kubernetes_status")
                                    no_fields)))))))))))))))

pub record ReportSettings : Type 0 where
  pub report_bucket : String
  pub report_prefix : String
  pub report_s3_sse : String
  pub report_s3_kms_key_id : String
  pub report_retention_days : ℤ
  pub report_retention_count : ℤ

-- The name of the file stands for its path.
unfoldable pub s3_key : ReportSettings → String → String
unfolding strip_chars
s3_key s name =
    let prefix = strip_chars is_slash s.report_prefix in
    if prefix == "" then name else prefix & "/" & name

abbrev pub s3_ref : String → String → String
s3_ref bucket key = "s3://" & bucket & "/" & key

abbrev pub when_field : Bool → String → String → JsonFields → JsonFields
when_field holds name value rest = if holds then field name (text value) rest else rest

unfoldable pub s3_extra_args : ReportSettings → String → JsonFields
unfolding int_text
s3_extra_args s content_type = field "ContentType" (text content_type) (
    when_field (not (s.report_s3_sse == "")) "ServerSideEncryption" s.report_s3_sse (
      when_field (s.report_s3_sse == "aws:kms" && not (s.report_s3_kms_key_id == "")) "SSEKMSKeyId"
        s.report_s3_kms_key_id
        (when_field (ltb_ℤ (pos 0) s.report_retention_days) "Tagging"
          ("retentionDays=" & int_text s.report_retention_days) no_fields)))

-- The files of a report by name, and the references to them.
pub record ReportArtifacts : Type 0 where
  pub json_path : String
  pub markdown_path : String
  pub compact_path : String
  pub latest_path : String
  pub report_ref : String
  pub markdown_ref : String
  pub compact_ref : String
  pub latest_ref : String

pub record Upload : Type 0 where
  pub file_name : String
  pub key : String
  pub extra_args : JsonFields

unfoldable pub uploads : ReportSettings → ReportArtifacts → List Upload
unfolding s3_key s3_extra_args
uploads s a =
    let upload : String → String → Upload = λ name content_type. record {
      file_name = name;
      key = s3_key s name;
      extra_args = s3_extra_args s content_type;
    } in
    upload a.json_path "application/json"
    ∷ upload a.markdown_path "text/markdown"
    ∷ upload a.compact_path "application/json"
    ∷ upload a.latest_path "application/json"
    ∷ []

-- The uploads, in order, and what is returned where none of them raises.
unfoldable pub publish_s3_artifacts :
    ReportSettings → ReportArtifacts → Outcome (List Upload × ReportArtifacts)
unfolding uploads s3_key
publish_s3_artifacts s a = do
  guard (not (s.report_bucket == "")) (value_error "REPORT_BUCKET is required when REPORT_STORE=s3")
  ok (
    uploads s a,
    record a {
      report_ref = s3_ref s.report_bucket (s3_key s a.json_path);
      markdown_ref = s3_ref s.report_bucket (s3_key s a.markdown_path);
      compact_ref = s3_ref s.report_bucket (s3_key s a.compact_path);
      latest_ref = s3_ref s.report_bucket (s3_key s a.latest_path);
    },
  )

pub record ReportFile : Type 0 where
  pub name : String
  pub modified : Instant

unfoldable pub ends_with : String → String → Bool
ends_with suffix String.[] = String.[] == suffix
ends_with suffix (String.◌∷◌ c s) = String.◌∷◌ c s == suffix || ends_with suffix s

unfoldable pub starts_with : String → String → Bool
starts_with String.[] s = true
starts_with (String.◌∷◌ c p) String.[] = false
starts_with (String.◌∷◌ c p) (String.◌∷◌ d s) = nat_eq (code c) (code d) && starts_with p s

-- `text.removesuffix(suffix)`
unfoldable pub remove_suffix : String → String → String
remove_suffix suffix String.[] = String.[]
remove_suffix suffix (String.◌∷◌ c s) =
    let rest = remove_suffix suffix s in
    if String.◌∷◌ c s == suffix then String.[] else String.◌∷◌ c rest

-- The files that the pattern `drift-*.json` names, but for the compact ones.
unfoldable pub is_report : ReportFile → Bool
unfolding ends_with starts_with
is_report f =
    (starts_with "drift-" f.name && ends_with ".json" f.name)
    && not (ends_with ".compact.json" f.name)

unfoldable pub insert_newest : ReportFile → List ReportFile → List ReportFile
insert_newest f [] = f ∷ []
insert_newest f (g ∷ gs) =
    let rest = insert_newest f gs in if ltb_ℤ f.modified g.modified then g ∷ rest else f ∷ g ∷ gs

-- `sorted(..., key=mtime, reverse=True)`, which keeps the order of files of one time.
unfoldable pub newest_first : List ReportFile → List ReportFile
unfolding insert_newest
newest_first [] = []
newest_first (f ∷ fs) = insert_newest f (newest_first fs)

abbrev pub is_in_family : String → ReportFile → Bool
is_in_family prefix f =
    f.name == prefix & ".json" || (f.name == prefix & ".md" || f.name == prefix & ".compact.json")

unfoldable pub delete_report_family : ReportFile → List ReportFile → List ReportFile
unfolding keep remove_suffix
delete_report_family report files =
    keep (λ f. not (is_in_family (remove_suffix ".json" report.name) f)) files

abbrev pub is_too_old : Option Instant → ReportFile → Bool
is_too_old none f = false
is_too_old (some cutoff) f = ltb_ℤ f.modified cutoff

abbrev pub is_too_many : ℕ → ℕ → Bool
is_too_many report_count index = ltb 0 report_count && leb report_count index

-- The loop over the reports, the newest first.
unfoldable pub delete_expired :
    ℕ → Option Instant → ℕ → List ReportFile → List ReportFile → List ReportFile
unfolding delete_report_family
delete_expired report_count cutoff index [] files = files
delete_expired report_count cutoff index (report ∷ reports) files =
    let left =
      if is_too_many report_count index || is_too_old cutoff report
      then delete_report_family report files
      else files in
    delete_expired report_count cutoff (suc index) reports left

-- The days are counted back from now.
abbrev pub cutoff_of : Instant → ℤ → Option Instant
cutoff_of now days =
    if ltb_ℤ (pos 0) days then some (minus_seconds now (pos (pos_part days * 86400))) else none

unfoldable pub apply_local_retention : ReportSettings → Instant → List ReportFile → List ReportFile
unfolding keep is_report newest_first delete_expired
apply_local_retention s now files =
    delete_expired (pos_part s.report_retention_count) (cutoff_of now s.report_retention_days) 0
      (newest_first (keep is_report files)) files
