-- ===== src/Merkle.antt =====
-- src/dataguard/merkle.py: summaries of rows by the prefix of their identifier, with fingerprints, and
-- the buckets in which two sides differ. The digest is a parameter: `sha256(...).hexdigest()`.
pub mod Compare
pub mod Prefixes
use Prim.Native.String
use kube_data_guard.Common.{
  ℕ, ◌==◌, Bool, not, Option, none, some, String, List, [], ◌∷◌, ◌++◌, map, length, take, is_empty,
  if◌then◌else◌,
}
use kube_data_guard.Common.Int.{ℤ, pos, eqb_ℤ}
use kube_data_guard.Python.{
  Outcome, ok, ◌>>=◌, Value, none_value, str_value, truthy, value_text, int_text, int_or_zero, Dict,
  Row, get, put, cell, sorted_texts, Json, field, no_fields, object, scalar, text, number, integer,
  list,
}

pub record BucketSummary : Type 0 where
  pub bucket : String
  pub count : ℤ
  pub total_amount_cents : ℤ
  pub version_sum : ℤ
  pub source_watermark : Value
  pub fingerprint : String

pub record BucketMismatch : Type 0 where
  pub bucket : String
  pub reason : String
  pub source : BucketSummary
  pub target : BucketSummary

-- The keys of a dictionary, in order.
abbrev pub keys {ℓ} : {V : Type ℓ} → Dict V → List String
keys [] = []
keys ((k, v) ∷ d) = k ∷ keys d

infixr 60 ◌&◌
abbrev pub ◌&◌ : String → String → String
s & t = String.◌++◌ s t

-- `", ".join(names)`
abbrev pub comma_join : List String → String
comma_join [] = ""
comma_join (x ∷ []) = x
comma_join (x ∷ y ∷ xs) = x & ", " & comma_join (y ∷ xs)

abbrev pub listed_if : Bool → String → List String → List String
listed_if test name names = if test then name ∷ names else names

unfoldable pub mismatch_reason : BucketSummary → BucketSummary → String
mismatch_reason source target =
    let differences = listed_if (not (eqb_ℤ source.count target.count)) "count" (
      listed_if (not (eqb_ℤ source.total_amount_cents target.total_amount_cents))
        "total_amount_cents"
        (listed_if (not (eqb_ℤ source.version_sum target.version_sum)) "version_sum" [])) in
    if is_empty differences
    then "bucket fingerprint differs"
    else "bucket differs on " & comma_join differences

module _ (sha256_hex : String → String) where
  unfoldable pub bucket_fingerprint : ℤ → ℤ → ℤ → String
  unfolding int_text
  bucket_fingerprint count total version_sum =
      sha256_hex (int_text count & "|" & int_text total & "|" & int_text version_sum)

  -- The summary that a row of either side gives.
  unfoldable pub normalize_row : Row → Outcome BucketSummary
  unfolding bucket_fingerprint int_or_zero cell truthy value_text
  normalize_row row = do
    count ← int_or_zero (cell "count" row)
    total ← int_or_zero (cell "total_amount_cents" row)
    version_sum ← int_or_zero (cell "version_sum" row)
    ok (record {
      bucket = if truthy (cell "bucket" row) then value_text (cell "bucket" row) else "";
      count = count;
      total_amount_cents = total;
      version_sum = version_sum;
      source_watermark = cell "source_watermark" row;
      fingerprint = bucket_fingerprint count total version_sum;
    })

  unfoldable pub normalize_from : List Row → Dict BucketSummary → Outcome (Dict BucketSummary)
  unfolding normalize_row put
  normalize_from [] summaries = ok summaries
  normalize_from (row ∷ rows) summaries = do
    summary ← normalize_row row
    normalize_from rows (put summary.bucket summary summaries)

  unfoldable pub normalize_bucket_summaries : List Row → Outcome (Dict BucketSummary)
  unfolding normalize_from
  normalize_bucket_summaries rows = normalize_from rows []

  unfoldable pub empty_bucket : String → BucketSummary
  unfolding bucket_fingerprint
  empty_bucket bucket = record {
    bucket = bucket;
    count = pos 0;
    total_amount_cents = pos 0;
    version_sum = pos 0;
    source_watermark = none_value;
    fingerprint = bucket_fingerprint (pos 0) (pos 0) (pos 0);
  }

  -- `summaries.get(bucket) or empty_bucket(bucket)`
  unfoldable pub summary_of : String → Dict BucketSummary → BucketSummary
  unfolding get empty_bucket
  summary_of bucket summaries = elim (get bucket summaries) [
    | none ↦ empty_bucket bucket
    | some s ↦ s
  ]

  -- The loop over the sorted buckets.
  unfoldable pub bucket_mismatches :
      Dict BucketSummary → Dict BucketSummary → List String → List BucketMismatch
  unfolding summary_of mismatch_reason
  bucket_mismatches source target [] = []
  bucket_mismatches source target (bucket ∷ buckets) =
      let source_summary = summary_of bucket source in
      let target_summary = summary_of bucket target in
      let rest = bucket_mismatches source target buckets in
      if source_summary.fingerprint == target_summary.fingerprint
      then rest
      else record {
        bucket = bucket;
        reason = mismatch_reason source_summary target_summary;
        source = source_summary;
        target = target_summary;
      }
        ∷ rest

  unfoldable pub compare_normalized : Dict BucketSummary → Dict BucketSummary → List BucketMismatch
  unfolding bucket_mismatches sorted_texts
  compare_normalized source target =
      bucket_mismatches source target (sorted_texts (keys source ++ keys target))

  unfoldable pub compare_bucket_summaries :
      List Row → List Row → Outcome (Dict BucketSummary × Dict BucketSummary × List BucketMismatch)
  unfolding normalize_bucket_summaries compare_normalized
  compare_bucket_summaries source_rows target_rows = do
    source ← normalize_bucket_summaries source_rows
    target ← normalize_bucket_summaries target_rows
    ok (source, target, compare_normalized source target)

abbrev pub buckets_of : List BucketMismatch → List String
buckets_of [] = []
buckets_of (m ∷ ms) = m.bucket ∷ buckets_of ms

unfoldable pub mismatched_bucket_keys : List BucketMismatch → List String
unfolding sorted_texts
mismatched_bucket_keys mismatches = sorted_texts (buckets_of mismatches)

abbrev pub summary_json : BucketSummary → Json
summary_json s = object (
    field "bucket" (text s.bucket) (
      field "count" (integer s.count) (
        field "total_amount_cents" (integer s.total_amount_cents) (
          field "version_sum" (integer s.version_sum) (
            field "source_watermark" (scalar s.source_watermark)
              (field "fingerprint" (text s.fingerprint) no_fields))))))

abbrev pub bucket_mismatch_json : BucketMismatch → Json
bucket_mismatch_json m = object (
    field "bucket" (text m.bucket) (
      field "reason" (text m.reason) (
        field "source" (summary_json m.source) (field "target" (summary_json m.target) no_fields))))

unfoldable pub checksum_tree_evidence : ℕ → ℕ → ℕ → List BucketMismatch → ℕ → ℕ → Json
checksum_tree_evidence prefix_length source_buckets target_buckets mismatches source_rows
      target_rows =
    object (
      field "mode" (text "prefix-bucket-checksum") (
        field "bucket_key" (text "id_prefix") (
          field "prefix_length" (number prefix_length) (
            field "source_bucket_count" (number source_buckets) (
              field "target_bucket_count" (number target_buckets) (
                field "mismatched_bucket_count" (number (length mismatches)) (
                  field "mismatched_buckets" (list (map bucket_mismatch_json (take 25 mismatches)))
                    (field "drilldown"
                      (object (
                        field "strategy" (text "fetch-only-mismatched-buckets") (
                          field "source_rows" (number source_rows)
                            (field "target_rows" (number target_rows) no_fields))))
                      (field "fingerprint_fields"
                        (list (text "count" ∷ text "total_amount_cents" ∷ text "version_sum" ∷ []))
                        no_fields)))))))))
