-- ===== src/Invariants/Checksum/Exact.antt =====
-- The checksum check finds no drift exactly where the buckets and the drilled rows agree.
use kube_data_guard.Common.{
  ℕ, ◌+◌, ◌≡◌, ◌≢◌, refl, sym, ap, ◌∙◌, inl, inr, ◌↔◌, ◌==◌, eq_iff, true, false, some, String,
  List, [], ◌∷◌, length, All, Has, here, arith, Bool-cases, Option-cases, is_empty, nil_of_is_empty,
  All-map, length-map,
}
use kube_data_guard.Python.{
  Outcome, ok, >>=-eq-ok, traverse, traverse-Yields, Value, value_text, Dict, Row, get, require,
  get-require, require-get,
}
use kube_data_guard.Merkle.{
  BucketSummary, BucketMismatch, summary_of, compare_normalized, compare_bucket_summaries,
  normalize_bucket_summaries, buckets_of,
}
use kube_data_guard.Merkle.Compare.{mismatches_exact}
use kube_data_guard.Invariants.Report.{DriftReport, drift_count, healthy}
use kube_data_guard.Invariants.Status.Counts.{healthy_iff}
use kube_data_guard.Invariants.Verdict.{Verdict, agrees}
use kube_data_guard.Invariants.Verdict.Laws.{findings, no_findings-All, All-no_findings}
use kube_data_guard.Invariants.Window.{WindowArgs}
use kube_data_guard.Invariants.Existence.{order_fields, compare_order_fields}
use kube_data_guard.Invariants.Existence.Exact.{SameFields, SameFields-of_nil, differing_fields-nil}
use kube_data_guard.Invariants.Query.{index_rows}
use kube_data_guard.Invariants.Query.Exact.{last_keyed, get-index_rows}
use kube_data_guard.Invariants.Checksum.{
  ChecksumInput, judge_in_bucket, judge_bucket_row, bucket_item, checksum_report,
  compare_paid_order_checksum_buckets,
}

-- What the check asks of a source row of a bad bucket: the last target row with its identifier agrees
-- with it on status, amount, currency and version.
pub record IsDrilled (targets : List Row) (source : Row) : Type 0 where
  pub order_id : Value
  pub target : Row
  pub identified : get "id" source ≡ some order_id
  pub found : last_keyed "id" (value_text order_id) targets ≡ some target
  pub same : SameFields source target order_fields

module _ (n : ℕ) (targets : List Row) where
  abbrev judge : Row → Outcome Verdict
  judge = judge_bucket_row n (index_rows "id" targets [])

  IsDrilled-of_agrees : (source : Row) → judge source ≡ ok agrees → IsDrilled targets source
  unfolding judge_bucket_row judge_in_bucket compare_order_fields
  IsDrilled-of_agrees source e =
      let (order_id, p, e') = >>=-eq-ok (require "id" source) _ e in
      let k = value_text order_id in
      elim (Option-cases (get k (index_rows "id" targets []))) [
        | inl absent ↦ absurd (cc (rw absent at e'))
        | inr (target, present) ↦
            elim (Bool-cases (is_empty (compare_order_fields source target))) [
              | inl equal ↦ record {
                order_id = order_id;
                target = target;
                identified = get-require "id" source p;
                found = sym (get-index_rows "id" k targets) ∙ present;
                same = SameFields-of_nil source target order_fields (nil_of_is_empty _ equal);
              }
              | inr differ ↦ absurd (cc (rw (present, differ) at e'))
            ]
      ]

  agrees_of_IsDrilled : (source : Row) → IsDrilled targets source → judge source ≡ ok agrees
  unfolding judge_bucket_row judge_in_bucket compare_order_fields
  agrees_of_IsDrilled source s =
      rw
        (
          require-get "id" source s.identified,
          get-index_rows "id" (value_text s.order_id) targets ∙ s.found,
          differing_fields-nil source s.target order_fields s.same,
        )
        refl

differs : (a b : String) → (a == b) ≡ false → a ≢ b
differs a b e q = ground (arith, eq_iff a b, q)

module _ (sha256_hex : String → String) (source target : Dict BucketSummary) where
  -- The summaries of every bucket have equal fingerprints on the two sides.
  abbrev pub SameBuckets : Type 0
  SameBuckets =
      (b : String)
      → (summary_of sha256_hex b source).fingerprint ≡ (summary_of sha256_hex b target).fingerprint

  nil_of_buckets :
      (ms : List BucketMismatch) → ((b : String) → Has b (buckets_of ms) → ⊥) → length ms ≡ 0
  nil_of_buckets [] h = refl
  nil_of_buckets (m ∷ ms) h = absurd (h m.bucket (here refl))

  not_Has_nil : (ms : List BucketMismatch) (b : String) → length ms ≡ 0 → Has b (buckets_of ms) → ⊥
  not_Has_nil [] b e h = elim h [ ]
  not_Has_nil (m ∷ ms) b e h = absurd (omega arith)

  no_mismatches_iff : (length (compare_normalized sha256_hex source target) ≡ 0) ↔ SameBuckets
  no_mismatches_iff =
      let exact = (mismatches_exact sha256_hex source target).1 in
      let left = λ (b : String). (summary_of sha256_hex b source).fingerprint in
      let right = λ (b : String). (summary_of sha256_hex b target).fingerprint in
      (
        λ e b. elim (Bool-cases (left b == right b)) [
          | inl same ↦ (eq_iff (left b) (right b)).0 same
          | inr differ ↦ absurd (
              not_Has_nil (compare_normalized sha256_hex source target) b e
                ((exact b).1 (λ q. differs (left b) (right b) differ q)))
        ],
        λ h.
            nil_of_buckets (compare_normalized sha256_hex source target)
              (λ b m. (exact b).0 m (h b)),
      )

module _ (sha256_hex : String → String) (args : WindowArgs) (input : ChecksumInput) where
  drift-checksum :
      (s t : Dict BucketSummary) (ms : List BucketMismatch) (vs : List Verdict)
      → drift_count (checksum_report args input s t ms vs) ≡ findings vs + length ms
  unfolding checksum_report drift_count
  drift-checksum s t ms vs = omega (arith, length-map bucket_item ms)

  summarized :
      (s t : Dict BucketSummary)
      → normalize_bucket_summaries sha256_hex input.source_buckets ≡ ok s
      → normalize_bucket_summaries sha256_hex input.target_buckets ≡ ok t
      → compare_bucket_summaries sha256_hex input.source_buckets input.target_buckets
        ≡ ok (s, t, compare_normalized sha256_hex s t)
  unfolding compare_bucket_summaries
  summarized s t a b = rw (a, b) refl

  -- With the summaries of the two sides read, and where the check succeeds, its report is healthy exactly
  -- when every bucket has equal fingerprints on the two sides and every source row that the drilldown
  -- fetched is found under its identifier among the target rows, the last one so found having equal
  -- status, amount, currency and version.
  pub checksum_healthy_iff :
      (s t : Dict BucketSummary) (r : DriftReport)
      → normalize_bucket_summaries sha256_hex input.source_buckets ≡ ok s
      → normalize_bucket_summaries sha256_hex input.target_buckets ≡ ok t
      → compare_paid_order_checksum_buckets sha256_hex args input ≡ ok r
      → (healthy r ≡ true)
        ↔ (SameBuckets sha256_hex s t × All (IsDrilled input.target_rows) input.source_rows)
  unfolding compare_paid_order_checksum_buckets
  checksum_healthy_iff s t r a b e =
      let ms = compare_normalized sha256_hex s t in
      let f = judge input.prefix_length input.target_rows in
      let e1 = rw (summarized s t a b) at e in
      let (vs, p, q) =
        >>=-eq-ok (traverse f input.source_rows) (λ vs. ok (checksum_report args input s t ms vs))
          e1 in
      let made : checksum_report args input s t ms vs ≡ r = cc in
      let ys = traverse-Yields f input.source_rows vs p in
      let count : drift_count r ≡ findings vs + length ms =
        ap drift_count (sym made) ∙ drift-checksum s t ms vs in
      let (no_mismatch, same) = no_mismatches_iff sha256_hex s t in
      (
        λ h.
            let none_found : findings vs + length ms ≡ 0 = sym count ∙ ((healthy_iff r).0 h).1 in
            (
              no_mismatch (omega (arith, none_found)),
              All-map (λ row. f row ≡ ok agrees) (IsDrilled input.target_rows) input.source_rows
                  (IsDrilled-of_agrees input.prefix_length input.target_rows)
                  (no_findings-All f ys (omega (arith, none_found))),
            ),
        λ h.
            let zero_found = All-no_findings f ys (
              All-map (IsDrilled input.target_rows) (λ row. f row ≡ ok agrees) input.source_rows
                (agrees_of_IsDrilled input.prefix_length input.target_rows) h.1) in
            (healthy_iff r).1
              (ap (λ s. s.check_status) (sym made), count ∙ omega (arith, zero_found, same h.0)),
      )
