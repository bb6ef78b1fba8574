-- ===== src/Merkle/Compare.antt =====
-- Which buckets a comparison of summaries lists.
use mathlib.Core.Path.{subst}
use kube_data_guard.Common.{
  ◌≡◌, ◌≢◌, refl, sym, ap, ◌∙◌, ◌==◌, eq_iff, inl, inr, ◌⊎◌, ◌↔◌, true, none, String, List, [], ◌∷◌,
  ◌++◌, All, All-at, Has, here, there, Has-append_left, Has-append_right, Bool-cases, text_lt,
}
use kube_data_guard.Python.{Dict, get, sorted_texts}
use kube_data_guard.Python.Order.{IsIncreasing, sorted_texts-IsIncreasing, Has-sorted_texts}
use kube_data_guard.Merkle.{
  BucketSummary, keys, empty_bucket, summary_of, bucket_mismatches, compare_normalized, buckets_of,
}

known {ℓ} : {V : Type ℓ} (k : String) (d : Dict V) → (get k d ≡ none) ⊎ Has k (keys d)
unfolding get
known k [] = inl refl
known k ((j, v) ∷ d) = elim (Bool-cases (j == k)) [
  | inl e ↦ inr (here (sym ((eq_iff j k).0 e)))
  | inr e ↦ elim (known k d) [ inl n ↦ inl (rw e n) | inr m ↦ inr (there m) ]
]

summary_of-absent :
    (sha256_hex : String → String) (b : String) (d : Dict BucketSummary)
    → get b d ≡ none
    → summary_of sha256_hex b d ≡ empty_bucket sha256_hex b
unfolding summary_of
summary_of-absent sha256_hex b d e = rw (e, summary_of) refl

module _ (sha256_hex : String → String) (source target : Dict BucketSummary) where
  abbrev left : String → BucketSummary
  left b = summary_of sha256_hex b source

  abbrev right : String → BucketSummary
  right b = summary_of sha256_hex b target

  All-buckets_of :
      (P : String → Type 0) (bs : List String)
      → All P bs
      → All P (buckets_of (bucket_mismatches sha256_hex source target bs))
  unfolding bucket_mismatches
  All-buckets_of P [] h = tt
  All-buckets_of P (b ∷ bs) h = elim (Bool-cases ((left b).fingerprint == (right b).fingerprint)) [
    | inl e ↦ rw e (All-buckets_of P bs h.1)
    | inr e ↦ rw e (h.0, All-buckets_of P bs h.1)
  ]

  mismatches-IsIncreasing :
      (bs : List String)
      → IsIncreasing bs
      → IsIncreasing (buckets_of (bucket_mismatches sha256_hex source target bs))
  unfolding bucket_mismatches
  mismatches-IsIncreasing [] h = tt
  mismatches-IsIncreasing (b ∷ bs) h =
      elim (Bool-cases ((left b).fingerprint == (right b).fingerprint)) [
        | inl e ↦ rw e (mismatches-IsIncreasing bs h.1)
        | inr e ↦
            rw e (All-buckets_of (λ c. text_lt b c ≡ true) bs h.0, mismatches-IsIncreasing bs h.1)
      ]

  Has-buckets_of :
      (b : String) (bs : List String)
      → Has b bs
      → (left b).fingerprint ≢ (right b).fingerprint
      → Has b (buckets_of (bucket_mismatches sha256_hex source target bs))
  unfolding bucket_mismatches
  Has-buckets_of b [] m d = elim m [ ]
  Has-buckets_of b (c ∷ bs) (here e) d =
      elim (Bool-cases ((left c).fingerprint == (right c).fingerprint)) [
        | inl same ↦
            absurd
              (subst (λ k. (left k).fingerprint ≢ (right k).fingerprint) e d ((eq_iff _ _).0 same))
        | inr differ ↦ rw differ (here e)
      ]
  Has-buckets_of b (c ∷ bs) (there m) d =
      elim (Bool-cases ((left c).fingerprint == (right c).fingerprint)) [
        | inl same ↦ rw same (Has-buckets_of b bs m d)
        | inr differ ↦ rw differ (there (Has-buckets_of b bs m d))
      ]

  mismatches_differ :
      (bs : List String)
      → All
          (λ b. (left b).fingerprint ≢ (right b).fingerprint)
          (buckets_of (bucket_mismatches sha256_hex source target bs))
  unfolding bucket_mismatches
  mismatches_differ [] = tt
  mismatches_differ (b ∷ bs) = elim (Bool-cases ((left b).fingerprint == (right b).fingerprint)) [
    | inl e ↦ rw e (mismatches_differ bs)
    | inr e ↦ rw e (
      (λ p. cc ((eq_iff (left b).fingerprint (right b).fingerprint).1 p, e)),
      mismatches_differ bs,
    )
  ]

  -- A bucket that neither side has is empty on both.
  Has-of_differ :
      (b : String)
      → (left b).fingerprint ≢ (right b).fingerprint
      → Has b (keys source ++ keys target)
  Has-of_differ b d = elim (known b source) [
    | inr m ↦ Has-append_left (keys source) (keys target) m
    | inl n ↦ elim (known b target) [
      | inr m ↦ Has-append_right (keys source) (keys target) m
      | inl k ↦ absurd (
          d (
            ap (λ s. s.fingerprint)
              (summary_of-absent sha256_hex b source n
                ∙ sym (summary_of-absent sha256_hex b target k))))
    ]
  ]

  -- The buckets listed stand in increasing order, each once, and are exactly those whose summaries on
  -- the two sides have different fingerprints, a bucket that one side lacks being empty there.
  pub mismatches_exact :
      IsIncreasing (buckets_of (compare_normalized sha256_hex source target))
      × ((b : String)
          → Has b (buckets_of (compare_normalized sha256_hex source target)) ↔ (
              (summary_of sha256_hex b source).fingerprint
              ≢ (summary_of sha256_hex b target).fingerprint))
  unfolding compare_normalized
  mismatches_exact =
      let bs = sorted_texts (keys source ++ keys target) in
      (
        mismatches-IsIncreasing bs (sorted_texts-IsIncreasing (keys source ++ keys target)),
        λ b. (
          λ m.
              All-at (λ c. (left c).fingerprint ≢ (right c).fingerprint) _ (mismatches_differ bs) m,
          λ d. Has-buckets_of b bs (Has-sorted_texts _ (Has-of_differ b d)) d,
        ),
      )
