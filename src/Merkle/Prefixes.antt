-- ===== src/Merkle/Prefixes.antt =====
-- `summarize_rows_by_prefix`: one summary for each prefix, and no row lost between them.
use kube_data_guard.Common.{
  ℕ, ◌≡◌, refl, sym, ◌∙◌, ap, Bool-cases, inl, inr, ◌==◌, Option, none, some, String, List, [], ◌∷◌,
  length, prefix, text_lt, if◌then◌else◌,
}
use kube_data_guard.Common.Int.{ℤ, pos, ◌+ℤ◌, int_laws, parts}
use kube_data_guard.Python.{
  Outcome, ok, ◌>>=◌, >>=-eq-ok, Value, truthy, value_text, int_or_zero, Dict, Row, get, put,
  require, cell, sorted_texts,
}
use kube_data_guard.Merkle.{keys}

pub record PrefixSummary : Type 0 where
  pub bucket : String
  pub count : ℤ
  pub total_amount_cents : ℤ
  pub version_sum : ℤ
  pub source_watermark : Option String

abbrev pub fresh_summary : String → PrefixSummary
fresh_summary bucket = record {
  bucket = bucket;
  count = pos 0;
  total_amount_cents = pos 0;
  version_sum = pos 0;
  source_watermark = none;
}

abbrev pub or_fresh : String → Option PrefixSummary → PrefixSummary
or_fresh bucket none = fresh_summary bucket
or_fresh bucket (some s) = s

-- The later of the watermark and the row's time, if it has one.
abbrev pub later_watermark : Option String → Value → Option String
later_watermark old updated_at =
    if truthy updated_at
    then elim old [
      | none ↦ some (value_text updated_at)
      | some w ↦ if text_lt w (value_text updated_at) then some (value_text updated_at) else some w
    ]
    else old

abbrev pub add_row : ℤ → ℤ → Value → PrefixSummary → PrefixSummary
add_row amount version updated_at s = record s {
  count = s.count +ℤ pos 1;
  total_amount_cents = s.total_amount_cents +ℤ amount;
  version_sum = s.version_sum +ℤ version;
  source_watermark = later_watermark s.source_watermark updated_at;
}

-- The loop over the rows.
unfoldable pub summarize_from : ℕ → List Row → Dict PrefixSummary → Outcome (Dict PrefixSummary)
unfolding require cell value_text prefix int_or_zero get put truthy text_lt ◌+ℤ◌
summarize_from prefix_length [] buckets = ok buckets
summarize_from prefix_length (row ∷ rows) buckets = do
  row_id ← require "id" row
  let bucket = prefix prefix_length (value_text row_id)
  amount ← int_or_zero (cell "amount_cents" row)
  version ← int_or_zero (cell "version" row)
  summarize_from prefix_length rows (
      put bucket
        (add_row amount version (cell "updated_at" row) (or_fresh bucket (get bucket buckets)))
        buckets)

-- `[buckets[key] for key in names]`
unfoldable pub in_order : List String → Dict PrefixSummary → List PrefixSummary
unfolding get
in_order [] buckets = []
in_order (name ∷ names) buckets = or_fresh name (get name buckets) ∷ in_order names buckets

unfoldable pub summarize_rows_by_prefix : ℕ → List Row → Outcome (List PrefixSummary)
unfolding summarize_from in_order sorted_texts
summarize_rows_by_prefix prefix_length rows = do
  buckets ← summarize_from prefix_length rows []
  ok (in_order (sorted_texts (keys buckets)) buckets)

-- The sum of one number over all the buckets, and of one cell over all the rows.
pub total : (PrefixSummary → ℤ) → Dict PrefixSummary → ℤ
unfolding ◌+ℤ◌
total f [] = pos 0
total f ((k, s) ∷ d) = f s +ℤ total f d

unfoldable pub sum_cells : String → List Row → Outcome ℤ
sum_cells name [] = ok (pos 0)
sum_cells name (row ∷ rows) = do
  i ← int_or_zero (cell name row)
  rest ← sum_cells name rows
  ok (i +ℤ rest)

total-put :
    (f : PrefixSummary → ℤ) (k : String) (v : PrefixSummary) (d : Dict PrefixSummary)
    → f (fresh_summary k) ≡ pos 0
    → total f (put k v d) +ℤ f (or_fresh k (get k d)) ≡ total f d +ℤ f v
unfolding total put get
total-put f k v [] z = omega (int_laws, parts z)
total-put f k v ((j, s) ∷ d) z = elim (Bool-cases (j == k)) [
  | inl e ↦ rw e (omega int_laws)
  | inr e ↦ rw e (omega (int_laws, parts (total-put f k v d z)))
]

-- A number that grows by `x` in the bucket of the row grows by `x` in all.
total-bump :
    (f : PrefixSummary → ℤ) (k : String) (v : PrefixSummary) (d : Dict PrefixSummary) (x : ℤ)
    → f (fresh_summary k) ≡ pos 0
    → f v ≡ f (or_fresh k (get k d)) +ℤ x
    → total f (put k v d) ≡ total f d +ℤ x
total-bump f k v d x z e = omega (int_laws, parts (total-put f k v d z), parts e)

-- One round of the loop.
summarize-cons :
    (n : ℕ) (row : Row) (rows : List Row) (d d' : Dict PrefixSummary)
    → summarize_from n (row ∷ rows) d ≡ ok d'
    → (k : String) × (amount : ℤ) × (version : ℤ) × (int_or_zero (cell "amount_cents" row)
        ≡ ok amount)
      × (int_or_zero (cell "version" row) ≡ ok version)
      × (summarize_from n rows
            (put k (add_row amount version (cell "updated_at" row) (or_fresh k (get k d))) d)
          ≡ ok d')
unfolding summarize_from
summarize-cons n row rows d d' e =
    let (row_id, p, e1) = >>=-eq-ok (require "id" row) _ e in
    let (amount, q, e2) = >>=-eq-ok (int_or_zero (cell "amount_cents" row)) _ e1 in
    let (version, r, e3) = >>=-eq-ok (int_or_zero (cell "version" row)) _ e2 in
    (prefix n (value_text row_id), amount, version, q, r, e3)

sum_cells-cons :
    (name : String) (row : Row) (rows : List Row) (i a : ℤ)
    → int_or_zero (cell name row) ≡ ok i
    → sum_cells name (row ∷ rows) ≡ ok a
    → (rest : ℤ) × (sum_cells name rows ≡ ok rest) × (a ≡ i +ℤ rest)
unfolding sum_cells
sum_cells-cons name row rows i a p e =
    let (j, q, e1) = >>=-eq-ok (int_or_zero (cell name row)) _ e in
    let (rest, r, e2) = >>=-eq-ok (sum_cells name rows) _ e1 in
    let same : j ≡ i = cc in
    let sum : j +ℤ rest ≡ a = cc in (rest, r, sym sum ∙ ap (λ k. k +ℤ rest) same)

summarize_from_sums :
    (n : ℕ) (rows : List Row) (d d' : Dict PrefixSummary) (a v : ℤ)
    → summarize_from n rows d ≡ ok d'
    → sum_cells "amount_cents" rows ≡ ok a
    → sum_cells "version" rows ≡ ok v
    → (total (λ s. s.count) d' ≡ total (λ s. s.count) d +ℤ pos (length rows))
      × (total (λ s. s.total_amount_cents) d' ≡ total (λ s. s.total_amount_cents) d +ℤ a)
      × (total (λ s. s.version_sum) d' ≡ total (λ s. s.version_sum) d +ℤ v)
unfolding summarize_from sum_cells
summarize_from_sums n [] d d' a v e p q =
    let same : d ≡ d' = cc in
    let zero_a : pos 0 ≡ a = cc in
    let zero_v : pos 0 ≡ v = cc in
    rw (← same) (
      omega (int_laws, parts zero_a),
      omega (int_laws, parts zero_a),
      omega (int_laws, parts zero_v),
    )
summarize_from_sums n (row ∷ rows) d d' a v e p q =
    let (k, amount, version, x, y, e') = summarize-cons n row rows d d' e in
    let (a', p', a_sum) = sum_cells-cons "amount_cents" row rows amount a x p in
    let (v', q', v_sum) = sum_cells-cons "version" row rows version v y q in
    let s = add_row amount version (cell "updated_at" row) (or_fresh k (get k d)) in
    let (h1, h2, h3) = summarize_from_sums n rows (put k s d) d' a' v' e' p' q' in
    let g1 = total-bump (λ s. s.count) k s d (pos 1) refl refl in
    let g2 = total-bump (λ s. s.total_amount_cents) k s d amount refl refl in
    let g3 = total-bump (λ s. s.version_sum) k s d version refl refl in
    (
      omega (int_laws, parts h1, parts g1),
      omega (int_laws, parts h2, parts g2, parts a_sum),
      omega (int_laws, parts h3, parts g3, parts v_sum),
    )

-- Summing up rows by prefix loses nothing: over all the buckets together the counts make the number
-- of rows, the amounts the sum of the rows' amounts, and the versions the sum of their versions.
pub summarize_conserves :
    (prefix_length : ℕ) (rows : List Row) (buckets : Dict PrefixSummary) (amounts versions : ℤ)
    → summarize_from prefix_length rows [] ≡ ok buckets
    → sum_cells "amount_cents" rows ≡ ok amounts
    → sum_cells "version" rows ≡ ok versions
    → (total (λ s. s.count) buckets ≡ pos (length rows))
      × (total (λ s. s.total_amount_cents) buckets ≡ amounts)
      × (total (λ s. s.version_sum) buckets ≡ versions)
unfolding total
summarize_conserves n rows d a v e p q =
    let (h1, h2, h3) = summarize_from_sums n rows [] d a v e p q in
    (omega (int_laws, parts h1), omega (int_laws, parts h2), omega (int_laws, parts h3))
