-- ===== src/Scan/Whole.antt =====
-- A scan called with valid arguments reads the whole table.
use mathlib.Core.Path.{subst}
use kube_data_guard.Common.{
  not, ◌==◌, ℕ, zero, suc, ◌<◌, ◌≡◌, refl, sym, ap, ◌∙◌, inl, inr, Bool, true, false, some, String,
  List, length, arith, Bool-cases, if◌then◌else◌,
}
use kube_data_guard.Common.Int.{ℤ, pos, negsuc, pos_part, ltb_ℤ}
use kube_data_guard.Python.{
  ok, >>=-eq-ok, guard, value_error, Value, none_value, truthy, to_int, Row, JsonFields,
}
use kube_data_guard.Scan.{
  or_raise, min_ℤ, bounded_int, bounded_source_scan_page_size, normalized_source_query,
  quote_identifier, strip, PageRequest, ScanArgs, ScanEnd, scan_args, scan_start,
  query_scan_evidence, execute_source_query_keyset,
}
use kube_data_guard.Scan.Ordered.{IsOrdered}
use kube_data_guard.Scan.Complete.{Answers, scan_pages-whole}

positive : (i : ℤ) → ltb_ℤ i (pos 1) ≡ false → (n : ℕ) × (pos_part i ≡ suc n)
positive (pos zero) e = absurd (ground arith)
positive (pos (suc n)) e = (n, refl)
positive (negsuc n) e = absurd (ground arith)

min_positive :
    (p most : ℤ)
    → ltb_ℤ p (pos 1) ≡ false
    → ltb_ℤ most (pos 1) ≡ false
    → (n : ℕ) × (pos_part (min_ℤ p most) ≡ suc n)
min_positive p most a b = elim (Bool-cases (ltb_ℤ most p)) [
  | inl l ↦ let (n, e) = positive most b in (n, ap (λ t. pos_part (if t then most else p)) l ∙ e)
  | inr l ↦ let (n, e) = positive p a in (n, ap (λ t. pos_part (if t then most else p)) l ∙ e)
]

bounded_int-positive :
    (x y : String) (most : ℤ) (v : Value) (size : ℤ)
    → ltb_ℤ most (pos 1) ≡ false
    → bounded_int x y most v ≡ ok size
    → (n : ℕ) × (pos_part size ≡ suc n)
unfolding bounded_int
bounded_int-positive x y most v size b e =
    let (p, q, e') = >>=-eq-ok (or_raise (to_int v) (value_error x)) _ e in
    elim (Bool-cases (ltb_ℤ p (pos 1))) [
      | inl low ↦ absurd (cc (rw low at e'))
      | inr fine ↦
          let made : ok (min_ℤ p most) ≡ ok size = rw fine at e' in
          let same : min_ℤ p most ≡ size = cc in
          let (n, f) = min_positive p most fine b in (n, ap pos_part (sym same) ∙ f)
    ]

-- What the checked arguments are.
abbrev pub Checked : String → ℤ → ScanArgs → Type 0
Checked key_field max_pages a =
    (n : ℕ) × (a.page_size ≡ suc n) × (a.max_pages ≡ max_pages) × (a.key_field ≡ key_field)

made-Checked :
    (made a : ScanArgs) (n : ℕ)
    → made.page_size ≡ suc n
    → ok made ≡ ok a
    → Checked made.key_field made.max_pages a
made-Checked made a n s e =
    let same : made ≡ a = cc in
    (
      n,
      ap (λ (b : ScanArgs). b.page_size) (sym same) ∙ s,
      ap (λ (b : ScanArgs). b.max_pages) (sym same),
      ap (λ (b : ScanArgs). b.key_field) (sym same),
    )

pub scan_args-Checked :
    (query key_field : String) (page_size resume : Value) (max_pages : ℤ) (a : ScanArgs)
    → scan_args query key_field page_size resume max_pages ≡ ok a
    → Checked key_field max_pages a
unfolding scan_args bounded_source_scan_page_size
scan_args-Checked query key_field page_size resume max_pages a e =
    let (u, p, e1) =
      >>=-eq-ok (guard (not (strip query == "")) (value_error "source query is required")) _ e in
    let (size, b, e2) = >>=-eq-ok (bounded_source_scan_page_size page_size) _ e1 in
    let (source_query, c, e3) = >>=-eq-ok (normalized_source_query query) _ e2 in
    let (quoted_key, d, e4) = >>=-eq-ok (quote_identifier key_field) _ e3 in
    let (n, s) = bounded_int-positive _ _ (pos 5000) page_size size refl b in
    made-Checked
      (record {
        source_query = source_query;
        quoted_key = quoted_key;
        key_field = key_field;
        page_size = pos_part size;
        resume_after_key = resume;
        max_pages = max_pages;
      })
      a n s e4

-- A scan that its caller starts without a key to resume after and without a limit on the pages, with
-- arguments that pass their checks, of a database that answers a page's query with the first rows above
-- its key, over a table whose keys are different and not null: with more fuel than the table has rows it
-- returns, complete, with the rows of the table, each once and in order.
pub execute_source_query_keyset-whole :
    (gt : Value → Value → Bool) (fetch : PageRequest → List Row) (table : List Row) (fuel : ℕ)
    (query key_field : String) (page_size : Value) (max_pages : ℤ) (a : ScanArgs)
    → scan_args query key_field page_size none_value max_pages ≡ ok a
    → ltb_ℤ (pos 0) max_pages ≡ false
    → Answers gt key_field fetch table
    → IsOrdered gt key_field table
    → length table < fuel
    → (e : ScanEnd) × (evidence : JsonFields) × (execute_source_query_keyset fetch fuel query
          key_field page_size none_value max_pages
        ≡ some (ok (e, evidence)))
      × (e.state.rows ≡ table)
      × (e.completed ≡ true)
unfolding execute_source_query_keyset truthy
execute_source_query_keyset-whole gt fetch table fuel query key_field page_size max_pages a c l
      answers o f =
    let (n, s, m, k) = scan_args-Checked query key_field page_size none_value max_pages a c in
    let (e, g, rows, done) =
      scan_pages-whole gt fetch table a n s (ap (λ p. ltb_ℤ (pos 0) p) m ∙ l)
        (subst (λ key. Answers gt key fetch table) (sym k) answers)
        (subst (λ key. IsOrdered gt key table) (sym k) o) fuel (scan_start none_value) f refl
        refl in
    (
      e,
      query_scan_evidence a e.state e.completed e.stop_reason,
      rw (execute_source_query_keyset, c, g) refl,
      rows,
      done,
    )
