-- ===== src/Scan/Complete.antt =====
-- A scan reads every row behind the key that it starts from, each once and in order.
use mathlib.Core.Path.{subst}
use kube_data_guard.Common.{
  ℕ, zero, suc, ◌<◌, ◌≡◌, refl, sym, ap, ◌∙◌, inl, inr, Bool, true, false, none, some, String, List,
  [], ◌∷◌, ◌++◌, length, take, drop, All, arith, Bool-cases, take-append-drop, length-drop,
  if◌then◌else◌,
}
use kube_data_guard.Common.Int.{pos, ltb_ℤ}
use kube_data_guard.Python.{ok, ◌>>=◌, Value, is_none, cell, get, Row}
use kube_data_guard.Scan.{
  ScanArgs, ScanState, ScanEnd, PageRequest, mark_page, take_page, page_request, is_short, ended,
  scan_pages,
}
use kube_data_guard.Scan.Ordered.{
  append_assoc, append-nil, IsOrdered, rows_above, last_key_of, rows_above-page,
  last_key_of-is_none, page-IsKeyed, take_rows-ok,
}

take_short : {A : Type 0} (n : ℕ) (xs : List A) → length (take n xs) < n → take n xs ≡ xs
take_short zero xs h = absurd (omega arith)
take_short (suc n) [] h = refl
take_short (suc n) (x ∷ xs) h = ap (λ l. x ∷ l) (take_short n xs (omega arith))

shorter :
    (a : ScanArgs) (n : ℕ) (x : Row) (page : List Row)
    → a.page_size ≡ suc n
    → is_short a (x ∷ page) ≡ true
    → length page < n
unfolding is_short
shorter a n x page e h = ground arith

-- How the database answers a page's query: with the first rows of the table in the order of the key,
-- of those above the key that the query names where it names one.
pub record Answers (gt : Value → Value → Bool) (key_field : String) (fetch : PageRequest → List Row)
    (table : List Row) : Type 0 where
  pub first_page : (r : PageRequest) → r.after ≡ none → fetch r ≡ take r.limit table
  pub page_above :
      (r : PageRequest) (k : Value)
      → r.after ≡ some k
      → fetch r ≡ take r.limit (rows_above gt key_field k table)

module _ (fetch : PageRequest → List Row) (a : ScanArgs) (n : ℕ) (sized : a.page_size ≡ suc n)
    (unlimited : ltb_ℤ (pos 0) a.max_pages ≡ false) where
  step_empty :
      (fuel : ℕ) (s : ScanState)
      → fetch (page_request a s.last_key) ≡ []
      → scan_pages fetch a (suc fuel) s ≡ some (ok (ended true "exhausted" s))
  unfolding scan_pages
  step_empty fuel s e = rw (scan_pages, unlimited, e) refl

  step_last :
      (fuel : ℕ) (s s' : ScanState) (row : Row) (page : List Row)
      → fetch (page_request a s.last_key) ≡ row ∷ page
      → take_page a (row ∷ page) s ≡ ok s'
      → is_short a (row ∷ page) ≡ true
      → scan_pages fetch a (suc fuel) s ≡ some (ok (ended true "exhausted" s'))
  unfolding scan_pages
  step_last fuel s s' row page e t l = rw (scan_pages, unlimited, e, t, e, l) refl

  step_next :
      (fuel : ℕ) (s s' : ScanState) (row : Row) (page : List Row)
      → fetch (page_request a s.last_key) ≡ row ∷ page
      → take_page a (row ∷ page) s ≡ ok s'
      → is_short a (row ∷ page) ≡ false
      → scan_pages fetch a (suc fuel) s ≡ scan_pages fetch a fuel s'
  unfolding scan_pages
  step_next fuel s s' row page e t l = rw (scan_pages, unlimited, e, t, e, l) refl

take_page-ok :
    (gt : Value → Value → Bool) (a : ScanArgs) (page : List Row) (s : ScanState)
    → All (λ row. get a.key_field row ≡ some (cell a.key_field row)) page
    → (s' : ScanState) × (take_page a page s ≡ ok s')
      × (s'.rows ≡ s.rows ++ page)
      × (s'.last_key ≡ last_key_of gt a.key_field s.last_key page)
unfolding take_page mark_page
take_page-ok gt a page s h =
    let (read, e, r, l) = take_rows-ok gt a.key_field page (record s { pages = suc s.pages }) h in
    (mark_page a read, ap (λ m. m >>= λ z. ok (mark_page a z)) e, r, l)

module _ (gt : Value → Value → Bool) (fetch : PageRequest → List Row) (table : List Row)
    (a : ScanArgs) (n : ℕ) (sized : a.page_size ≡ suc n)
    (unlimited : ltb_ℤ (pos 0) a.max_pages ≡ false) (answers : Answers gt a.key_field fetch table)
    (ordered : IsOrdered gt a.key_field table) where
  fetch_next :
      (pre : List Row) (x : Row) (page post : List Row) (v : Value)
      → v ≡ last_key_of gt a.key_field (cell a.key_field x) page
      → table ≡ pre ++ ((x ∷ page) ++ post)
      → fetch (page_request a v) ≡ take (suc n) post
  fetch_next pre x page post v l split =
      let o = subst (IsOrdered gt a.key_field) split ordered in
      let k = last_key_of gt a.key_field (cell a.key_field x) page in
      let named : is_none v ≡ false =
        ap is_none l ∙ last_key_of-is_none gt a.key_field pre x page post o in
      let above : rows_above gt a.key_field v table ≡ post =
        ap (λ w. rows_above gt a.key_field w table) l
        ∙ ap (rows_above gt a.key_field k) split
        ∙ rows_above-page gt a.key_field pre x page post o in
      answers.page_above (page_request a v) v (ap (λ b. if b then none else some v) named)
      ∙ ap (λ m. take m (rows_above gt a.key_field v table)) sized
      ∙ ap (take (suc n)) above

  scan_pages-rest :
      (fuel : ℕ) (pre rest : List Row) (s : ScanState)
      → table ≡ pre ++ rest
      → length rest < fuel
      → fetch (page_request a s.last_key) ≡ take (suc n) rest
      → (e : ScanEnd) × (scan_pages fetch a fuel s ≡ some (ok e))
        × (e.state.rows ≡ s.rows ++ rest)
        × (e.completed ≡ true)
  scan_pages-rest zero pre rest s t f p = absurd (omega arith)
  scan_pages-rest (suc fuel) pre [] s t f p = (
    ended true "exhausted" s,
    step_empty fetch a n sized unlimited fuel s p,
    sym (append-nil s.rows),
    refl,
  )
  scan_pages-rest (suc fuel) pre (x ∷ xs) s t f p =
      let page = x ∷ take n xs in
      let cut = take-append-drop n xs in
      let split : table ≡ pre ++ (page ++ drop n xs) = t ∙ ap (λ l. pre ++ (x ∷ l)) (sym cut) in
      let split_ordered = subst (IsOrdered gt a.key_field) split ordered in
      let (s', e, r, l) =
        take_page-ok gt a page s (page-IsKeyed gt a.key_field pre page (drop n xs) split_ordered) in
      elim (Bool-cases (is_short a page)) [
        | inl short ↦ (
          ended true "exhausted" s',
          step_last fetch a n sized unlimited fuel s s' x (take n xs) p e short,
          r ∙ ap (λ l. s.rows ++ (x ∷ l)) (take_short n xs (shorter a n x (take n xs) sized short)),
          refl,
        )
        | inr full ↦
            let (done, g, rows, c) =
              scan_pages-rest fuel (pre ++ page) (drop n xs) s'
                (split ∙ sym (append_assoc pre page (drop n xs))) (omega (arith, length-drop n xs))
                (fetch_next pre x (take n xs) (drop n xs) s'.last_key l split) in
            (
              done,
              step_next fetch a n sized unlimited fuel s s' x (take n xs) p e full ∙ g,
              rows
                  ∙ ap (λ l. l ++ drop n xs) r
                  ∙ append_assoc s.rows page (drop n xs)
                  ∙ ap (λ l. s.rows ++ (x ∷ l)) cut,
              c,
            )
      ]

  -- A scan from the start, without a limit on its pages, over a table with different keys that are not
  -- null, ends with more fuel than the table has rows; it is complete and has read the table, each row
  -- once and in order.
  pub scan_pages-whole :
      (fuel : ℕ) (s : ScanState)
      → length table < fuel
      → is_none s.last_key ≡ true
      → s.rows ≡ []
      → (e : ScanEnd) × (scan_pages fetch a fuel s ≡ some (ok e))
        × (e.state.rows ≡ table)
        × (e.completed ≡ true)
  scan_pages-whole fuel s f start none_read =
      let (e, g, r, c) = scan_pages-rest fuel [] table s refl f (
        answers.first_page (page_request a s.last_key)
          (ap (λ b. if b then none else some s.last_key) start)
        ∙ ap (λ m. take m table) sized) in
      (e, g, r ∙ ap (λ l. l ++ table) none_read, c)

  -- A scan that resumes after the key of a row of the table, without a limit on its pages and with pages
  -- of at least one row, of a database that answers a page's query with the first rows above its key, over
  -- a table whose keys are different and not null: with more fuel than there are rows behind that row it
  -- ends, complete, and has read exactly those, in order.
  pub scan_pages-resumed :
      (fuel : ℕ) (pre : List Row) (row : Row) (post : List Row) (s : ScanState)
      → table ≡ pre ++ row ∷ post
      → length post < fuel
      → s.last_key ≡ cell a.key_field row
      → s.rows ≡ []
      → (e : ScanEnd) × (scan_pages fetch a fuel s ≡ some (ok e))
        × (e.state.rows ≡ post)
        × (e.completed ≡ true)
  scan_pages-resumed fuel pre row post s t f k none_read =
      let (e, g, r, c) =
        scan_pages-rest fuel (pre ++ row ∷ []) post s (t ∙ sym (append_assoc pre (row ∷ []) post)) f
          (fetch_next pre row [] post s.last_key k t) in
      (e, g, r ∙ ap (λ l. l ++ post) none_read, c)
