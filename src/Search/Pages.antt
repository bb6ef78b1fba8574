-- ===== src/Search/Pages.antt =====
-- The paging of a target query reads every hit.
use mathlib.Core.Path.{subst}
use kube_data_guard.Common.{
  ◌≡◌, refl, sym, ap, ◌∙◌, inl, inr, arith, ℕ, zero, suc, ◌<◌, ◌≤◌, true, false, some, String, List,
  [], ◌∷◌, ◌++◌, map, length, take, drop, is_empty, ltb, All, All-at, Has, here, Has-append_right,
  take-append-drop, length-drop, map-append, Bool-cases,
}
use kube_data_guard.Python.{Outcome, ok, Value, Row, JsonFields}
use kube_data_guard.Scan.Ordered.{append_assoc, append-nil}
use kube_data_guard.Search.{Hit, hit_row, last_sort, page_body, search_pages, paginated_search}

-- A search whose hits have sort values answers a page's request by the next hits: the first ones where no
-- hit was read, and those behind a hit where its sort values are given.
pub record Serves (search : JsonFields → Outcome (List Hit)) (body : JsonFields) (page_size : ℕ)
    (hits : List Hit) : Type 0 where
  pub first : search (page_body body page_size []) ≡ ok (take page_size hits)
  pub behind :
      (before : List Hit) (h : Hit) (after : List Hit)
      → hits ≡ before ++ h ∷ after
      → search (page_body body page_size h.sort) ≡ ok (take page_size after)
  pub sorted : All (λ h. is_empty h.sort ≡ false) hits

last_sort-last :
    (h : Hit) (hs : List Hit)
    → (front : List Hit) × (last : Hit) × (h ∷ hs ≡ front ++ last ∷ [])
      × (last_sort (h ∷ hs) ≡ last.sort)
last_sort-last h [] = ([], h, refl, refl)
last_sort-last h (i ∷ hs) =
    let (front, last, e, f) = last_sort-last i hs in (h ∷ front, last, ap (λ l. h ∷ l) e, f)

take-short : (n : ℕ) (xs : List Hit) → length (take n xs) < n → take n xs ≡ xs
take-short zero xs h = absurd (omega (arith, h))
take-short (suc n) [] h = refl
take-short (suc n) (x ∷ xs) h = ap (λ l. x ∷ l) (take-short n xs (omega (arith, h)))

module _ (search : JsonFields → Outcome (List Hit)) (body : JsonFields) (n : ℕ)
    (key_field : String) where
  -- One round of the loop by what was answered.
  search_pages-last :
      (fuel : ℕ) (after : List Value) (rows : List Row) (h : Hit) (hs : List Hit)
      → search (page_body body (suc n) after) ≡ ok (h ∷ hs)
      → ltb (length (h ∷ hs)) (suc n) ≡ true
      → search_pages search body (suc n) key_field (suc fuel) after rows
        ≡ some (ok (rows ++ map (hit_row key_field) (h ∷ hs)))
  unfolding search_pages
  search_pages-last fuel after rows h hs e short = rw (search_pages, e, short) refl

  search_pages-next :
      (fuel : ℕ) (after : List Value) (rows : List Row) (h : Hit) (hs : List Hit)
      → search (page_body body (suc n) after) ≡ ok (h ∷ hs)
      → ltb (length (h ∷ hs)) (suc n) ≡ false
      → is_empty (last_sort (h ∷ hs)) ≡ false
      → search_pages search body (suc n) key_field (suc fuel) after rows
        ≡ search_pages search body
            (suc n)
            key_field
            fuel
            (last_sort (h ∷ hs))
            (rows ++ map (hit_row key_field) (h ∷ hs))
  unfolding search_pages
  search_pages-next fuel after rows h hs e full sorted = rw (search_pages, e, full, sorted) refl

  module _ (hits : List Hit) (serves : Serves search body (suc n) hits) where
    -- The state of the loop once the hits before were read.
    search_pages-rest :
        (fuel : ℕ) (after : List Value) (rows : List Row) (before rest : List Hit)
        → hits ≡ before ++ rest
        → search (page_body body (suc n) after) ≡ ok (take (suc n) rest)
        → length rest < fuel
        → search_pages search body (suc n) key_field fuel after rows
          ≡ some (ok (rows ++ map (hit_row key_field) rest))
    unfolding search_pages
    search_pages-rest zero after rows before rest split answer enough =
        absurd (omega (arith, enough))
    search_pages-rest (suc fuel) after rows before [] split answer enough =
        rw (search_pages, answer) (ap (λ l. some (ok l)) (sym (append-nil rows)))
    search_pages-rest (suc fuel) after rows before (h ∷ rest) split answer enough =
        let page = h ∷ take n rest in
        elim (Bool-cases (ltb (length page) (suc n))) [
          | inl short ↦
              let whole : page ≡ h ∷ rest = take-short (suc n) (h ∷ rest) (ground (arith, short)) in
              search_pages-last fuel after rows h (take n rest) answer short
              ∙ ap (λ l. some (ok (rows ++ map (hit_row key_field) l))) whole
          | inr full ↦
              let (front, last, ends, sorts) = last_sort-last h (take n rest) in
              let behind = drop n rest in
              let page_split : h ∷ rest ≡ page ++ behind =
                sym (take-append-drop (suc n) (h ∷ rest)) in
              let hits_split : hits ≡ (before ++ front) ++ last ∷ behind =
                split
                ∙ (ap (λ l. before ++ l)
                      (page_split
                        ∙ (ap (λ l. l ++ behind) ends ∙ append_assoc front (last ∷ []) behind))
                    ∙ sym (append_assoc before front (last ∷ behind))) in
              let there_is : is_empty last.sort ≡ false =
                All-at (λ i. is_empty i.sort ≡ false) hits serves.sorted
                  (subst (λ l. Has last l) (sym hits_split)
                    (Has-append_right (before ++ front) (last ∷ behind) (here refl))) in
              search_pages-next fuel after rows h (take n rest) answer full
                (ap is_empty sorts ∙ there_is)
              ∙ (ap
                    (λ v.
                      search_pages search body (suc n) key_field fuel v
                        (rows ++ map (hit_row key_field) page))
                    sorts
                  ∙ (search_pages-rest fuel last.sort (rows ++ map (hit_row key_field) page)
                        ((before ++ front) ++ last ∷ []) behind
                        (hits_split ∙ sym (append_assoc (before ++ front) (last ∷ []) behind))
                        (serves.behind (before ++ front) last behind hits_split)
                        (omega (arith, length-drop n rest, enough))
                      ∙ ap (λ l. some (ok l))
                          (append_assoc rows (map (hit_row key_field) page)
                              (map (hit_row key_field) behind)
                            ∙ ap (λ l. rows ++ l)
                                (sym (map-append (hit_row key_field) page behind)
                                  ∙ ap (λ l. map (hit_row key_field) l) (sym page_split)))))
        ]

-- Where a search answers page by page and pages are of at least one hit, the paginated search returns, on
-- fuel for more rounds than there are hits, the rows of all hits in order.
pub paginated_search-whole :
    (search : JsonFields → Outcome (List Hit)) (body : JsonFields) (page_size : ℕ)
    (key_field : String) (hits : List Hit) (fuel : ℕ)
    → 1 ≤ page_size
    → Serves search body page_size hits
    → length hits < fuel
    → paginated_search search fuel body page_size key_field
      ≡ some (ok (map (hit_row key_field) hits))
unfolding paginated_search
paginated_search-whole search body zero key_field hits fuel some_hit serves enough =
    absurd (omega (arith, some_hit))
paginated_search-whole search body (suc n) key_field hits fuel some_hit serves enough =
    search_pages-rest search body n key_field hits serves fuel [] [] [] hits refl serves.first
      enough
