-- ===== src/Scan/Ordered.antt =====
-- Rows in the order of their keys, and what a page of them leaves to read.
use mathlib.Core.Path.{subst}
use kube_data_guard.Common.{
  ◌≡◌, refl, sym, ap, ◌∙◌, Bool, true, false, some, String, List, [], ◌∷◌, ◌++◌, keep, All,
}
use kube_data_guard.Python.{ok, Value, is_none, cell, get, Row}
use kube_data_guard.Scan.{ScanState, take_rows, read_row}

pub append_assoc : {A : Type 0} (xs ys zs : List A) → (xs ++ ys) ++ zs ≡ xs ++ (ys ++ zs)
append_assoc [] ys zs = refl
append_assoc (x ∷ xs) ys zs = ap (λ l. x ∷ l) (append_assoc xs ys zs)

pub append-nil : {A : Type 0} (xs : List A) → xs ++ [] ≡ xs
append-nil [] = refl
append-nil (x ∷ xs) = ap (λ l. x ∷ l) (append-nil xs)

All-middle :
    {A : Type 0} (P : A → Type 0) (pre : List A) (x : A) (post : List A)
    → All P (pre ++ x ∷ post)
    → P x
All-middle P [] x post h = h.0
All-middle P (y ∷ pre) x post h = All-middle P pre x post h.1

-- The order of the database on the key's column is a parameter: `gt a b` is `a > b`.
module _ (gt : Value → Value → Bool) (key_field : String) where
  abbrev pub key : Row → Value
  key row = cell key_field row

  abbrev pub IsAbove : Row → Row → Type 0
  IsAbove low high = (gt (key high) (key low) ≡ true) × (gt (key low) (key high) ≡ false)

  -- Rows in the order of their keys, which are all there, not null, and different.
  abbrev pub IsOrdered : List Row → Type 0
  IsOrdered [] = Unit
  IsOrdered (row ∷ rows) =
      (get key_field row ≡ some (key row))
      × (is_none (key row) ≡ false)
      × (gt (key row) (key row) ≡ false)
      × All (IsAbove row) rows
      × IsOrdered rows

  -- `where key > k` on rows.
  abbrev pub rows_above : Value → List Row → List Row
  rows_above k rows = keep (λ row. gt (key row) k) rows

  rows_above-All :
      (row : Row) (rows : List Row) → All (IsAbove row) rows → rows_above (key row) rows ≡ rows
  unfolding keep
  rows_above-All row [] h = refl
  rows_above-All row (q ∷ qs) h = rw h.0.0 (ap (λ l. q ∷ l) (rows_above-All row qs h.1))

  -- The rows above the key of a row are those behind it.
  pub rows_above-behind :
      (pre : List Row) (row : Row) (post : List Row)
      → IsOrdered (pre ++ row ∷ post)
      → rows_above (key row) (pre ++ row ∷ post) ≡ post
  unfolding keep
  rows_above-behind [] row post (p, n, i, h, o) = rw i (rows_above-All row post h)
  rows_above-behind (q ∷ pre) row post (p, n, i, h, o) =
      rw (All-middle (IsAbove q) pre row post h).1 (rows_above-behind pre row post o)

  abbrev pub last_key_of : Value → List Row → Value
  last_key_of v [] = v
  last_key_of v (row ∷ rows) = last_key_of (key row) rows

  -- The rows above the key of a page's last row are those behind the page.
  pub rows_above-page :
      (pre : List Row) (row : Row) (page post : List Row)
      → IsOrdered (pre ++ ((row ∷ page) ++ post))
      → rows_above (last_key_of (key row) page) (pre ++ ((row ∷ page) ++ post)) ≡ post
  rows_above-page pre row [] post o = rows_above-behind pre row post o
  rows_above-page pre row (q ∷ qs) post o =
      let same = append_assoc pre (row ∷ []) ((q ∷ qs) ++ post) in
      ap (rows_above (last_key_of (key q) qs)) (sym same)
      ∙ rows_above-page (pre ++ row ∷ []) q qs post (subst IsOrdered (sym same) o)

  pub last_key_of-is_none :
      (pre : List Row) (row : Row) (page post : List Row)
      → IsOrdered (pre ++ ((row ∷ page) ++ post))
      → is_none (last_key_of (key row) page) ≡ false
  last_key_of-is_none [] row [] post o = o.1
  last_key_of-is_none (q ∷ pre) row [] post o = last_key_of-is_none pre row [] post (o.4)
  last_key_of-is_none pre row (q ∷ qs) post o =
      last_key_of-is_none (pre ++ row ∷ []) q qs post
        (subst IsOrdered (sym (append_assoc pre (row ∷ []) ((q ∷ qs) ++ post))) o)

  abbrev IsKeyed : Row → Type 0
  IsKeyed row = get key_field row ≡ some (key row)

  pub page-IsKeyed :
      (pre page post : List Row) → IsOrdered (pre ++ (page ++ post)) → All IsKeyed page
  page-IsKeyed [] [] post o = tt
  page-IsKeyed [] (row ∷ page) post o = (o.0, page-IsKeyed [] page post o.4)
  page-IsKeyed (q ∷ pre) page post o = page-IsKeyed pre page post o.4

  pub take_rows-ok :
      (page : List Row) (s : ScanState)
      → All IsKeyed page
      → (s' : ScanState) × (take_rows key_field page s ≡ ok s')
        × (s'.rows ≡ s.rows ++ page)
        × (s'.last_key ≡ last_key_of s.last_key page)
  unfolding take_rows
  take_rows-ok [] s h = (s, refl, sym (append-nil s.rows), refl)
  take_rows-ok (row ∷ page) s h =
      let (s', e, r, l) = take_rows-ok page (read_row (key row) row s) h.1 in
      (s', rw (take_rows, h.0) e, r ∙ append_assoc s.rows (row ∷ []) page, l)
