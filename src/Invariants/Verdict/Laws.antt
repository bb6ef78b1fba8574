-- ===== src/Invariants/Verdict/Laws.antt =====
-- The lists of a comparison against the verdicts on its rows.
use kube_data_guard.Common.{
  ℕ, ◌+◌, ◌≡◌, refl, sym, ap, ◌∙◌, List, [], ◌∷◌, length, All, Has, here, there, arith,
}
use kube_data_guard.Python.{Outcome, ok, Row, Yields, finish, follow}
use kube_data_guard.Invariants.Report.{MissingItem, StaleItem}
use kube_data_guard.Invariants.Verdict.{
  Verdict, agrees, is_missing, is_stale, missing_items, stale_items,
}

abbrev pub findings : List Verdict → ℕ
findings vs = length (missing_items vs) + length (stale_items vs)

Has-missing :
    (m : MissingItem) (vs : List Verdict) → Has (is_missing m) vs → Has m (missing_items vs)
unfolding missing_items
Has-missing m [] h = elim h [ ]
Has-missing m (is_missing n ∷ vs) (here e) = here cc
Has-missing m (agrees ∷ vs) (here e) = absurd (cc e)
Has-missing m (is_stale s ∷ vs) (here e) = absurd (cc e)
Has-missing m (agrees ∷ vs) (there h) = Has-missing m vs h
Has-missing m (is_missing n ∷ vs) (there h) = there (Has-missing m vs h)
Has-missing m (is_stale s ∷ vs) (there h) = Has-missing m vs h

Has-stale : (s : StaleItem) (vs : List Verdict) → Has (is_stale s) vs → Has s (stale_items vs)
unfolding stale_items
Has-stale s [] h = elim h [ ]
Has-stale s (is_stale t ∷ vs) (here e) = here cc
Has-stale s (agrees ∷ vs) (here e) = absurd (cc e)
Has-stale s (is_missing m ∷ vs) (here e) = absurd (cc e)
Has-stale s (agrees ∷ vs) (there h) = Has-stale s vs h
Has-stale s (is_missing m ∷ vs) (there h) = Has-stale s vs h
Has-stale s (is_stale t ∷ vs) (there h) = there (Has-stale s vs h)

module _ (judge : Row → Outcome Verdict) where
  -- No row is listed only where every row agrees,
  pub no_findings-All :
      {rows : List Row} {vs : List Verdict}
      → Yields judge rows vs
      → findings vs ≡ 0
      → All (λ row. judge row ≡ ok agrees) rows
  unfolding missing_items stale_items
  no_findings-All finish e = tt
  no_findings-All (follow {y = agrees} p rest) e = (p, no_findings-All rest e)
  no_findings-All (follow {y = is_missing m} p rest) e = absurd (omega arith)
  no_findings-All (follow {y = is_stale s} p rest) e = absurd (omega arith)

  -- and where every row agrees none is listed.
  pub All-no_findings :
      {rows : List Row} {vs : List Verdict}
      → Yields judge rows vs
      → All (λ row. judge row ≡ ok agrees) rows
      → findings vs ≡ 0
  unfolding missing_items stale_items
  All-no_findings finish h = omega arith
  All-no_findings (follow {y = agrees} p rest) h = All-no_findings rest h.1
  All-no_findings (follow {y = is_missing m} p rest) h = let c = h.0 in cc (p, c)
  All-no_findings (follow {y = is_stale s} p rest) h = let c = h.0 in cc (p, c)

  Has-verdict :
      {rows : List Row} {vs : List Verdict} {row : Row} (v : Verdict)
      → Yields judge rows vs
      → Has row rows
      → judge row ≡ ok v
      → Has v vs
  Has-verdict v finish h e = elim h [ ]
  Has-verdict v (follow {x = x} {y = y} p rest) (here q) e =
      let same : ok v ≡ ok y = sym e ∙ ap judge q ∙ p in here cc
  Has-verdict v (follow p rest) (there h) e = there (Has-verdict v rest h e)

  -- Every row whose verdict is bad is listed,
  pub missing-listed :
      {rows : List Row} {vs : List Verdict} {row : Row} (m : MissingItem)
      → Yields judge rows vs
      → Has row rows
      → judge row ≡ ok (is_missing m)
      → Has m (missing_items vs)
  missing-listed {vs = vs} m ys h e = Has-missing m vs (Has-verdict (is_missing m) ys h e)

  pub stale-listed :
      {rows : List Row} {vs : List Verdict} {row : Row} (s : StaleItem)
      → Yields judge rows vs
      → Has row rows
      → judge row ≡ ok (is_stale s)
      → Has s (stale_items vs)
  stale-listed {vs = vs} s ys h e = Has-stale s vs (Has-verdict (is_stale s) ys h e)

  -- and every item listed is the verdict on some row.
  pub missing-judged :
      {rows : List Row} {vs : List Verdict} (m : MissingItem)
      → Yields judge rows vs
      → Has m (missing_items vs)
      → (row : Row) × Has row rows × (judge row ≡ ok (is_missing m))
  unfolding missing_items
  missing-judged m finish h = elim h [ ]
  missing-judged m (follow {y = agrees} p rest) h =
      let (row, i, e) = missing-judged m rest h in (row, there i, e)
  missing-judged m (follow {y = is_stale s} p rest) h =
      let (row, i, e) = missing-judged m rest h in (row, there i, e)
  missing-judged m (follow {x = x} {y = is_missing n} p rest) (here q) =
      (x, here refl, p ∙ ap (λ k. ok (is_missing k)) (sym q))
  missing-judged m (follow {y = is_missing n} p rest) (there h) =
      let (row, i, e) = missing-judged m rest h in (row, there i, e)

  pub stale-judged :
      {rows : List Row} {vs : List Verdict} (s : StaleItem)
      → Yields judge rows vs
      → Has s (stale_items vs)
      → (row : Row) × Has row rows × (judge row ≡ ok (is_stale s))
  unfolding stale_items
  stale-judged s finish h = elim h [ ]
  stale-judged s (follow {y = agrees} p rest) h =
      let (row, i, e) = stale-judged s rest h in (row, there i, e)
  stale-judged s (follow {y = is_missing m} p rest) h =
      let (row, i, e) = stale-judged s rest h in (row, there i, e)
  stale-judged s (follow {x = x} {y = is_stale t} p rest) (here q) =
      (x, here refl, p ∙ ap (λ k. ok (is_stale k)) (sym q))
  stale-judged s (follow {y = is_stale t} p rest) (there h) =
      let (row, i, e) = stale-judged s rest h in (row, there i, e)
