-- ===== src/Repair/Batches.antt =====
-- `batches` cuts a list into its consecutive parts.
use kube_data_guard.Common.{
  ℕ, zero, suc, ◌+◌, ◌≤◌, ◌≡◌, refl, ap, ◌∙◌, List, [], ◌∷◌, ◌++◌, length, take, drop,
  take-append-drop, length-take-le, length-drop, All, ltb, false, arith,
}
use kube_data_guard.Common.Int.{pos}
use kube_data_guard.Python.{ok}
use kube_data_guard.Repair.{batches_from, batches}

abbrev pub flatten : {A : Type 0} → List (List A) → List A
flatten [] = []
flatten (xs ∷ xss) = xs ++ flatten xss

-- A batch holds at least one item and at most `size`.
abbrev pub IsBatch : {A : Type 0} → ℕ → List A → Type 0
IsBatch size batch = (1 ≤ length batch) × (length batch ≤ size)

module _ {A : Type 0} (n : ℕ) where
  batches_from-flatten :
      (fuel : ℕ) (values : List A)
      → length values ≤ fuel
      → flatten (batches_from fuel (suc n) values) ≡ values
  unfolding batches_from
  batches_from-flatten zero [] h = refl
  batches_from-flatten zero (x ∷ xs) h = absurd (omega arith)
  batches_from-flatten (suc fuel) [] h = refl
  batches_from-flatten (suc fuel) (x ∷ xs) h =
      ap (λ l. x ∷ (take n xs ++ l))
        (batches_from-flatten fuel (drop n xs) (omega (arith, length-drop n xs)))
      ∙ ap (λ l. x ∷ l) (take-append-drop n xs)

  batches_from-IsBatch :
      (fuel : ℕ) (values : List A) → All (IsBatch (suc n)) (batches_from fuel (suc n) values)
  unfolding batches_from
  batches_from-IsBatch zero values = tt
  batches_from-IsBatch (suc fuel) [] = tt
  batches_from-IsBatch (suc fuel) (x ∷ xs) =
      ((omega arith, omega (arith, length-take-le n xs)), batches_from-IsBatch fuel (drop n xs))

  -- A list cut by a positive size gives parts that make up the list in its order; each part holds at
  -- least one item and at most `size` of them.
  pub batches-flatten :
      (values : List A)
      → (bs : List (List A)) × (batches values (pos (suc n)) ≡ ok bs)
        × (flatten bs ≡ values)
        × All (IsBatch (suc n)) bs
  unfolding batches
  batches-flatten values =
      let positive : ltb (suc n + 0) 1 ≡ false = ground arith in
      (
        batches_from (length values) (suc n) values,
        rw positive refl,
        batches_from-flatten (length values) values (omega arith),
        batches_from-IsBatch (length values) values,
      )
