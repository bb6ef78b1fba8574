-- ===== src/Python/Dicts.antt =====
-- Dictionaries with text keys, in insertion order: `d.get(k)`, `d[k] = v`, `d[k]`.
use kube_data_guard.Common.{
  ◌≡◌, refl, ◌==◌, eq_iff, eq_refl, Option, none, some, false, String, List, [], ◌∷◌, arith,
  if◌then◌else◌,
}
use kube_data_guard.Python.Exceptions.{Outcome, ok, raise, key_error}
use kube_data_guard.Python.Scalars.{Value, none_value}

abbrev pub Dict {ℓ} : Type ℓ → Type ℓ
Dict V = List (String × V)

module _ {ℓ} {V : Type ℓ} where
  unfoldable pub get : String → Dict V → Option V
  get k [] = none
  get k ((j, v) ∷ d) = if j == k then some v else get k d

  -- A key that is there keeps its place.
  unfoldable pub put : String → V → Dict V → Dict V
  put k v [] = (k, v) ∷ []
  put k v ((j, w) ∷ d) = if j == k then (j, v) ∷ d else (j, w) ∷ put k v d

  unfoldable pub require : String → Dict V → Outcome V
  require k d = elim (get k d) [ none ↦ raise (key_error k) | some v ↦ ok v ]

  pub get-put :
      (k j : String) (v : V) (d : Dict V) → get j (put k v d) ≡ (if k == j then some v else get j d)
  unfolding get put
  get-put k j v [] = refl
  get-put k j v ((i, w) ∷ d) = ground (arith, eq_iff k j, eq_iff i k, eq_iff i j, get-put k j v d)

abbrev pub Row : Type 0
Row = Dict Value

-- `row.get(name)`, which is `None` for an absent key.
unfoldable pub cell : String → Row → Value
unfolding get
cell name row = elim (get name row) [ none ↦ none_value | some v ↦ v ]

pub cell-put_self : (k : String) (v : Value) (d : Row) → cell k (put k v d) ≡ v
unfolding cell
cell-put_self k v d = ground (arith, get-put k k v d, eq_refl k)

pub cell-put_other :
    (k j : String) (v : Value) (d : Row) → (k == j) ≡ false → cell j (put k v d) ≡ cell j d
unfolding cell
cell-put_other k j v d n = ground (arith, get-put k j v d)

module _ {ℓ} {V : Type ℓ} where
  pub get-require : (k : String) (d : Dict V) {v : V} → require k d ≡ ok v → get k d ≡ some v
  unfolding require
  get-require k d e = ground arith

  pub require-get : (k : String) (d : Dict V) {v : V} → get k d ≡ some v → require k d ≡ ok v
  unfolding require
  require-get k d e = ground arith
