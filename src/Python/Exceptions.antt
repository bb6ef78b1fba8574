-- ===== src/Python/Exceptions.antt =====
-- A computation that may raise. Interpolated parts of a message are left out.
use mathlib.Core.Path.{subst}
use kube_data_guard.Common.{◌≡◌, refl, Bool, if◌then◌else◌, String, List, [], ◌∷◌, All}

pub data Error : Type 0 where
  key_error : String → Error
  type_error attribute_error : Error
  value_error : String → Error
  system_exit : String → Error
  runtime_error : String → Error

pub data Outcome {ℓ} (A : Type ℓ) : Type ℓ where
  ok : A → Outcome A
  raise : Error → Outcome A

-- `if not test: raise e`
abbrev pub guard : Bool → Error → Outcome (Unit {0})
guard test e = if test then ok tt else raise e

-- Sequencing: what follows a raised error is not run.
infixl 5 ◌>>=◌ ◌>>◌
abbrev pub ◌>>=◌ {ℓ μ} :
    {A : Type ℓ} {B : Type μ} (m : Outcome A) (next : A → Outcome B) → Outcome B
raise e >>= next = raise e
ok a >>= next = next a

abbrev pub ◌>>◌ {ℓ} : {B : Type ℓ} (first : Outcome (Unit {0})) (then_run : Outcome B) → Outcome B
first >> then_run = first >>= λ u. then_run

-- A sequence that returned had a first part that returned.
pub >>=-eq-ok {ℓ μ} :
    {A : Type ℓ} {B : Type μ} (first : Outcome A) (next : A → Outcome B) {result : B}
    → (first >>= next) ≡ ok result
    → (value : A) × (first ≡ ok value) × (next value ≡ ok result)
>>=-eq-ok (raise e) next returned = cc
>>=-eq-ok (ok value) next returned = (value, refl, returned)

-- `[f(x) for x in xs]`, where `f` may raise.
unfoldable pub traverse {ℓ κ} :
    {A : Type ℓ} {B : Type κ} → (A → Outcome B) → List A → Outcome (List B)
traverse f [] = ok []
traverse f (x ∷ xs) = do y ← f x; ys ← traverse f xs; ok (y ∷ ys)

-- The results of a comprehension that did not raise, item by item.
module _ {ℓ κ} {A : Type ℓ} {B : Type κ} (f : A → Outcome B) where
  pub data Yields : List A → List B → Type (ℓ ⊔ κ) where
    finish : Yields [] []
    follow :
        {x : A} {y : B} {xs : List A} {ys : List B}
        → f x ≡ ok y
        → Yields xs ys
        → Yields (x ∷ xs) (y ∷ ys)

  pub traverse-Yields : (xs : List A) (ys : List B) → traverse f xs ≡ ok ys → Yields xs ys
  unfolding traverse
  traverse-Yields [] ys e = let p : [] ≡ ys = cc in subst (Yields []) p finish
  traverse-Yields (x ∷ xs) ys e =
      let (y, p, e') = >>=-eq-ok (f x) (λ y. traverse f xs >>= λ zs. ok (y ∷ zs)) e in
      let (zs, q, e'') = >>=-eq-ok (traverse f xs) (λ zs. ok (y ∷ zs)) e' in
      let r : y ∷ zs ≡ ys = cc in subst (Yields (x ∷ xs)) r (follow p (traverse-Yields xs zs q))

  -- The comprehension raises nothing where no item does.
  pub traverse_total :
      (xs : List A) → All (λ x. (y : B) × (f x ≡ ok y)) xs → (ys : List B) × (traverse f xs ≡ ok ys)
  unfolding traverse
  traverse_total [] h = ([], refl)
  traverse_total (x ∷ xs) h =
      let (ys, e) = traverse_total xs h.1 in (h.0.0 ∷ ys, rw (h.0.1, e) refl)
