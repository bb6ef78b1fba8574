-- ===== src/Common/Lists.antt =====
-- Lists measured by native numbers, predicates on their items, and filters by a Boolean test.
use Prim.Native.Nat.{ℕ, zero, suc, ◌+◌, ◌-◌, ◌≤◌}
use mathlib.Core.Path.{◌≡◌, refl, ap}
use mathlib.Core.Bool.{Bool, true, false}
use mathlib.Core.List.{List, [], ◌∷◌, ◌++◌, map}
use native.Mathlib.Omega.{arith}
use kube_data_guard.Common.Tests.{if◌then◌else◌}

module _ {ℓ} {A : Type ℓ} where
  abbrev pub length : List A → ℕ
  length [] = 0
  length (x ∷ xs) = suc (length xs)

  abbrev pub take : ℕ → List A → List A
  take zero xs = []
  take (suc n) [] = []
  take (suc n) (x ∷ xs) = x ∷ take n xs

  abbrev pub drop : ℕ → List A → List A
  drop zero xs = xs
  drop (suc n) [] = []
  drop (suc n) (x ∷ xs) = drop n xs

  abbrev pub is_empty : List A → Bool
  is_empty [] = true
  is_empty (x ∷ xs) = false

  -- A predicate of every item, and one of some item.
  abbrev pub All {κ} : (A → Type κ) → List A → Type κ
  All P [] = Unit
  All P (x ∷ xs) = P x × All P xs

  -- Membership as data: the place at which the item stands.
  pub data Has : A → List A → Type ℓ where
    here : {x y : A} {xs : List A} → x ≡ y → Has x (y ∷ xs)
    there : {x y : A} {xs : List A} → Has x xs → Has x (y ∷ xs)

  unfoldable pub keep : (A → Bool) → List A → List A
  keep p [] = []
  keep p (x ∷ xs) = if p x then x ∷ keep p xs else keep p xs

  pub length-append : (xs ys : List A) → length (xs ++ ys) ≡ length xs + length ys
  length-append [] ys = omega arith
  length-append (x ∷ xs) ys = omega (arith, length-append xs ys)

  pub take-append-drop : (n : ℕ) (xs : List A) → take n xs ++ drop n xs ≡ xs
  take-append-drop zero xs = refl
  take-append-drop (suc n) [] = refl
  take-append-drop (suc n) (x ∷ xs) = ap (λ l. x ∷ l) (take-append-drop n xs)

  pub length-take-le : (n : ℕ) (xs : List A) → length (take n xs) ≤ n
  length-take-le zero xs = omega arith
  length-take-le (suc n) [] = omega arith
  length-take-le (suc n) (x ∷ xs) = omega (arith, length-take-le n xs)

  pub length-drop : (n : ℕ) (xs : List A) → length (drop n xs) ≡ length xs - n
  length-drop zero xs = omega arith
  length-drop (suc n) [] = omega arith
  length-drop (suc n) (x ∷ xs) = omega (arith, length-drop n xs)

  pub All-append {κ} : (P : A → Type κ) (xs ys : List A) → All P xs → All P ys → All P (xs ++ ys)
  All-append P [] ys h k = k
  All-append P (x ∷ xs) ys h k = (h.0, All-append P xs ys h.1 k)

  pub All-at {κ} : (P : A → Type κ) {x : A} (xs : List A) → All P xs → Has x xs → P x
  All-at P [] h m = elim m [ ]
  All-at P (y ∷ xs) h (here e) = rw e h.0
  All-at P (y ∷ xs) h (there m) = All-at P xs h.1 m

  pub All-map {κ μ} :
      (P : A → Type κ) (Q : A → Type μ) (xs : List A) → ((x : A) → P x → Q x) → All P xs → All Q xs
  All-map P Q [] f h = tt
  All-map P Q (x ∷ xs) f h = (f x h.0, All-map P Q xs f h.1)

  -- What holds of every item that is in the list holds of all of it.
  pub All-of_Has {κ} : (P : A → Type κ) (xs : List A) → ((x : A) → Has x xs → P x) → All P xs
  All-of_Has P [] f = tt
  All-of_Has P (x ∷ xs) f = (f x (here refl), All-of_Has P xs (λ y m. f y (there m)))

  pub Has-append_left : {x : A} (xs ys : List A) → Has x xs → Has x (xs ++ ys)
  Has-append_left [] ys m = elim m [ ]
  Has-append_left (y ∷ xs) ys (here e) = here e
  Has-append_left (y ∷ xs) ys (there m) = there (Has-append_left xs ys m)

  pub Has-append_right : {x : A} (xs ys : List A) → Has x ys → Has x (xs ++ ys)
  Has-append_right [] ys m = m
  Has-append_right (y ∷ xs) ys m = there (Has-append_right xs ys m)

module _ {ℓ κ} {A : Type ℓ} {B : Type κ} where
  pub length-map : (f : A → B) (xs : List A) → length (map f xs) ≡ length xs
  length-map f [] = refl
  length-map f (x ∷ xs) = ap suc (length-map f xs)

  pub map-append : (f : A → B) (xs ys : List A) → map f (xs ++ ys) ≡ map f xs ++ map f ys
  map-append f [] ys = refl
  map-append f (x ∷ xs) ys = ap (λ l. f x ∷ l) (map-append f xs ys)

  pub Has-map : (f : A → B) {x : A} (xs : List A) → Has x xs → Has (f x) (map f xs)
  Has-map f [] m = elim m [ ]
  Has-map f (y ∷ xs) (here e) = here (ap f e)
  Has-map f (y ∷ xs) (there m) = there (Has-map f xs m)

module _ {ℓ} {A : Type ℓ} where
  pub nil_of_is_empty : (xs : List A) → is_empty xs ≡ true → xs ≡ []
  nil_of_is_empty [] e = refl
  nil_of_is_empty (x ∷ xs) e = cc
