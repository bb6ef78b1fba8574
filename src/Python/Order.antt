-- ===== src/Python/Order.antt =====
-- What `sorted` on texts gives: a strictly increasing list with the same members.
use kube_data_guard.Common.{
  ◌≡◌, refl, ◌==◌, eq_iff, true, false, String, List, [], ◌∷◌, map, text_lt, All, Has, here, there,
  text_lt_trans, text_lt_total, Bool-cases, inl, inr, All-map,
}
use kube_data_guard.Python.Exceptions.{ok}
use kube_data_guard.Python.Scalars.{str_value, value_eq}
use kube_data_guard.Python.Sorting.{
  insert_text, sorted_texts, value_lt, insert_value, sorted_values,
}

-- Each item stands before all later ones, so no item stands twice.
abbrev pub IsIncreasing : List String → Type 0
IsIncreasing [] = Unit
IsIncreasing (x ∷ xs) = All (λ y. text_lt x y ≡ true) xs × IsIncreasing xs

All-insert_text :
    (P : String → Type 0) (x : String) (xs : List String)
    → P x
    → All P xs
    → All P (insert_text x xs)
unfolding insert_text
All-insert_text P x [] p h = (p, tt)
All-insert_text P x (y ∷ ys) p h = elim (Bool-cases (x == y)) [
  | inl e ↦ rw e h
  | inr e ↦ elim (Bool-cases (text_lt x y)) [
    | inl l ↦ rw (e, l) (p, h)
    | inr l ↦ rw (e, l) (h.0, All-insert_text P x ys p h.1)
  ]
]

-- What is not equal and not below stands above.
above : (x y : String) → (x == y) ≡ false → text_lt x y ≡ false → text_lt y x ≡ true
above x y e l = elim (Bool-cases (text_lt y x)) [
  | inl h ↦ h
  | inr h ↦ absurd (cc ((eq_iff x y).1 (text_lt_total x y l h)))
]

insert_text-IsIncreasing :
    (x : String) (xs : List String) → IsIncreasing xs → IsIncreasing (insert_text x xs)
unfolding insert_text
insert_text-IsIncreasing x [] h = (tt, tt)
insert_text-IsIncreasing x (y ∷ ys) h = elim (Bool-cases (x == y)) [
  | inl e ↦ rw e h
  | inr e ↦ elim (Bool-cases (text_lt x y)) [
    | inl l ↦
        rw (e, l)
          (
            (
              l,
              All-map (λ z. text_lt y z ≡ true) (λ z. text_lt x z ≡ true) ys
                  (λ z k. text_lt_trans x y z l k) h.0,
            ),
            h,
          )
    | inr l ↦
        rw (e, l)
          (
            All-insert_text (λ z. text_lt y z ≡ true) x ys (above x y e l) h.0,
            insert_text-IsIncreasing x ys h.1,
          )
  ]
]

pub sorted_texts-IsIncreasing : (xs : List String) → IsIncreasing (sorted_texts xs)
unfolding sorted_texts
sorted_texts-IsIncreasing [] = tt
sorted_texts-IsIncreasing (x ∷ xs) =
    insert_text-IsIncreasing x (sorted_texts xs) (sorted_texts-IsIncreasing xs)

Has-insert_text_self : (x : String) (xs : List String) → Has x (insert_text x xs)
unfolding insert_text
Has-insert_text_self x [] = here refl
Has-insert_text_self x (y ∷ ys) = elim (Bool-cases (x == y)) [
  | inl e ↦ rw e (here ((eq_iff x y).0 e))
  | inr e ↦ elim (Bool-cases (text_lt x y)) [
    | inl l ↦ rw (e, l) (here refl)
    | inr l ↦ rw (e, l) (there (Has-insert_text_self x ys))
  ]
]

Has-insert_text : (x : String) {z : String} (xs : List String) → Has z xs → Has z (insert_text x xs)
unfolding insert_text
Has-insert_text x [] m = elim m [ ]
Has-insert_text x (y ∷ ys) (here p) = elim (Bool-cases (x == y)) [
  | inl e ↦ rw e (here p)
  | inr e ↦ elim (Bool-cases (text_lt x y)) [
    | inl l ↦ rw (e, l) (there (here p))
    | inr l ↦ rw (e, l) (here p)
  ]
]
Has-insert_text x (y ∷ ys) (there m) = elim (Bool-cases (x == y)) [
  | inl e ↦ rw e (there m)
  | inr e ↦ elim (Bool-cases (text_lt x y)) [
    | inl l ↦ rw (e, l) (there (there m))
    | inr l ↦ rw (e, l) (there (Has-insert_text x ys m))
  ]
]

-- Sorting loses no member,
pub Has-sorted_texts : {x : String} (xs : List String) → Has x xs → Has x (sorted_texts xs)
unfolding sorted_texts
Has-sorted_texts [] m = elim m [ ]
Has-sorted_texts (y ∷ xs) (here p) = rw p (Has-insert_text_self y (sorted_texts xs))
Has-sorted_texts (y ∷ xs) (there m) = Has-insert_text y (sorted_texts xs) (Has-sorted_texts xs m)

-- and adds none: what holds of all the members holds of all the sorted list.
pub All-sorted_texts : (P : String → Type 0) (xs : List String) → All P xs → All P (sorted_texts xs)
unfolding sorted_texts
All-sorted_texts P [] h = tt
All-sorted_texts P (x ∷ xs) h =
    All-insert_text P x (sorted_texts xs) h.0 (All-sorted_texts P xs h.1)

insert_value-str :
    (x : String) (ys : List String)
    → insert_value (str_value x) (map str_value ys) ≡ ok (map str_value (insert_text x ys))
unfolding insert_value insert_text value_eq value_lt
insert_value-str x [] = refl
insert_value-str x (y ∷ ys) = elim (Bool-cases (x == y)) [
  | inl e ↦ rw e refl
  | inr e ↦ elim (Bool-cases (text_lt x y)) [
    | inl l ↦ rw (e, l) refl
    | inr l ↦ rw (e, l, insert_value-str x ys) refl
  ]
]

-- Values that are all texts can be sorted, and sort as the texts do.
pub sorted_values-str :
    (xs : List String) → sorted_values (map str_value xs) ≡ ok (map str_value (sorted_texts xs))
unfolding sorted_values sorted_texts
sorted_values-str [] = refl
sorted_values-str (x ∷ xs) = rw (sorted_values-str xs) (insert_value-str x (sorted_texts xs))
