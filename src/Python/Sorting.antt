-- ===== src/Python/Sorting.antt =====
-- `sorted({...})`: the distinct items in order. Values of different kinds cannot be compared, and
-- two numbers or two texts can.
use kube_data_guard.Common.{◌==◌, Bool, String, List, [], ◌∷◌, text_lt, if◌then◌else◌}
use kube_data_guard.Common.Int.{ltb_ℤ}
use kube_data_guard.Python.Exceptions.{Outcome, ok, raise, type_error, ◌>>=◌}
use kube_data_guard.Python.Scalars.{Value, bool_value, int_value, str_value, of_bool, value_eq}

unfoldable pub insert_text : String → List String → List String
insert_text x [] = x ∷ []
insert_text x (y ∷ ys) =
    if x == y then y ∷ ys else if text_lt x y then x ∷ y ∷ ys else y ∷ insert_text x ys

-- `sorted(set(texts))`
unfoldable pub sorted_texts : List String → List String
unfolding insert_text
sorted_texts [] = []
sorted_texts (x ∷ xs) = insert_text x (sorted_texts xs)

unfoldable pub value_lt : Value → Value → Outcome Bool
value_lt (str_value a) (str_value b) = ok (text_lt a b)
value_lt (int_value a) (int_value b) = ok (ltb_ℤ a b)
value_lt (int_value a) (bool_value b) = ok (ltb_ℤ a (of_bool b))
value_lt (bool_value a) (int_value b) = ok (ltb_ℤ (of_bool a) b)
value_lt (bool_value a) (bool_value b) = ok (ltb_ℤ (of_bool a) (of_bool b))
value_lt _ _ = raise type_error

unfoldable pub insert_value : Value → List Value → Outcome (List Value)
insert_value x [] = ok (x ∷ [])
insert_value x (y ∷ ys) =
    let later = insert_value x ys in
    if value_eq x y then ok (y ∷ ys) else do
      before ← value_lt x y
      if before then ok (x ∷ y ∷ ys) else do rest ← later; ok (y ∷ rest)

-- `sorted(set(values))`. Sorting values of two kinds raises in whatever order they are compared.
unfoldable pub sorted_values : List Value → Outcome (List Value)
unfolding insert_value value_lt value_eq
sorted_values [] = ok []
sorted_values (x ∷ xs) = do ys ← sorted_values xs; insert_value x ys
