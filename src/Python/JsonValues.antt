-- ===== src/Python/JsonValues.antt =====
-- JSON values, as `json.loads` gives them and `json.dumps` takes them.
use kube_data_guard.Common.{
  ℕ, ◌≡◌, refl, ◌==◌, eq_iff, arith, Bool, true, false, Option, none, some, String, List, [], ◌∷◌,
  if◌then◌else◌,
}
use kube_data_guard.Common.Int.{ℤ, pos}
use kube_data_guard.Python.Exceptions.{Outcome, ok, raise, key_error, type_error}
use kube_data_guard.Python.Scalars.{Value, none_value, bool_value, int_value, str_value, truthy}
use kube_data_guard.Python.Dicts.{Dict, Row}

mutual
  pub data Json : Type 0 where
    scalar : Value → Json
    array : JsonItems → Json
    object : JsonFields → Json

  pub data JsonItems : Type 0 where
    no_items : JsonItems
    item : Json → JsonItems → JsonItems

  pub data JsonFields : Type 0 where
    no_fields : JsonFields
    field : String → Json → JsonFields → JsonFields

abbrev pub null : Json
null = scalar none_value

abbrev pub text : String → Json
text s = scalar (str_value s)

abbrev pub number : ℕ → Json
number n = scalar (int_value (pos n))

abbrev pub integer : ℤ → Json
integer i = scalar (int_value i)

abbrev pub boolean : Bool → Json
boolean b = scalar (bool_value b)

abbrev pub text? : Option String → Json
text? none = null
text? (some s) = text s

abbrev pub integer? : Option ℤ → Json
integer? none = null
integer? (some i) = integer i

abbrev pub items_of_list : List Json → JsonItems
items_of_list [] = no_items
items_of_list (j ∷ js) = item j (items_of_list js)

abbrev pub list_of_items : JsonItems → List Json
list_of_items no_items = []
list_of_items (item j js) = j ∷ list_of_items js

abbrev pub fields_of_dict : Dict Json → JsonFields
fields_of_dict [] = no_fields
fields_of_dict ((k, j) ∷ d) = field k j (fields_of_dict d)

abbrev pub dict_of_fields : JsonFields → Dict Json
dict_of_fields no_fields = []
dict_of_fields (field k j d) = (k, j) ∷ dict_of_fields d

abbrev pub list : List Json → Json
list js = array (items_of_list js)

abbrev pub dict : Dict Json → Json
dict d = object (fields_of_dict d)

-- A row as a JSON object.
abbrev pub row_fields : Row → JsonFields
row_fields [] = no_fields
row_fields ((k, v) ∷ d) = field k (scalar v) (row_fields d)

abbrev pub row_json : Row → Json
row_json row = object (row_fields row)

unfoldable pub find : String → JsonFields → Option Json
find k no_fields = none
find k (field j v d) = if j == k then some v else find k d

abbrev pub or_default : Option Json → Json → Json
or_default none d = d
or_default (some j) d = j

-- `d.get(k, default)`
unfoldable pub get_default : String → Json → JsonFields → Json
unfolding find
get_default k default d = or_default (find k d) default

-- `d[name] = value`: a key that is there keeps its place.
unfoldable pub set_field : String → Json → JsonFields → JsonFields
set_field name value no_fields = field name value no_fields
set_field name value (field k j rest) =
    let set = set_field name value rest in if k == name then field k value rest else field k j set

pub find-set_field :
    (k j : String) (v : Json) (d : JsonFields)
    → find j (set_field k v d) ≡ (if k == j then some v else find j d)
unfolding find set_field
find-set_field k j v no_fields = refl
find-set_field k j v (field i w d) =
    ground (arith, eq_iff k j, eq_iff i k, eq_iff i j, find-set_field k j v d)

abbrev pub json_truthy : Json → Bool
unfolding truthy
json_truthy (scalar v) = truthy v
json_truthy (array no_items) = false
json_truthy (object no_fields) = false
json_truthy _ = true

-- What a loop over the value yields: a dictionary yields its keys, a text its characters.
abbrev pub field_names : JsonFields → List Json
field_names no_fields = []
field_names (field k v d) = text k ∷ field_names d

abbrev pub characters : String → List Json
characters String.[] = []
characters (String.◌∷◌ c s) = text (String.◌∷◌ c String.[]) ∷ characters s

unfoldable pub iterate : Json → Outcome (List Json)
iterate (array js) = ok (list_of_items js)
iterate (object d) = ok (field_names d)
iterate (scalar (str_value s)) = ok (characters s)
iterate (scalar _) = raise type_error

-- `j[k]` for a text `k`
unfoldable pub index : Json → String → Outcome Json
unfolding find
index (object d) k = elim (find k d) [ none ↦ raise (key_error k) | some j ↦ ok j ]
index _ k = raise type_error
