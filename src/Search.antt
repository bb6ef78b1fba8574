-- ===== src/Search.antt =====
-- The target queries of src/dataguard/search.py: `execute_target_query`, which pages through the hits of
-- a query of OpenSearch. The answers of OpenSearch and
-- `json.loads` are parameters.
pub mod Pages
pub mod Offsets
use kube_data_guard.Common.{
  ◌==◌, ℕ, zero, suc, Bool, true, false, not, Option, none, some, String, List, [], ◌∷◌, ◌++◌, map,
  length, is_empty, ltb, if◌then◌else◌,
}
use kube_data_guard.Common.Int.{ℤ, pos, pos_part}
use kube_data_guard.Python.{
  Outcome, ok, raise, value_error, ◌>>=◌, ◌>>◌, guard, Value, none_value, int_value, str_value,
  value_text, Row, get, put, to_int, int_or_zero, traverse, Json, JsonFields, object, scalar, field,
  no_fields, find, set_field, array, list, number, integer, integer?, text, text?,
}
use kube_data_guard.Scan.{strip, bounded_int}

-- A hit; an absent source is empty, and absent sort values are none.
pub record Hit : Type 0 where
  pub id : Value
  pub source : Row
  pub sort : List Value

unfoldable pub bounded_page_size : Value → Outcome ℤ
unfolding bounded_int
bounded_page_size value =
    bounded_int "target query size must be an integer page size"
      "target query page size must be at least 1" (pos 5000) value

-- `body.pop(name)`
unfoldable pub drop_field : String → JsonFields → JsonFields
drop_field name no_fields = no_fields
drop_field name (field k j rest) =
    let kept = drop_field name rest in if k == name then kept else field k j kept

abbrev pub is_list : Json → Bool
is_list (array items) = true
is_list _ = false

abbrev pub default_sort : String → Json
default_sort key_field = list (
    object (
      field key_field
        (object (field "order" (text "asc") (field "unmapped_type" (text "keyword") no_fields)))
        no_fields)
    ∷ object (field "_id" (object (field "order" (text "asc") no_fields)) no_fields)
    ∷ [])

unfoldable pub ensure_search_after_sort : String → JsonFields → Outcome JsonFields
unfolding find set_field
ensure_search_after_sort key_field body = elim (find "sort" body) [
  | none ↦ ok (set_field "sort" (default_sort key_field) body)
  | some sort ↦
      if is_list sort
      then ok body
      else raise (value_error "target query sort must be a list when paginating with search_after")
]

-- `source.setdefault(key_field, str(hit["_id"]))`
unfoldable pub hit_row : String → Hit → Row
unfolding get put value_text
hit_row key_field h = elim (get key_field h.source) [
  | none ↦ put key_field (str_value (value_text h.id)) h.source
  | some v ↦ h.source
]

-- The sort values of the last hit.
abbrev pub last_sort : List Hit → List Value
last_sort [] = []
last_sort (h ∷ []) = h.sort
last_sort (h ∷ i ∷ hs) = last_sort (i ∷ hs)

abbrev pub after_json : List Value → Json
after_json values = list (map scalar values)

-- The body of a page's request; no sort values are given before the first page.
unfoldable pub page_body : JsonFields → ℕ → List Value → JsonFields
unfolding set_field
page_body body page_size [] = set_field "size" (number page_size) body
page_body body page_size (v ∷ vs) =
    set_field "search_after" (after_json (v ∷ vs)) (set_field "size" (number page_size) body)

module _ (search : JsonFields → Outcome (List Hit)) where
  -- The loop, on fuel.
  unfoldable pub search_pages :
      JsonFields → ℕ → String → ℕ → List Value → List Row → Option (Outcome (List Row))
  unfolding hit_row page_body
  search_pages body page_size key_field zero search_after rows = none
  search_pages body page_size key_field (suc fuel) search_after rows =
      elim (search (page_body body page_size search_after)) [
        | raise e ↦ some (raise e)
        | ok hits ↦
            let read = rows ++ map (hit_row key_field) hits in
            let next = search_pages body page_size key_field fuel (last_sort hits) read in
            if is_empty hits
            then some (ok rows)
            else if ltb (length hits) page_size
            then some (ok read)
            else if is_empty (last_sort hits)
            then some (
                raise (
                  value_error
                    "OpenSearch response is missing sort values required for search_after pagination"))
            else next
      ]

  unfoldable pub paginated_search : ℕ → JsonFields → ℕ → String → Option (Outcome (List Row))
  unfolding search_pages
  paginated_search fuel body page_size key_field = search_pages body page_size key_field fuel [] []

  abbrev pub value_of_json : Json → Value
  value_of_json (scalar v) = v
  value_of_json _ = none_value

  abbrev pub or_json : Option Json → Value → Value
  or_json none v = v
  or_json (some j) v = value_of_json j

  abbrev pub has_field : String → JsonFields → Bool
  unfolding find
  has_field name body = elim (find name body) [ none ↦ false | some j ↦ true ]

  abbrev pub fields_of : Json → Outcome JsonFields
  fields_of (object d) = ok d
  fields_of _ = raise (value_error "target query must be a JSON object")

  -- The request's body and its page size, of the text of a query; a size that is no scalar is no integer.
  unfoldable pub target_request :
      (String → Outcome Json) → String → String → Outcome (JsonFields × ℕ)
  unfolding strip find drop_field bounded_page_size ensure_search_after_sort
  target_request loads query key_field = do
    guard (not (strip query == "")) (value_error "target query is required")
    json ← loads query
    body ← fields_of json
    guard (not (has_field "from" body))
        (value_error "target query must not use 'from'; KubeDataGuard paginates with search_after")
    page_size ← bounded_page_size (or_json (find "size" body) (int_value (pos 1000)))
    sorted ← ensure_search_after_sort key_field (drop_field "size" body)
    ok (sorted, pos_part page_size)

  unfoldable pub execute_target_query :
      (String → Outcome Json) → ℕ → String → String → Option (Outcome (List Row))
  unfolding target_request paginated_search
  execute_target_query loads fuel query key_field = elim (target_request loads query key_field) [
    | raise e ↦ some (raise e)
    | ok r ↦ paginated_search fuel r.0 r.1 key_field
  ]
