-- ===== src/Scan.antt =====
-- The keyset scan of src/dataguard/db.py: a source query read page by page in the order of a key. The
-- database is a parameter, the rows that it answers a page's query with. A cell is a scalar that JSON
-- has, so `serialize_query_row` leaves a row as it is.
pub mod Bounds
pub mod Ordered
pub mod Complete
pub mod Whole
pub mod Resumed
use Prim.Native.Char.{Char, code}
use Prim.Native.String
use kube_data_guard.Common.{
  ℕ, zero, suc, ◌+◌, ◌-◌, ◌==◌, Bool, true, false, not, ◌&&◌, ◌||◌, Option, none, some, String,
  List, [], ◌∷◌, ◌++◌, map, length, is_empty, ltb, leb, nat_eq, if◌then◌else◌,
}
use kube_data_guard.Common.Int.{ℤ, pos, pos_part, ltb_ℤ}
use kube_data_guard.Python.{
  Outcome, ok, raise, value_error, Error, ◌>>=◌, ◌>>◌, guard, Value, none_value, int_value, truthy,
  is_none, to_int, value_text, Row, get, is_digit, is_space, lstrip, reverse_onto, JsonFields,
  field, no_fields, text, text?, number, boolean,
}
use kube_data_guard.Merkle.{◌&◌}
use kube_data_guard.Invariants.Window.{max_text, texts_of}

-- `int(value)`, with the errors of the conversion given that message, bounded on both sides.
abbrev pub or_raise {ℓ} : {A : Type ℓ} → Outcome A → Error → Outcome A
or_raise (ok a) e = ok a
or_raise (raise _) e = raise e

abbrev pub min_ℤ : ℤ → ℤ → ℤ
min_ℤ a b = if ltb_ℤ b a then b else a

unfoldable pub bounded_int : String → String → ℤ → Value → Outcome ℤ
unfolding to_int
bounded_int not_a_number too_small most value = do
  parsed ← or_raise (to_int value) (value_error not_a_number)
  guard (if ltb_ℤ parsed (pos 1) then false else true) (value_error too_small)
  ok (min_ℤ parsed most)

unfoldable pub bounded_source_scan_page_size : Value → Outcome ℤ
unfolding bounded_int
bounded_source_scan_page_size value =
    bounded_int "source scan page size must be an integer"
      "source scan page size must be at least 1" (pos 5000) value

unfoldable pub bounded_prefix_length : Value → Outcome ℤ
unfolding bounded_int
bounded_prefix_length value =
    bounded_int "checksum prefix length must be an integer"
      "checksum prefix length must be at least 1" (pos 12) value

-- `text.strip()`
unfoldable pub strip : String → String
unfolding reverse_onto lstrip
strip s = reverse_onto (lstrip (reverse_onto (lstrip s) "")) ""

drop_semicolons : String → String
drop_semicolons String.[] = String.[]
drop_semicolons (String.◌∷◌ c s) =
    let rest = drop_semicolons s in if nat_eq (code c) b';' then rest else String.◌∷◌ c s

unfoldable pub normalized_source_query : String → Outcome String
unfolding strip reverse_onto drop_semicolons
normalized_source_query query =
    let unended = reverse_onto (drop_semicolons (reverse_onto (strip query) "")) "" in
    let normalized = strip unended in
    if normalized == "" then raise (value_error "source query is required") else ok normalized

-- `char.isalnum()`, for characters of ASCII.
abbrev pub is_alnum : Char → Bool
is_alnum c =
    let n = code c in is_digit c || ((leb b'A' n && leb n b'Z') || (leb b'a' n && leb n b'z'))

abbrev is_simple : String → Bool
is_simple String.[] = true
is_simple (String.◌∷◌ c s) = (nat_eq (code c) b'_' || is_alnum c) && is_simple s

abbrev starts_with_digit : String → Bool
starts_with_digit String.[] = false
starts_with_digit (String.◌∷◌ c s) = is_digit c

-- A name that passes the tests has no quotation mark to double.
unfoldable pub quote_identifier : String → Outcome String
quote_identifier identifier = do
  guard (not (identifier == "")) (value_error "identifier cannot be empty")
  guard (is_simple identifier) (value_error "unsupported identifier")
  guard (not (starts_with_digit identifier)) (value_error "identifiers cannot start with a digit")
  ok ("\"" & identifier & "\"")

unfoldable pub latest_query_watermark : List Row → Option String
unfolding texts_of max_text
latest_query_watermark rows = max_text (texts_of "updated_at" rows)

-- `str(value) if value else None`
abbrev pub shown_key : Value → Option String
unfolding truthy value_text
shown_key v = if truthy v then some (value_text v) else none

pub record ScanState : Type 0 where
  pub rows : List Row
  pub pages : ℕ
  pub last_key : Value
  pub first_key_text : Option String
  pub last_key_text : Option String
  pub source_watermark : Option String
  pub progress : List JsonFields

pub record ScanEnd : Type 0 where
  pub state : ScanState
  pub completed : Bool
  pub stop_reason : String

pub record PageRequest : Type 0 where
  pub source_query : String
  pub quoted_key : String
  pub after : Option Value
  pub limit : ℕ

-- The arguments once they are checked.
pub record ScanArgs : Type 0 where
  pub source_query : String
  pub quoted_key : String
  pub key_field : String
  pub page_size : ℕ
  pub resume_after_key : Value
  pub max_pages : ℤ

unfoldable pub query_scan_evidence : ScanArgs → ScanState → Bool → String → JsonFields
query_scan_evidence a s completed stop_reason = field "mode" (text "keyset") (
    field "key_field" (text a.key_field) (
      field "page_size" (number a.page_size) (
        field "pages" (number s.pages) (
          field "rows" (number (length s.rows)) (
            field "first_key" (text? s.first_key_text) (
              field "last_key" (text? s.last_key_text) (
                field "resume_after_key" (text? (shown_key a.resume_after_key)) (
                  field "source_watermark" (text? s.source_watermark) (
                    field "completed" (boolean completed)
                      (field "stop_reason" (text stop_reason) no_fields))))))))))

abbrev pub or_first : Option String → String → Option String
or_first none s = some s
or_first (some t) s = some t

-- One round of the loop over the rows of a page, and the loop.
abbrev pub read_row : Value → Row → ScanState → ScanState
read_row raw_key row s = record s {
  rows = s.rows ++ row ∷ [];
  last_key = raw_key;
  first_key_text = or_first s.first_key_text (value_text raw_key);
  last_key_text = some (value_text raw_key);
}

unfoldable pub take_rows : String → List Row → ScanState → Outcome ScanState
unfolding get value_text
take_rows key_field [] s = ok s
take_rows key_field (row ∷ page) s = elim (get key_field row) [
  | none ↦ raise (value_error "source query result is missing key field")
  | some raw_key ↦ take_rows key_field page (read_row raw_key row s)
]

-- What a page does to the state once its rows are read.
unfoldable pub mark_page : ScanArgs → ScanState → ScanState
unfolding latest_query_watermark query_scan_evidence
mark_page a read =
    let marked = record read { source_watermark = latest_query_watermark read.rows } in
    record marked { progress = marked.progress ++ query_scan_evidence a marked false "page" ∷ [] }

-- A page is counted before its rows are read, and told to `on_page` after.
unfoldable pub take_page : ScanArgs → List Row → ScanState → Outcome ScanState
unfolding take_rows mark_page
take_page a page s = do
  read ← take_rows a.key_field page (record s { pages = suc s.pages })
  ok (mark_page a read)

abbrev pub key_or_none : Value → Option Value
key_or_none v = if is_none v then none else some v

abbrev pub page_request : ScanArgs → Value → PageRequest
page_request a last_key = record {
  source_query = a.source_query;
  quoted_key = a.quoted_key;
  after = key_or_none last_key;
  limit = a.page_size;
}

abbrev pub reached_max : ScanArgs → ScanState → Bool
reached_max a s =
    ltb_ℤ (pos 0) a.max_pages && (if ltb_ℤ (pos s.pages) a.max_pages then false else true)

-- `len(page) < page_size`
unfoldable pub is_short : ScanArgs → List Row → Bool
is_short a page = ltb (length page) a.page_size

abbrev pub ended : Bool → String → ScanState → ScanEnd
ended completed reason s = record { state = s; completed = completed; stop_reason = reason }

abbrev pub scan_start : Value → ScanState
unfolding truthy
scan_start resume_after_key = record {
  rows = [];
  pages = 0;
  last_key = if truthy resume_after_key then resume_after_key else none_value;
  first_key_text = none;
  last_key_text = shown_key resume_after_key;
  source_watermark = none;
  progress = [];
}

-- The arguments are checked first.
unfoldable pub scan_args : String → String → Value → Value → ℤ → Outcome ScanArgs
unfolding strip bounded_source_scan_page_size normalized_source_query quote_identifier
scan_args query key_field page_size resume_after_key max_pages = do
  guard (not (strip query == "")) (value_error "source query is required")
  size ← bounded_source_scan_page_size page_size
  source_query ← normalized_source_query query
  quoted_key ← quote_identifier key_field
  ok (record {
    source_query = source_query;
    quoted_key = quoted_key;
    key_field = key_field;
    page_size = pos_part size;
    resume_after_key = resume_after_key;
    max_pages = max_pages;
  })

module _ (fetch : PageRequest → List Row) where
  -- The loop; `none` where the fuel does not last.
  unfoldable pub scan_pages : ScanArgs → ℕ → ScanState → Option (Outcome ScanEnd)
  unfolding take_page is_short
  scan_pages a zero s = none
  scan_pages a (suc fuel) s =
      let page = fetch (page_request a s.last_key) in
      let next : Option (Outcome ScanEnd) = elim (take_page a page s) [
        | raise e ↦ some (raise e)
        | ok s' ↦ elim (is_short a page) [
          | true ↦ some (ok (ended true "exhausted" s'))
          | false ↦ scan_pages a fuel s'
        ]
      ] in
      if reached_max a s
      then some (ok (ended false "max_pages" s))
      else if is_empty page
      then some (ok (ended true "exhausted" s))
      else next

  -- The result of the scan: its end, and the evidence that the report carries.
  unfoldable pub execute_source_query_keyset :
      ℕ → String → String → Value → Value → ℤ → Option (Outcome (ScanEnd × JsonFields))
  unfolding scan_args scan_pages query_scan_evidence
  execute_source_query_keyset fuel query key_field page_size resume_after_key max_pages =
      elim (scan_args query key_field page_size resume_after_key max_pages) [
        | raise e ↦ some (raise e)
        | ok a ↦ elim (scan_pages a fuel (scan_start resume_after_key)) [
          | none ↦ none
          | some done ↦ some (
              done >>= λ end.
              ok (end, query_scan_evidence a end.state end.completed end.stop_reason))
        ]
      ]
