-- ===== src/Tests/Searches.antt =====
-- The theorems on checkpoints and target searches, at concrete inputs.
use mathlib.Core.Path.{subst}
use kube_data_guard.Common.{
  ◌≡◌, refl, sym, ap, ◌∙◌, ◌==◌, ◌≤◌, Bool, true, false, Option, none, some, String, List, [], ◌∷◌,
  ◌++◌, map, take, if◌then◌else◌, arith,
}
use kube_data_guard.Common.Int.{pos}
use kube_data_guard.Python.{
  Outcome, ok, raise, runtime_error, str_value, Dict, get, put, get-put, size, AllChars, Json,
  JsonFields, scalar, array, item, field, no_fields, text, find,
}
use kube_data_guard.Scan.{bounded_int}
use kube_data_guard.Scan.Bounds.{IsBetween, bounded_int-IsBetween}
use kube_data_guard.Checkpoints.{
  S3Answer, refused, Blobs, Settings, is_safe_char, safe_checkpoint_id, save_scan_checkpoint,
  load_scan_checkpoint, normalize_checkpoint_payload,
}
use kube_data_guard.Checkpoints.Names.{safe_checkpoint_id-AllChars}
use kube_data_guard.Checkpoints.RoundTrip.{IsCheckpoint, load-save_scan_checkpoint}
use kube_data_guard.Search.{Hit, hit_row, page_body, default_sort, paginated_search}
use kube_data_guard.Search.Pages.{Serves, paginated_search-whole}
use kube_data_guard.Tests.{order}

safe_checkpoint_id-AllChars_example :
    AllChars is_safe_char "orders-query"
    × (size "orders-query" ≤ 180)
    × (("orders-query" == "") ≡ false)
unfolding safe_checkpoint_id
safe_checkpoint_id-AllChars_example =
    safe_checkpoint_id-AllChars " orders/query " "orders-query" refl

bounded_int-IsBetween_example : IsBetween 5000 (pos 5000)
unfolding bounded_int
bounded_int-IsBetween_example =
    bounded_int-IsBetween "not a number" "too small" 4999 (str_value " 70000") (pos 5000) refl

-- Files in a dictionary, and a bucket that cannot be reached.
abbrev read_file : Option JsonFields → Option (Outcome JsonFields)
read_file none = none
read_file (some d) = some (ok d)

read_choice :
    (b : Bool) (d : JsonFields) (o : Option JsonFields)
    → read_file (if b then some d else o) ≡ (if b then some (ok d) else read_file o)
read_choice true d o = refl
read_choice false d o = refl

pub file_law :
    (path : String) (d : JsonFields) (s s' : Dict JsonFields)
    → ◌≡◌ {A = Outcome (Dict JsonFields)} (ok (put path d s)) (ok s')
    → (q : String) → read_file (get q s') ≡ (if path == q then some (ok d) else read_file (get q s))
file_law path d s s' e q =
    let same : put path d s ≡ s' = cc in
    ap (λ t. read_file (get q t)) (sym same)
    ∙ (ap read_file (get-put path q d s) ∙ read_choice (path == q) d (get q s))

abbrev unreachable : Dict JsonFields → String → String → S3Answer
unreachable s bucket key = refused "404" (runtime_error "no bucket")

pub bucket_law :
    (bucket key : String) (d : JsonFields) (s s' : Dict JsonFields)
    → ◌≡◌ {A = Outcome (Dict JsonFields)} (raise (runtime_error "no bucket")) (ok s')
    → (q : String)
    → unreachable s' bucket q ≡ (if key == q then S3Answer.body d else unreachable s bucket q)
bucket_law bucket key d s s' e q = absurd (cc e)

abbrev pub files : Blobs
files = record {
  State = Dict JsonFields;
  file = λ s path. read_file (get path s);
  write_file = λ path d s. ok (put path d s);
  get_object = unreachable;
  put_object = λ bucket key d s. raise (runtime_error "no bucket");
  stored = λ d. d;
  find-stored = λ name d. refl;
  file-write_file = file_law;
  get_object-put_object = bucket_law;
}

abbrev pub settings : Settings
settings = record {
  report_store = "local";
  checkpoint_dir = "reports/scan-checkpoints";
  report_bucket = "";
  report_prefix = "";
}

abbrev payload : JsonFields
payload = field "last_key" (text "b") no_fields

abbrev pub no_files : Dict JsonFields
no_files = []

load-save_scan_checkpoint_example :
    (d : JsonFields) × (load_scan_checkpoint files settings "orders/query" (
        put "reports/scan-checkpoints/orders-query.json"
          (normalize_checkpoint_payload "now" "orders/query" payload)
          no_files)
      ≡ ok (some d))
    × IsCheckpoint "now" "orders/query" payload d
unfolding save_scan_checkpoint
load-save_scan_checkpoint_example =
    load-save_scan_checkpoint files settings "now" "orders/query"
      "file://reports/scan-checkpoints/orders-query.json" payload no_files
      (put "reports/scan-checkpoints/orders-query.json"
        (normalize_checkpoint_payload "now" "orders/query" payload) no_files)
      refl

-- Two hits, a page for each.
abbrev hit : String → Hit
hit id = record { id = str_value id; source = order id "paid"; sort = str_value id ∷ [] }

abbrev pub hits : List Hit
hits = hit "a" ∷ hit "b" ∷ []

abbrev answer : Option Json → Outcome (List Hit)
answer none = ok (hit "a" ∷ [])
answer (some (array (item (scalar (str_value k)) js))) =
    if k == "a" then ok (hit "b" ∷ []) else ok []
answer (some j) = ok []

abbrev pub search_hits : JsonFields → Outcome (List Hit)
unfolding find
search_hits body = answer (find "search_after" body)

abbrev pub sorted_body : JsonFields
sorted_body = field "sort" (default_sort "id") no_fields

abbrev head_of : List Hit → Hit
head_of [] = hit ""
head_of (h ∷ hs) = h

abbrev tail_of : List Hit → List Hit
tail_of [] = []
tail_of (h ∷ hs) = hs

filled : (before : List Hit) (h : Hit) (after : List Hit) → [] ≡ before ++ h ∷ after → ⊥
filled [] h after e = cc
filled (x ∷ before) h after e = cc

AnswersBehind : Hit → List Hit → Type 0
AnswersBehind h after = search_hits (page_body sorted_body 1 h.sort) ≡ ok (take 1 after)

behind_hits :
    (before : List Hit) (h : Hit) (after : List Hit)
    → hits ≡ before ++ h ∷ after
    → AnswersBehind h after
unfolding AnswersBehind page_body find
behind_hits [] h after e =
    subst (λ g. AnswersBehind g after) (ap head_of e)
      (subst (λ l. AnswersBehind (hit "a") l) (ap tail_of e) refl)
behind_hits (x ∷ []) h after e =
    subst (λ g. AnswersBehind g after) (ap (λ l. head_of (tail_of l)) e)
      (subst (λ l. AnswersBehind (hit "b") l) (ap (λ l. tail_of (tail_of l)) e) refl)
behind_hits (x ∷ y ∷ before) h after e =
    absurd (filled before h after (ap (λ l. tail_of (tail_of l)) e))

pub search_hits-Serves : Serves search_hits sorted_body 1 hits
unfolding page_body find AnswersBehind
search_hits-Serves = record { first = refl; behind = behind_hits; sorted = (refl, (refl, tt)) }

paginated_search-whole_example :
    paginated_search search_hits 3 sorted_body 1 "id" ≡ some (ok (map (hit_row "id") hits))
paginated_search-whole_example =
    paginated_search-whole search_hits sorted_body 1 "id" hits 3 (omega arith) search_hits-Serves
      (omega arith)
