-- ===== src/Checker/Query/Resumed.antt =====
-- Where the next check of a query goes on.
use kube_data_guard.Common.{◌==◌, Bool, false, Option, none, some, String, List, if◌then◌else◌}
use kube_data_guard.Python.{
  Outcome, ok, raise, value_error, Value, Row, none_value, str_value, JsonFields,
}
use kube_data_guard.Scan.{PageRequest}
use kube_data_guard.Jobs.{QueryCall}
use kube_data_guard.Search.{Hit}
use kube_data_guard.Checker.Query.{QueryServices}

-- The same check again, which does not reset its checkpoint and names no key to resume after.
abbrev pub again : QueryCall → QueryCall
again q = record q { source_reset_checkpoint = false; source_resume_after_key = none }

-- The services at a later time: the source and the target may answer differently.
abbrev pub later :
    QueryServices → (PageRequest → List Row) → (JsonFields → Outcome (List Hit)) → QueryServices
later s fetch search = record s { fetch = fetch; search = search }

-- The key of that text, an empty one being none.
abbrev pub key_of_text : Option String → Value
key_of_text none = none_value
key_of_text (some t) = if t == "" then none_value else str_value t

refused : String → Bool → Outcome (Unit {0})
refused hash differs =
    if differs then raise (value_error "checkpoint was created for a different query") else ok tt
