-- ===== src/Invariants/Verdict.antt =====
-- What a comparison finds of one source row, and the lists that its loop fills.
pub mod Laws
use kube_data_guard.Common.{String, List, [], ◌∷◌, Option, none, if◌then◌else◌}
use kube_data_guard.Python.{Value, str_value, value_eq, Dict, Row, get, cell}
use kube_data_guard.Invariants.Report.{Mismatch, MissingItem, StaleItem}

-- What the loop finds of one source row.
pub data Verdict : Type 0 where
  agrees : Verdict
  is_missing : MissingItem → Verdict
  is_stale : StaleItem → Verdict

-- The lists that the loop fills.
unfoldable pub missing_items : List Verdict → List MissingItem
missing_items [] = []
missing_items (is_missing m ∷ vs) = m ∷ missing_items vs
missing_items (_ ∷ vs) = missing_items vs

unfoldable pub stale_items : List Verdict → List StaleItem
stale_items [] = []
stale_items (is_stale s ∷ vs) = s ∷ stale_items vs
stale_items (_ ∷ vs) = stale_items vs

-- `d.get(key)` with a key that may be any value: the keys are texts.
unfoldable pub get_by_id : Value → Dict Row → Option Row
unfolding get
get_by_id (str_value k) d = get k d
get_by_id _ d = none
