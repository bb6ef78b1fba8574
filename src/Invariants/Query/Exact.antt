-- ===== src/Invariants/Query/Exact.antt =====
-- A query comparison is healthy exactly when every source row has its row in the target result.
use kube_data_guard.Common.{
  ◌≡◌, refl, sym, ◌∙◌, inl, inr, ◌↔◌, ◌==◌, eq_iff, true, false, not, ◌&&◌, Option, some, none,
  String, List, [], ◌∷◌, All, arith, Bool-cases, Option-cases, is_empty, nil_of_is_empty, All-map,
  if◌then◌else◌,
}
use kube_data_guard.Python.{
  ok, Dict, Row, value_text, is_none, get, put, get-put, cell, Yields, finish, follow,
}
use kube_data_guard.Invariants.Report.{drift_count, healthy, check_complete}
use kube_data_guard.Invariants.Status.Counts.{healthy_iff}
use kube_data_guard.Invariants.Verdict.{Verdict, agrees}
use kube_data_guard.Invariants.Verdict.Laws.{findings, no_findings-All, All-no_findings}
use kube_data_guard.Invariants.Window.{WindowArgs}
use kube_data_guard.Invariants.Query.{
  index_rows, comparable_value, same_text, compare_named_fields, judge_keyed, judge_row, judge_rows,
  QueryArgs, compare_query_results,
}

-- The last of the rows whose key reads `k`, told without a dictionary.
pub last_keyed : String → String → List Row → Option Row
last_keyed key_field k [] = none
last_keyed key_field k (row ∷ rows) = elim (last_keyed key_field k rows) [
  | some r ↦ some r
  | none ↦
      if not (is_none (cell key_field row)) && (value_text (cell key_field row) == k)
      then some row
      else none
]

or_built : Option Row → Option Row → Option Row
or_built none d = d
or_built (some r) d = some r

get-index_rows_from :
    (key_field k : String) (rows : List Row) (built : Dict Row)
    → get k (index_rows key_field rows built) ≡ or_built (last_keyed key_field k rows) (get k built)
unfolding index_rows last_keyed or_built
get-index_rows_from key_field k [] built = refl
get-index_rows_from key_field k (row ∷ rows) built =
    let v = cell key_field row in
    elim (Bool-cases (is_none v)) [
      | inl gone ↦ ground (arith, get-index_rows_from key_field k rows built)
      | inr there ↦ ground (
        arith,
        get-index_rows_from key_field k rows (put (value_text v) row built),
        get-put (value_text v) k row built,
      )
    ]

pub get-index_rows :
    (key_field k : String) (rows : List Row)
    → get k (index_rows key_field rows []) ≡ last_keyed key_field k rows
unfolding or_built get
get-index_rows key_field k rows = ground (arith, get-index_rows_from key_field k rows [])

-- The two rows read alike in each of the fields.
abbrev pub ReadAlike : Row → Row → List String → Type 0
ReadAlike source target names =
    All (λ name. comparable_value (cell name source) ≡ comparable_value (cell name target)) names

same_text_iff : (a b : Option String) → (same_text a b ≡ true) ↔ (a ≡ b)
same_text_iff none none = ground arith
same_text_iff none (some b) = ground arith
same_text_iff (some a) none = ground arith
same_text_iff (some a) (some b) = ground (arith, eq_iff a b)

ReadAlike-of_nil :
    (source target : Row) (names : List String)
    → compare_named_fields source target names ≡ []
    → ReadAlike source target names
unfolding compare_named_fields
ReadAlike-of_nil source target [] e = tt
ReadAlike-of_nil source target (n ∷ ns) e =
    let a = comparable_value (cell n source) in
    let b = comparable_value (cell n target) in
    elim (Bool-cases (same_text a b)) [
      | inl h ↦ ((same_text_iff a b).0 h, ReadAlike-of_nil source target ns (rw h at e))
      | inr h ↦ absurd (cc (rw h at e))
    ]

compare_named_fields-nil :
    (source target : Row) (names : List String)
    → ReadAlike source target names
    → compare_named_fields source target names ≡ []
unfolding compare_named_fields
compare_named_fields-nil source target [] h = refl
compare_named_fields-nil source target (n ∷ ns) h =
    rw ((same_text_iff (comparable_value (cell n source)) (comparable_value (cell n target))).1 h.0)
      (compare_named_fields-nil source target ns h.1)

-- What a query invariant asks of one source row, told without the check: it has a key, the target
-- result has a row with that key, and the last such row reads alike in every field compared.
pub record IsMatched (key_field : String) (names : List String) (targets : List Row) (source : Row)
    : Type 0 where
  pub target : Row
  pub keyed : is_none (cell key_field source) ≡ false
  pub found : last_keyed key_field (value_text (cell key_field source)) targets ≡ some target
  pub alike : ReadAlike source target names

module _ (key_field : String) (names : List String) (targets : List Row) where
  abbrev judge : Row → Verdict
  judge = judge_row key_field names (index_rows key_field targets [])

  IsMatched-of_agrees :
      (source : Row) → ok (judge source) ≡ ok agrees → IsMatched key_field names targets source
  unfolding judge_row judge_keyed
  IsMatched-of_agrees source e = elim (Bool-cases (is_none (cell key_field source))) [
    | inl gone ↦ absurd (cc (rw gone at e))
    | inr keyed ↦
        let k = value_text (cell key_field source) in
        elim (Option-cases (get k (index_rows key_field targets []))) [
          | inl absent ↦ absurd (cc (rw (keyed, absent) at e))
          | inr (target, present) ↦
              elim (Bool-cases (is_empty (compare_named_fields source target names))) [
                | inl equal ↦ record {
                  target = target;
                  keyed = keyed;
                  found = sym (get-index_rows key_field k targets) ∙ present;
                  alike = ReadAlike-of_nil source target names (nil_of_is_empty _ equal);
                }
                | inr differ ↦ absurd (cc (rw (keyed, present, differ) at e))
              ]
        ]
  ]

  agrees_of_IsMatched :
      (source : Row) → IsMatched key_field names targets source → ok (judge source) ≡ ok agrees
  unfolding judge_row judge_keyed
  agrees_of_IsMatched source s =
      rw
        (
          s.keyed,
          get-index_rows key_field (value_text (cell key_field source)) targets ∙ s.found,
          compare_named_fields-nil source s.target names s.alike,
        )
        refl

  judge_rows-Yields :
      (rows : List Row)
      → Yields
          (λ row. ok (judge row))
          rows
          (judge_rows key_field names (index_rows key_field targets []) rows)
  unfolding judge_rows
  judge_rows-Yields [] = finish
  judge_rows-Yields (row ∷ rows) = follow refl (judge_rows-Yields rows)

-- The report of a query comparison is healthy exactly when the scan behind it was complete and every
-- source row has a key, a target row with that key, and reads as the last such row does in every
-- field compared.
pub query_healthy_iff :
    (args : WindowArgs) (q : QueryArgs) (sources targets : List Row)
    → (healthy (compare_query_results args q sources targets) ≡ true) ↔ (
        (q.check_status ≡ check_complete)
        × All (IsMatched q.key_field q.compare_fields targets) sources)
unfolding compare_query_results drift_count
query_healthy_iff args q sources targets =
    let k = q.key_field in
    let names = q.compare_fields in
    let ys = judge_rows-Yields k names targets sources in
    let iff = healthy_iff (compare_query_results args q sources targets) in
    let f = λ (row : Row). ok (judge k names targets row) in
    let vs = judge_rows k names (index_rows k targets []) sources in
    (
      λ h.
          let (done, none_found) = iff.0 h in
          (
            done,
            All-map (λ row. f row ≡ ok agrees) (IsMatched k names targets) sources
                (IsMatched-of_agrees k names targets) (no_findings-All f ys (omega arith)),
          ),
      λ h.
          let zero_found : findings vs ≡ 0 = All-no_findings f ys (
            All-map (IsMatched k names targets) (λ row. f row ≡ ok agrees) sources
              (agrees_of_IsMatched k names targets) h.1) in
          iff.1 (h.0, omega arith),
    )
