-- ===== src/KubeReport.antt =====
-- src/dataguard/k8s_report.py: the part of a report that a ConfigMap carries to the repair job, and the
-- requests that write and read the ConfigMap. The HTTP client, the service account's files, the
-- environment and `json.dumps` are fields of `Cluster`.
pub mod Candidates
use kube_data_guard.Common.{
  ℕ, ◌==◌, ◌||◌, Bool, true, false, Option, none, some, String, List, [], ◌∷◌, ◌++◌, map, nat_eq,
  if◌then◌else◌,
}
use kube_data_guard.Python.{
  Outcome, ok, raise, key_error, value_error, runtime_error, ◌>>=◌, ◌>>◌, Json, JsonItems,
  JsonFields, no_items, item, no_fields, field, scalar, array, object, null, text, list,
  get_default, find,
}
use kube_data_guard.Merkle.{◌&◌}
use kube_data_guard.Scan.{strip}

abbrev pub is_candidate_key : String → Bool
is_candidate_key key = key == "order_id" || key == "reason" || key == "mismatches"

-- `{key: value for key, value in item.items() if key in {...}}`
unfoldable pub keep_candidate_keys : JsonFields → JsonFields
keep_candidate_keys no_fields = no_fields
keep_candidate_keys (field key value rest) =
    if is_candidate_key key
    then field key value (keep_candidate_keys rest)
    else keep_candidate_keys rest

-- The loop over the items; what is no dictionary is passed over.
unfoldable pub compact_items : JsonItems → JsonItems
unfolding keep_candidate_keys
compact_items no_items = no_items
compact_items (item (object d) items) = item (object (keep_candidate_keys d)) (compact_items items)
compact_items (item (array a) items) = compact_items items
compact_items (item (scalar v) items) = compact_items items

unfoldable pub candidate_items : Json → Json
unfolding compact_items
candidate_items (array items) = array (compact_items items)
candidate_items _ = list []

unfoldable pub repair_input : JsonFields → JsonFields
unfolding get_default candidate_items
repair_input report = field "kind" (get_default "kind" (text "KubeDataGuardRepairInput") report) (
    field "invariant" (get_default "invariant" null report) (
      field "status" (get_default "status" null report) (
        field "healthy" (get_default "healthy" null report) (
          field "missing" (candidate_items (get_default "missing" (list []) report)) (
            field "stale" (candidate_items (get_default "stale" (list []) report)) (
              field "freshness_violations"
                (candidate_items (get_default "freshness_violations" (list []) report))
                (field "aggregate_mismatches" (get_default "aggregate_mismatches" (list []) report)
                  (field "sourceReportRef" (get_default "sourceReportRef" null report)
                    no_fields))))))))

pub record KubeRequest : Type 0 where
  pub url : String
  pub method : String
  pub token : String
  pub payload : Option Json
  pub content_type : Option String

-- How a request ends: answered, or with the code of an `HTTPError`.
pub data Reply : Type 0 where
  answered : Reply
  http_error : ℕ → Reply

pub record Cluster : Type 0 where
  pub getenv : String → Option String
  pub token_file : String
  pub dumps : Json → String
  pub show : Json → String
  pub reply : KubeRequest → Reply
  pub fetch : KubeRequest → Outcome Json

module _ (c : Cluster) where
  abbrev pub service_host : Outcome String
  service_host = elim (c.getenv "KUBERNETES_SERVICE_HOST") [
    | none ↦ raise (key_error "KUBERNETES_SERVICE_HOST")
    | some host ↦ ok host
  ]

  abbrev pub service_port : String
  service_port = elim (c.getenv "KUBERNETES_SERVICE_PORT") [ none ↦ "443" | some port ↦ port ]

  unfoldable pub configmaps_url : String → Outcome String
  configmaps_url namespace = do
    host ← service_host
    ok ("https://" & host & ":" & service_port & "/api/v1/namespaces/" & namespace & "/configmaps")

  unfoldable pub token : String
  unfolding strip
  token = strip c.token_file

  abbrev pub get_request : String → KubeRequest
  get_request url = record {
    url = url;
    method = "GET";
    token = token;
    payload = none;
    content_type = none;
  }

  unfoldable pub configmap_exists : String → Outcome Bool
  unfolding token
  configmap_exists url = elim (c.reply (get_request url)) [
    | answered ↦ ok true
    | http_error code ↦ if nat_eq code 404 then ok false else raise (runtime_error "HTTPError")
  ]

  abbrev pub metadata_json : String → String → Json
  metadata_json namespace name = object (
      field "name" (text name) (
        field "namespace" (text namespace) (
          field "labels"
            (object (
              field "app.kubernetes.io/name" (text "kubedataguard")
                (field "dataguard.io/report" (text "true") no_fields)))
            no_fields)))

  abbrev pub data_json : JsonFields → JsonFields → Json
  unfolding repair_input
  data_json report status = object (
      field "repair-input.json" (text (c.dumps (object (repair_input report))))
        (field "status.json" (text (c.dumps (object status))) no_fields))

  -- The request that writes the ConfigMap: a merge where it exists, else its creation.
  unfoldable pub write_request :
      String → String → String → JsonFields → JsonFields → Bool → KubeRequest
  unfolding token repair_input
  write_request url namespace name report status true = record {
    url = url & "/" & name;
    method = "PATCH";
    token = token;
    payload = some (
        object (
          field "metadata" (metadata_json namespace name)
            (field "data" (data_json report status) no_fields)));
    content_type = some "application/merge-patch+json";
  }
  write_request url namespace name report status false = record {
    url = url;
    method = "POST";
    token = token;
    payload = some (
        object (
          field "apiVersion" (text "v1") (
            field "kind" (text "ConfigMap") (
              field "metadata" (metadata_json namespace name)
                (field "data" (data_json report status) no_fields)))));
    content_type = some "application/json";
  }

  -- The requests that write, and how the function ends.
  unfoldable pub publish_report_configmap :
      String → String → JsonFields → JsonFields → List KubeRequest × Outcome (Unit {0})
  unfolding configmaps_url configmap_exists write_request
  publish_report_configmap namespace name report status =
      let plan : Outcome KubeRequest = configmaps_url namespace >>= λ url.
      configmap_exists (url & "/" & name) >>= λ found.
      ok (write_request url namespace name report status found) in
      elim plan [
        | raise e ↦ ([], raise e)
        | ok request ↦ elim (c.reply request) [
          | answered ↦ (request ∷ [], ok tt)
          | http_error code ↦ (request ∷ [], raise (runtime_error "HTTPError"))
        ]
      ]

  -- `{str(key): str(value) for key, value in data.items()}`
  unfoldable pub data_texts : JsonFields → List (String × String)
  data_texts no_fields = []
  data_texts (field key value rest) = (key, c.show value) ∷ data_texts rest

  abbrev pub object_of : Json → Option JsonFields
  object_of (object d) = some d
  object_of _ = none

  unfoldable pub read_configmap_data : String → String → Outcome (List (String × String))
  unfolding configmaps_url token data_texts find
  read_configmap_data namespace name = do
    url ← configmaps_url namespace
    payload ← c.fetch (get_request (url & "/" & name))
    elim (object_of payload) [
      | none ↦ raise (runtime_error "AttributeError")
      | some fields ↦ elim (object_of (get_default "data" null fields)) [
        | none ↦ raise (value_error "ConfigMap has no data object")
        | some data_fields ↦ ok (data_texts data_fields)
      ]
    ]
