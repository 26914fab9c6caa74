-- ===== src/Traffic/Endpoints.antt =====
-- packages/guardian_core/traffic/ingestor.py: the records of a batch, grouped by endpoint, and the
-- rows of `observed_endpoints`. `none` is an exception of `merge_json_schemas`.
use living_api_contract_guar.Common.{
  ℕ, ◌+◌, String, Bool, false, Option, none, some, List, [], ◌∷◌, ◌++◌, ◌&&◌, ◌==◌, string_key,
  pair_key, is_some, if◌then◌else◌,
}
use living_api_contract_guar.Common.Dict.{Dict}
use living_api_contract_guar.Json.Value.{Value, truthy}
use living_api_contract_guar.Diff.Raising.{◌>>=◌}
use living_api_contract_guar.Traffic.UrlMatch.{Node}
use living_api_contract_guar.Traffic.Observed.{normalize_observed_path}
use living_api_contract_guar.Traffic.Records.{HarRequestRecord, GrpcCallRecord}
use living_api_contract_guar.Traffic.Merge.{merge_json_schemas}
use living_api_contract_guar.Traffic.Tables.{
  Datetime, ObservedEndpoint, max_timestamp, parse_timestamp,
}

-- `_NormalizedRecord`
pub record NormalizedRecord : Type 0 where
  pub method : String
  pub path_template : String
  pub matched : Bool
  pub request_body : Value
  pub response_body : Value
  pub timestamp : Datetime

module _ (fromisoformat : String → Option Datetime) (now : Datetime) where
  -- `_normalize_har`
  unfoldable pub normalize_har : Option Node → List HarRequestRecord → List NormalizedRecord
  unfolding normalize_observed_path parse_timestamp
  normalize_har tree [] = []
  normalize_har tree (r ∷ records) =
      let (template, matched) = normalize_observed_path r.url r.method tree in
      record {
        method = r.method;
        path_template = template;
        matched = is_some matched;
        request_body = r.request_body;
        response_body = r.response_body;
        timestamp = parse_timestamp fromisoformat now r.timestamp;
      }
      ∷ normalize_har tree records

  -- `_normalize_grpc`
  unfoldable pub normalize_grpc : List GrpcCallRecord → List NormalizedRecord
  unfolding parse_timestamp
  normalize_grpc [] = []
  normalize_grpc (r ∷ records) =
      record {
        method = r.method;
        path_template = r.path;
        matched = false;
        request_body = r.request_body;
        response_body = r.response_body;
        timestamp = parse_timestamp fromisoformat now r.timestamp;
      }
      ∷ normalize_grpc records

abbrev pub Groups : Type 0
Groups = Dict (String × String) (List NormalizedRecord)

abbrev pub endpoint_of : NormalizedRecord → String × String
endpoint_of r = (r.method, r.path_template)

-- `grouped.setdefault(key, []).append(r)`
unfoldable pub append_at : NormalizedRecord → Groups → Groups
append_at r [] = (endpoint_of r, r ∷ []) ∷ []
append_at r ((key, records) ∷ grouped) =
    let rest = append_at r grouped in
    if key == endpoint_of r then (key, records ++ (r ∷ [])) ∷ grouped else (key, records) ∷ rest

unfoldable pub group_from : Groups → List NormalizedRecord → Groups
unfolding append_at
group_from grouped [] = grouped
group_from grouped (r ∷ records) = group_from (append_at r grouped) records

-- `_group_by_endpoint`
unfoldable pub group_by_endpoint : List NormalizedRecord → Groups
unfolding group_from
group_by_endpoint records = group_from [] records

-- What `_upsert_observed_endpoint` is called with.
pub record Observation : Type 0 where
  pub service_id : String
  pub method : String
  pub path_template : String
  pub request_schema : Value
  pub response_schema : Value
  pub new_samples : ℕ
  pub last_seen_at : Datetime

abbrev pub is_endpoint : String → String → String → ObservedEndpoint → Bool
is_endpoint service_id method path_template e =
    (e.service_id == service_id) && (e.method == method) && (e.path_template == path_template)

-- A schema of the row, refined by the new one.
abbrev refined : Value → Value → Option Value
refined old new = if truthy new then merge_json_schemas old new else some old

unfoldable pub refine : Observation → ObservedEndpoint → Option ObservedEndpoint
unfolding truthy merge_json_schemas max_timestamp
refine obs existing = do
  request_schema ← refined existing.request_schema obs.request_schema
  response_schema ← refined existing.response_schema obs.response_schema
  some (record existing {
    request_schema = request_schema;
    response_schema = response_schema;
    sample_count = existing.sample_count + obs.new_samples;
    last_seen_at = max_timestamp obs.last_seen_at existing.last_seen_at;
  })

unfoldable pub new_endpoint : String → Observation → ObservedEndpoint
new_endpoint id obs = record {
  id = id;
  service_id = obs.service_id;
  method = obs.method;
  path_template = obs.path_template;
  request_schema = obs.request_schema;
  response_schema = obs.response_schema;
  sample_count = obs.new_samples;
  last_seen_at = obs.last_seen_at;
}

abbrev put_refined :
    Option ObservedEndpoint
    → List ObservedEndpoint
    → Option (List ObservedEndpoint × ObservedEndpoint)
put_refined none rows = none
put_refined (some e) rows = some (e ∷ rows, e)

abbrev keep_row :
    ObservedEndpoint
    → Option (List ObservedEndpoint × ObservedEndpoint)
    → Option (List ObservedEndpoint × ObservedEndpoint)
keep_row e none = none
keep_row e (some (rows, found)) = some (e ∷ rows, found)

-- `_upsert_observed_endpoint`, with the id of a new row: the rows, and the endpoint's own
unfoldable pub upsert_observed_endpoint :
    String → Observation → List ObservedEndpoint → Option (List ObservedEndpoint × ObservedEndpoint)
unfolding refine new_endpoint
upsert_observed_endpoint id obs [] = some (new_endpoint id obs ∷ [], new_endpoint id obs)
upsert_observed_endpoint id obs (e ∷ rows) =
    let rest = upsert_observed_endpoint id obs rows in
    if is_endpoint obs.service_id obs.method obs.path_template e
    then put_refined (refine obs e) rows
    else keep_row e rest
