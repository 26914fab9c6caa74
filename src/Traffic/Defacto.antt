-- ===== src/Traffic/Defacto.antt =====
-- packages/guardian_core/traffic/defacto.py. `none` is an exception: a part of the static document
-- that should be a dict is not one, or a schema of it is none.
pub mod Round
pub mod Kept
use living_api_contract_guar.Common.{
  ℕ, String, Bool, true, false, not, Option, none, some, List, [], ◌∷◌, ◌&&◌, ◌==◌, string_key,
  is_some, get_or, if◌then◌else◌,
}
use living_api_contract_guar.Common.Int.{ℤ, pos}
use living_api_contract_guar.Common.Dict.{Dict, get, put, keys}
use living_api_contract_guar.Common.Sets.{elem}
use living_api_contract_guar.Common.Text.{lower}
use living_api_contract_guar.Json.Value.{
  Value, null, boolean, int, str, obj, Fields, end, entries, object, as_dict, get_value, truthy,
}
use living_api_contract_guar.Diff.Raising.{◌>>=◌}
use living_api_contract_guar.Traffic.Merge.{merge_json_schemas}

-- One of the dicts of `observed`.
pub record ObservedSummary : Type 0 where
  pub method : String
  pub path_template : String
  pub request_schema : Value
  pub response_schema : Value
  pub sample_count : ℕ
  pub last_seen_at : String
  pub matched : Bool

-- `d.setdefault(key, default)`
abbrev pub set_default : String → Value → Dict String Value → Dict String Value
set_default key default d = elim (get key d) [ none ↦ put key default d | some v ↦ d ]

abbrev on_dict : (Dict String Value → Option (Dict String Value)) → Value → Option Value
on_dict f (obj fs) = do d ← f (entries fs); some (object d)
on_dict f v = none

-- What `f` does to the dict that `d.setdefault(key, default)` gives.
unfoldable pub within :
    String
    → Value
    → (Dict String Value → Option (Dict String Value))
    → Dict String Value
    → Option (Dict String Value)
unfolding get put entries
within key default f d = do v ← on_dict f (get_or (get key d) default); some (put key v d)

-- `json_ct["schema"] = merge_json_schemas(json_ct.get("schema"), schema)`
unfoldable pub merge_schema_at : Value → Dict String Value → Option (Dict String Value)
unfolding get_value put merge_json_schemas
merge_schema_at schema json_ct = do
  merged ← merge_json_schemas (get_value "schema" json_ct) schema
  some (put "schema" merged json_ct)

abbrev pub empty : Value
empty = obj end

unfoldable pub splice_request : Value → Dict String Value → Option (Dict String Value)
unfolding truthy within merge_schema_at
splice_request req_schema op =
    if truthy req_schema
    then within "requestBody" empty
        (within "content" empty (within "application/json" empty (merge_schema_at req_schema))) op
    else some op

unfoldable pub splice_response : Value → Dict String Value → Option (Dict String Value)
unfolding truthy within merge_schema_at
splice_response resp_schema op =
    if truthy resp_schema
    then within "responses" empty
        (within "200" (object (("description", str "observed") ∷ []))
          (within "content" empty (within "application/json" empty (merge_schema_at resp_schema))))
        op
    else some op

abbrev put_last_seen : String → Dict String Value → Dict String Value
put_last_seen last_seen_at op =
    if last_seen_at == "" then op else put "x-last-seen-at" (str last_seen_at) op

-- The telemetry annotations.
unfoldable pub telemetry : ObservedSummary → Dict String Value → Dict String Value
unfolding put
telemetry obs op =
    put "x-matched-static" (boolean obs.matched)
      (put_last_seen obs.last_seen_at (put "x-sample-count" (int (pos obs.sample_count)) op))

abbrev mark_source : Bool → Dict String Value → Dict String Value
mark_source true existing = put "x-source" (str "both") existing
mark_source false existing = set_default "x-source" (str "observed") existing

-- The body of the loop over `observed`.
unfoldable pub add_observed :
    List String → ObservedSummary → Dict String Value → Option (Dict String Value)
unfolding lower get put as_dict get_value elem splice_request splice_response telemetry
add_observed static_keys obs paths =
    let method = lower obs.method in
    let existing = as_dict (get_value obs.path_template paths) in
    do
      with_request ← splice_request obs.request_schema (as_dict (get_value method existing))
      op ← splice_response obs.response_schema with_request
      some (
          put obs.path_template
            (object (
              mark_source (elem obs.path_template static_keys)
                (put method (object (telemetry obs op)) existing)))
            paths)

unfoldable pub add_all_observed :
    List String → List ObservedSummary → Dict String Value → Option (Dict String Value)
unfolding add_observed
add_all_observed static_keys [] paths = some paths
add_all_observed static_keys (obs ∷ observed) paths = do
  next ← add_observed static_keys obs paths
  add_all_observed static_keys observed next

-- The last loop: a path without `x-source` is static.
abbrev mark_static : Value → Value
mark_static (obj fs) = object (set_default "x-source" (str "static") (entries fs))
mark_static v = v

unfoldable pub mark_all_static : Dict String Value → Dict String Value
unfolding get put entries
mark_all_static [] = []
mark_all_static ((path, v) ∷ paths) = (path, mark_static v) ∷ mark_all_static paths

abbrev pub default_info : Value
default_info = object (("title", str "defacto") ∷ ("version", str "0.0.0") ∷ [])

-- `base` before the loops
unfoldable pub base_of : Dict String Value → Dict String Value
unfolding get put
base_of [] = ("openapi", str "3.0.0") ∷ ("info", default_info) ∷ ("paths", empty) ∷ []
base_of (entry ∷ static_spec) =
    set_default "paths" empty
      (set_default "info" default_info (set_default "openapi" (str "3.0.0") (entry ∷ static_spec)))

-- `build_defacto_contract`; no static document is an empty one
unfoldable pub build_defacto_contract :
    Dict String Value → List ObservedSummary → Option (Dict String Value)
unfolding base_of as_dict get_value keys add_all_observed mark_all_static put
build_defacto_contract static_spec observed =
    let base = base_of static_spec in
    let paths = as_dict (get_value "paths" base) in
    do
      observed_paths ← add_all_observed (keys paths) observed paths
      some (put "paths" (object (mark_all_static observed_paths)) base)
