-- ===== src/Diff/OpenApi/Reading.antt =====
-- The readers of openapi.py: what the walkers take from a document.
use living_api_contract_guar.Common.{
  zero, suc, String, Bool, true, false, Option, none, some, List, [], ◌∷◌, map, select, get_or,
  if◌then◌else◌, string_key, pair_key,
}
use living_api_contract_guar.Common.Int.{pos, negsuc}
use living_api_contract_guar.Common.Dict.{Dict, get, put, keys}
use living_api_contract_guar.Common.Sets.{elem}
use living_api_contract_guar.Common.Text.{lower, letters, has_prefix, split}
use living_api_contract_guar.Json.Value.{
  Value, null, boolean, int, frac, str, arr, obj, items, entries, as_dict, as_str, get_value,
  truthy,
}
use living_api_contract_guar.Diff.Raising.{◌>>=◌}

-- `_HTTP_METHODS`
abbrev pub http_methods : List String
http_methods = "get" ∷ "post" ∷ "put" ∷ "patch" ∷ "delete" ∷ "head" ∷ "options" ∷ "trace" ∷ []

-- `_paths`
unfoldable pub paths : Dict String Value → Dict String Value
unfolding as_dict get_value
paths spec = as_dict (get_value "paths" spec)

-- `_operations`
unfoldable pub operations : Dict String Value → Dict String (Dict String Value)
unfolding as_dict elem
operations path_item =
    map (λ p. (p.0, as_dict p.1)) (select (λ p. elem (lower p.0) http_methods) path_item)

-- `spec["components"]["schemas"]`, as dicts
unfoldable pub component_schemas : Dict String Value → Dict String Value
unfolding as_dict get_value
component_schemas spec = as_dict (get_value "schemas" (as_dict (get_value "components" spec)))

last_part : List String → String
last_part [] = ""
last_part (part ∷ []) = part
last_part (part ∷ more ∷ parts) = last_part (more ∷ parts)

-- the branch of `_resolve_schema` for a schema that is a dict
resolve_dict : Dict String Value → Option String → Dict String Value → Dict String Value
unfolding as_dict get_value component_schemas last_part
resolve_dict spec none schema = schema
resolve_dict spec (some ref) schema =
    if has_prefix "#/components/schemas/" ref
    then as_dict (get_value (last_part (split b'/' ref)) (component_schemas spec))
    else schema

-- `_resolve_schema`
unfoldable pub resolve_schema : Dict String Value → Value → Dict String Value
unfolding resolve_dict as_str get_value entries
resolve_schema spec (obj fs) =
    resolve_dict spec (as_str (get_value "$ref" (entries fs))) (entries fs)
resolve_schema spec _ = []

-- `block["content"]["application/json"]["schema"]`
json_schema : Dict String Value → Value
unfolding as_dict get_value
json_schema block =
    get_value "schema"
      (as_dict (get_value "application/json" (as_dict (get_value "content" block))))

-- `_request_body_schema`
unfoldable pub request_body_schema : Dict String Value → Dict String Value → Dict String Value
unfolding resolve_schema json_schema as_dict get_value
request_body_schema spec op =
    resolve_schema spec (json_schema (as_dict (get_value "requestBody" op)))

-- `_request_body_required`
unfoldable pub request_body_required : Dict String Value → Bool
unfolding as_dict get_value truthy
request_body_required op = truthy (get_value "required" (as_dict (get_value "requestBody" op)))

-- `_response_schema`
unfoldable pub response_schema : Dict String Value → Dict String Value → String → Dict String Value
unfolding resolve_schema json_schema as_dict get_value
response_schema spec op code =
    resolve_schema spec
      (json_schema (as_dict (get_value code (as_dict (get_value "responses" op)))))

-- `iter(value or [])`, which raises on a number and on True
unfoldable pub iterate : Value → Option (List Value)
unfolding items entries letters
iterate null = some []
iterate (boolean false) = some []
iterate (boolean true) = none
iterate (int (pos zero)) = some []
iterate (int (pos (suc n))) = none
iterate (int (negsuc n)) = none
iterate (frac s) = none
iterate (str s) = some (map str (letters s))
iterate (arr vs) = some (items vs)
iterate (obj fs) = some (map str (keys (entries fs)))

is_hashable : Value → Bool
is_hashable (arr vs) = false
is_hashable (obj fs) = false
is_hashable _ = true

-- The texts in `set(values)`, which raises on a value that is not hashable.
hashed_texts : List Value → Option (List String)
unfolding is_hashable
hashed_texts [] = some []
hashed_texts (str s ∷ vs) = do rest ← hashed_texts vs; some (s ∷ rest)
hashed_texts (v ∷ vs) = do rest ← hashed_texts vs; if is_hashable v then some rest else none

-- The texts in `set(schema.get("required") or [])`
unfoldable pub required_names : Dict String Value → Option (List String)
unfolding hashed_texts iterate get_value
required_names schema = do values ← iterate (get_value "required" schema); hashed_texts values

-- `_param_type`
unfoldable pub param_type : Dict String Value → Option String
unfolding as_dict as_str get_value
param_type param = as_str (get_value "type" (as_dict (get_value "schema" param)))

module _ (repr : Value → String) where
  -- `str(value)`
  as_text : Value → String
  as_text (str s) = s
  as_text v = repr v

  -- `str(param.get(key, default))`
  text_at : String → String → Dict String Value → String
  unfolding as_text get
  text_at key default param = as_text (get_or (get key param) (str default))

  index_params :
      Dict (String × String) (Dict String Value)
      → List Value
      → Dict (String × String) (Dict String Value)
  unfolding text_at put entries
  index_params out [] = out
  index_params out (obj p ∷ ps) =
      index_params
        (put (text_at "in" "query" (entries p), text_at "name" "" (entries p)) (entries p) out) ps
  index_params out (v ∷ ps) = index_params out ps

  -- `_params_by_key`
  unfoldable pub params_by_key :
      Dict String Value → Option (Dict (String × String) (Dict String Value))
  unfolding index_params iterate get_value
  params_by_key op = do params ← iterate (get_value "parameters" op); some (index_params [] params)
