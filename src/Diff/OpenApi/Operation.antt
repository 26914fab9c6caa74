-- ===== src/Diff/OpenApi/Operation.antt =====
-- `_walk_operation` of openapi.py: parameters, request body and responses of one operation.
use living_api_contract_guar.Common.{
  String, Bool, true, false, not, Option, none, some, List, [], ◌∷◌, ◌++◌, map, collect, ◌&&◌, ◌||◌,
  get_or, if◌then◌else◌, string_key, pair_key, is_some,
}
use living_api_contract_guar.Common.Dict.{Dict, get, only_in, in_both}
use living_api_contract_guar.Common.Text.{◌<>◌, upper}
use living_api_contract_guar.Json.Value.{
  Value, null, boolean, str, object, as_dict, get_value, truthy,
}
use living_api_contract_guar.Diff.Models.{RawChange}
use living_api_contract_guar.Diff.Raising.{◌>>=◌, ◌then◌, yield_each}
use living_api_contract_guar.Diff.OpenApi.Reading.{
  request_body_schema, request_body_required, response_schema, params_by_key, param_type,
}
use living_api_contract_guar.Diff.OpenApi.Schema.{diff_schema, request_body, response}

abbrev pub Params : Type 0
Params = Dict (String × String) (Dict String Value)

-- `params[key]`
abbrev param_at : String × String → Params → Dict String Value
param_at key params = get_or (get key params) []

abbrev is_required : Dict String Value → Bool
is_required param = truthy (get_value "required" param)

abbrev param_location : String → String × String → String
param_location op_loc key = op_loc <> "/parameters/" <> key.0 <> "/" <> key.1

abbrev param_detail : String → String → String × String → Dict String Value
param_detail path method key =
    ("in", str key.0)
    ∷ ("name", str key.1)
    ∷ ("method", str (upper method))
    ∷ ("path", str path)
    ∷ []

-- the kind of an added parameter
unfoldable pub param_added_kind : Bool → String
param_added_kind required =
    if required then "openapi.parameter.added.required" else "openapi.parameter.added.optional"

abbrev type_value : Option String → Value
type_value none = null
type_value (some t) = str t

abbrev same_type : Option String → Option String → Bool
same_type none none = true
same_type (some s) (some t) = string_key.beq s t
same_type _ _ = false

module _ (path method : String) where
  abbrev pub op_location : String
  op_location = "/paths/" <> path <> "/" <> method

  unfoldable pub param_added : Params → String × String → RawChange
  param_added after_params key =
      let param = param_at key after_params in
      record {
        kind = param_added_kind (is_required param);
        location = param_location op_location key;
        before = null;
        after = object param;
        detail =
            ("in", str key.0)
            ∷ ("name", str key.1)
            ∷ ("required", boolean (is_required param))
            ∷ ("method", str (upper method))
            ∷ ("path", str path)
            ∷ [];
      }

  unfoldable pub param_removed : Params → String × String → RawChange
  param_removed before_params key = record {
    kind = "openapi.parameter.removed";
    location = param_location op_location key;
    before = object (param_at key before_params);
    after = null;
    detail = param_detail path method key;
  }

  unfoldable pub param_required_change : String × String → Bool → Bool → List RawChange
  param_required_change key true true = []
  param_required_change key false false = []
  param_required_change key false true =
      record {
        kind = "openapi.parameter.required.increased";
        location = param_location op_location key;
        before = boolean false;
        after = boolean true;
        detail = param_detail path method key;
      }
      ∷ []
  param_required_change key true false =
      record {
        kind = "openapi.parameter.required.decreased";
        location = param_location op_location key;
        before = boolean true;
        after = boolean false;
        detail = param_detail path method key;
      }
      ∷ []

  unfoldable pub param_type_change :
      String × String → Option String → Option String → List RawChange
  param_type_change key before_type after_type =
      if not (same_type before_type after_type) && (is_some before_type || is_some after_type)
      then record {
        kind = "openapi.parameter.type_changed";
        location = param_location op_location key;
        before = type_value before_type;
        after = type_value after_type;
        detail = param_detail path method key;
      }
        ∷ []
      else []

  -- the body of the loop over the parameters of both operations
  unfoldable pub param_kept : Params → Params → String × String → List RawChange
  param_kept before_params after_params key =
      let before_p = param_at key before_params in
      let after_p = param_at key after_params in
      param_required_change key (is_required before_p) (is_required after_p)
      ++ param_type_change key (param_type before_p) (param_type after_p)

  unfoldable pub param_changes : Params → Params → List RawChange
  param_changes before_params after_params =
      map (param_added after_params) (only_in after_params before_params)
      ++ (map (param_removed before_params) (only_in before_params after_params)
          ++ collect (param_kept before_params after_params) (in_both before_params after_params))

  unfoldable pub body_required_change : Bool → Bool → List RawChange
  body_required_change true true = []
  body_required_change false false = []
  body_required_change false true =
      record {
        kind = "openapi.request_body.property.required.increased";
        location = op_location <> "/requestBody";
        before = boolean false;
        after = boolean true;
        detail = ("method", str (upper method)) ∷ ("path", str path) ∷ [];
      }
      ∷ []
  body_required_change true false =
      record {
        kind = "openapi.request_body.property.required.decreased";
        location = op_location <> "/requestBody";
        before = boolean true;
        after = boolean false;
        detail = ("method", str (upper method)) ∷ ("path", str path) ∷ [];
      }
      ∷ []

  abbrev response_detail : String → Dict String Value
  response_detail code =
      ("status", str code) ∷ ("method", str (upper method)) ∷ ("path", str path) ∷ []

  unfoldable pub response_added : Dict String Value → String → RawChange
  response_added after_responses code = record {
    kind = "openapi.response.added";
    location = op_location <> "/responses/" <> code;
    before = null;
    after = get_value code after_responses;
    detail = response_detail code;
  }

  unfoldable pub response_removed : Dict String Value → String → RawChange
  response_removed before_responses code = record {
    kind = "openapi.response.removed";
    location = op_location <> "/responses/" <> code;
    before = get_value code before_responses;
    after = null;
    detail = response_detail code;
  }

-- `if before_schema or after_schema: yield from …`
abbrev pub unless_both_empty :
    Dict String Value → Dict String Value → Option (List RawChange) → Option (List RawChange)
unless_both_empty [] [] m = some []
unless_both_empty [] (e ∷ after) m = m
unless_both_empty (e ∷ before) after m = m

module _ (repr : Value → String) (before_spec after_spec : Dict String Value) (path method : String)
    (before_op after_op : Dict String Value) where
  -- the part of `_walk_operation` on parameters
  unfoldable pub walk_params : Option (List RawChange)
  walk_params = do
    before_params ← params_by_key repr before_op
    after_params ← params_by_key repr after_op
    some (param_changes path method before_params after_params)

  -- the part on the request body
  unfoldable pub walk_body : Option (List RawChange)
  walk_body =
      let before_body = request_body_schema before_spec before_op in
      let after_body = request_body_schema after_spec after_op in
      unless_both_empty before_body after_body (
        diff_schema repr request_body (op_location path method <> "/requestBody") before_body
          after_body)
      then some (
          body_required_change path method (request_body_required before_op)
            (request_body_required after_op))

  -- the body of the loop over the status codes of both operations
  unfoldable pub response_kept : String → Option (List RawChange)
  response_kept code =
      let before_schema = response_schema before_spec before_op code in
      let after_schema = response_schema after_spec after_op code in
      unless_both_empty before_schema after_schema (
        diff_schema repr response (op_location path method <> "/responses/" <> code) before_schema
          after_schema)

  -- the part on responses
  unfoldable pub walk_responses : Option (List RawChange)
  walk_responses =
      let before_responses = as_dict (get_value "responses" before_op) in
      let after_responses = as_dict (get_value "responses" after_op) in
      some (
        map (response_added path method after_responses) (only_in after_responses before_responses))
      then some (
          map (response_removed path method before_responses)
            (only_in before_responses after_responses))
      then yield_each response_kept (in_both before_responses after_responses)

  -- `_walk_operation`
  unfoldable pub walk_operation : Option (List RawChange)
  walk_operation = walk_params then walk_body then walk_responses
