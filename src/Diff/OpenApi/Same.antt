-- ===== src/Diff/OpenApi/Same.antt =====
-- `diff_openapi` of openapi.py on a document and itself.
use living_api_contract_guar.Common.{
  String, Bool, true, false, Option, none, some, List, [], ◌∷◌, ◌≡◌, refl, arith, get_or,
  string_key, pair_key, beq_refl, Option-cases, inl, inr,
}
use living_api_contract_guar.Common.Dict.{Dict, get, in_both}
use living_api_contract_guar.Common.Text.{◌<>◌}
use living_api_contract_guar.Json.Value.{Value, str, as_dict, as_list, get_value, truthy}
use living_api_contract_guar.Diff.Models.Limits.{validated-some}
use living_api_contract_guar.Diff.Models.{RawChange}
use living_api_contract_guar.Diff.OpenApi.Reading.{
  paths, operations, component_schemas, params_by_key, param_type, request_body_schema,
  request_body_required, response_schema,
}
use living_api_contract_guar.Diff.OpenApi.Schema.{request_body, response}
use living_api_contract_guar.Diff.OpenApi.Operation.{
  Params, param_required_change, param_type_change, param_kept, param_changes, body_required_change,
  walk_params, walk_body, response_kept, walk_responses, walk_operation,
}
use living_api_contract_guar.Diff.OpenApi.Paths.{
  Operations, operation_at, walk_path_item, path_kept, walk_paths, component_kept, walk_components,
  walk_openapi, diff_openapi,
}
use living_api_contract_guar.Diff.OpenApi.Quiet.{
  only_in_self, collect_nothing, IsQuiet, some-IsQuiet, then-IsQuiet, yield_each-IsQuiet,
  enum_changes_self, diff_schema_self, unless_both_empty-IsQuiet,
}

param_required_change_self :
    (path method : String) (key : String × String) (b : Bool)
    → param_required_change path method key b b ≡ []
unfolding param_required_change
param_required_change_self path method key true = refl
param_required_change_self path method key false = refl

param_type_change_self :
    (path method : String) (key : String × String) (o : Option String)
    → param_type_change path method key o o ≡ []
unfolding param_type_change
param_type_change_self path method key none = refl
param_type_change_self path method key (some t) = rw (beq_refl t)

body_required_change_self :
    (path method : String) (b : Bool) → body_required_change path method b b ≡ []
unfolding body_required_change
body_required_change_self path method true = refl
body_required_change_self path method false = refl

param_kept_self :
    (path method : String) (params : Params) (key : String × String)
    → param_kept path method params params key ≡ []
unfolding param_kept
param_kept_self path method params key =
    let param = get_or (get key params) [] in
    rw (
      param_required_change_self path method key (truthy (get_value "required" param)),
      param_type_change_self path method key (param_type param),
    )

param_changes_self :
    (path method : String) (params : Params) → param_changes path method params params ≡ []
unfolding param_changes
param_changes_self path method params = rw (only_in_self params) (
    collect_nothing (param_kept path method params params) (in_both params params)
      (param_kept_self path method params))

module _ (repr : Value → String) (spec : Dict String Value) (path method : String)
    (op : Dict String Value) where
  walk_params_self : IsQuiet (walk_params repr spec spec path method op op)
  unfolding walk_params
  walk_params_self cs e = elim (Option-cases (params_by_key repr op)) [
    | inl n ↦ ground arith
    | inr (params, q) ↦ ground (arith, param_changes_self path method params)
  ]

  walk_body_self : IsQuiet (walk_body repr spec spec path method op op)
  unfolding walk_body
  walk_body_self =
      then-IsQuiet _ _
        (unless_both_empty-IsQuiet repr (request_body_schema spec op) _
          (diff_schema_self repr request_body _ (request_body_schema spec op)))
        (some-IsQuiet _ (body_required_change_self path method (request_body_required op)))

  response_kept_self :
      (code : String) → IsQuiet (response_kept repr spec spec path method op op code)
  unfolding response_kept
  response_kept_self code =
      unless_both_empty-IsQuiet repr (response_schema spec op code) _
        (diff_schema_self repr response _ (response_schema spec op code))

  walk_responses_self : IsQuiet (walk_responses repr spec spec path method op op)
  unfolding walk_responses
  walk_responses_self =
      let responses : Dict String Value = as_dict (get_value "responses" op) in
      then-IsQuiet _ _ (some-IsQuiet _ (rw (only_in_self responses))) (
        then-IsQuiet _ _ (some-IsQuiet _ (rw (only_in_self responses))) (
          yield_each-IsQuiet (response_kept repr spec spec path method op op)
            (in_both responses responses) response_kept_self))

  walk_operation_self : IsQuiet (walk_operation repr spec spec path method op op)
  unfolding walk_operation
  walk_operation_self =
      then-IsQuiet _ _ walk_params_self (then-IsQuiet _ _ walk_body_self walk_responses_self)

module _ (repr : Value → String) (spec : Dict String Value) where
  walk_path_item_self :
      (path : String) (ops : Operations) → IsQuiet (walk_path_item repr spec spec path ops ops)
  unfolding walk_path_item
  walk_path_item_self path ops = then-IsQuiet _ _ (some-IsQuiet _ (rw (only_in_self ops))) (
      then-IsQuiet _ _ (some-IsQuiet _ (rw (only_in_self ops))) (
        yield_each-IsQuiet _ (in_both ops ops)
          (λ method. walk_operation_self repr spec path method (operation_at method ops))))

  walk_paths_self : IsQuiet (walk_paths repr spec spec)
  unfolding walk_paths path_kept
  walk_paths_self = then-IsQuiet _ _ (some-IsQuiet _ (rw (only_in_self (paths spec)))) (
      then-IsQuiet _ _ (some-IsQuiet _ (rw (only_in_self (paths spec)))) (
        yield_each-IsQuiet _ (in_both (paths spec) (paths spec))
          (λ path. walk_path_item_self path (operations (as_dict (get_value path (paths spec)))))))

  component_kept_self : (name : String) → component_kept repr spec spec name ≡ []
  unfolding component_kept
  component_kept_self name =
      enum_changes_self repr ("/components/schemas/" <> name <> "/enum") (("schema", str name) ∷ [])
        (as_list (get_value "enum" (as_dict (get_value name (component_schemas spec)))))

  walk_components_self : walk_components repr spec spec ≡ []
  unfolding walk_components
  walk_components_self =
      collect_nothing (component_kept repr spec spec)
        (in_both (component_schemas spec) (component_schemas spec)) component_kept_self

  -- Unless a malformed document makes it raise, `diff_openapi` of a document and itself is empty.
  pub diff_openapi_self : (cs : List RawChange) → diff_openapi repr spec spec ≡ some cs → cs ≡ []
  unfolding diff_openapi walk_openapi
  diff_openapi_self cs h =
      then-IsQuiet _ _ walk_paths_self (some-IsQuiet _ walk_components_self) cs
        (validated-some (walk_openapi repr spec spec) cs h)
