-- ===== src/Diff/OpenApi/Paths.antt =====
-- `diff_openapi` of openapi.py, and the walkers of paths, path items and components.
use living_api_contract_guar.Common.{
  String, Option, some, List, [], ◌∷◌, map, collect, get_or, string_key,
}
use living_api_contract_guar.Common.Dict.{Dict, get, keys, only_in, in_both}
use living_api_contract_guar.Common.Sets.{sorted}
use living_api_contract_guar.Common.Text.{◌<>◌, upper}
use living_api_contract_guar.Json.Value.{
  Value, null, str, object, texts, as_dict, as_list, get_value,
}
use living_api_contract_guar.Diff.Models.{RawChange, validated}
use living_api_contract_guar.Diff.Raising.{◌then◌, yield_each}
use living_api_contract_guar.Diff.OpenApi.Reading.{paths, operations, component_schemas}
use living_api_contract_guar.Diff.OpenApi.Schema.{enum_changes}
use living_api_contract_guar.Diff.OpenApi.Operation.{walk_operation}

-- `sorted(m.upper() for m in _operations(…))`
unfoldable pub methods_of : Value → List String
unfolding operations as_dict sorted upper keys
methods_of item = sorted (map upper (keys (operations (as_dict item))))

unfoldable pub path_added : Dict String Value → String → RawChange
path_added after_paths path = record {
  kind = "openapi.path.added";
  location = "/paths/" <> path;
  before = null;
  after = get_value path after_paths;
  detail = ("path", str path) ∷ ("methods", texts (methods_of (get_value path after_paths))) ∷ [];
}

unfoldable pub path_removed : Dict String Value → String → RawChange
path_removed before_paths path = record {
  kind = "openapi.path.removed";
  location = "/paths/" <> path;
  before = get_value path before_paths;
  after = null;
  detail = ("path", str path) ∷ ("methods", texts (methods_of (get_value path before_paths))) ∷ [];
}

abbrev pub Operations : Type 0
Operations = Dict String (Dict String Value)

-- `ops[method]`
abbrev pub operation_at : String → Operations → Dict String Value
operation_at method ops = get_or (get method ops) []

unfoldable pub operation_added : String → Operations → String → RawChange
operation_added path after_ops method = record {
  kind = "openapi.operation.added";
  location = "/paths/" <> path <> "/" <> method;
  before = null;
  after = object (operation_at method after_ops);
  detail = ("method", str (upper method)) ∷ ("path", str path) ∷ [];
}

unfoldable pub operation_removed : String → Operations → String → RawChange
operation_removed path before_ops method = record {
  kind = "openapi.operation.removed";
  location = "/paths/" <> path <> "/" <> method;
  before = object (operation_at method before_ops);
  after = null;
  detail = ("method", str (upper method)) ∷ ("path", str path) ∷ [];
}

module _ (repr : Value → String) (before_spec after_spec : Dict String Value) where
  -- `_walk_path_item`
  unfoldable pub walk_path_item : String → Operations → Operations → Option (List RawChange)
  walk_path_item path before_ops after_ops =
      some (map (operation_added path after_ops) (only_in after_ops before_ops))
      then some (map (operation_removed path before_ops) (only_in before_ops after_ops))
      then yield_each
          (λ method.
            walk_operation repr before_spec after_spec path method (operation_at method before_ops)
              (operation_at method after_ops))
          (in_both before_ops after_ops)

  -- the body of the loop over the paths of both specs
  unfoldable pub path_kept : String → Option (List RawChange)
  path_kept path =
      walk_path_item path (operations (as_dict (get_value path (paths before_spec))))
        (operations (as_dict (get_value path (paths after_spec))))

  -- `_walk_paths`
  unfoldable pub walk_paths : Option (List RawChange)
  walk_paths =
      some (map (path_added (paths after_spec)) (only_in (paths after_spec) (paths before_spec)))
      then some
          (map (path_removed (paths before_spec)) (only_in (paths before_spec) (paths after_spec)))
      then yield_each path_kept (in_both (paths before_spec) (paths after_spec))

  unfoldable pub component_kept : String → List RawChange
  component_kept name =
      enum_changes repr ("/components/schemas/" <> name <> "/enum") (("schema", str name) ∷ [])
        (as_list (get_value "enum" (as_dict (get_value name (component_schemas before_spec)))))
        (as_list (get_value "enum" (as_dict (get_value name (component_schemas after_spec)))))

  -- `_walk_components`
  unfoldable pub walk_components : List RawChange
  walk_components =
      collect component_kept
        (in_both (component_schemas before_spec) (component_schemas after_spec))

  -- The two loops of `diff_openapi`, before the limits of RawChange are tested.
  unfoldable pub walk_openapi : Option (List RawChange)
  walk_openapi = walk_paths then some walk_components

  -- `diff_openapi`
  unfoldable pub diff_openapi : Option (List RawChange)
  unfolding validated
  diff_openapi = validated walk_openapi
