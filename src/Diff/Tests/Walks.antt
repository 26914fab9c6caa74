-- ===== src/Diff/Tests/Walks.antt =====
-- Runs of `diff_openapi` on the documents of the tests.
use living_api_contract_guar.Common.{List, some, ◌≡◌, refl}
use living_api_contract_guar.Diff.Models.{RawChange}
use living_api_contract_guar.Diff.Tests.Data.{quote, pets, owners}
use living_api_contract_guar.Diff.OpenApi.Reading.{
  paths, operations, component_schemas, resolve_schema, request_body_schema, request_body_required,
  response_schema, iterate, required_names, param_type, params_by_key,
}
use living_api_contract_guar.Diff.OpenApi.Operation.{
  param_added_kind, param_added, param_removed, param_required_change, param_type_change,
  param_kept, param_changes, body_required_change, response_added, response_removed, walk_params,
  walk_body, response_kept, walk_responses, walk_operation,
}
use living_api_contract_guar.Diff.OpenApi.Schema.{
  added_kind, property_added, property_removed, type_change, required_change, enum_added,
  enum_removed, enum_changes, property_kept, property_changes, diff_schema,
}
use living_api_contract_guar.Diff.OpenApi.Paths.{
  methods_of, path_added, path_removed, operation_added, operation_removed, walk_path_item,
  path_kept, walk_paths, component_kept, walk_components, walk_openapi, diff_openapi,
}
use living_api_contract_guar.Diff.Raising.{yield_each}
use living_api_contract_guar.Common.Dict.{get, put, keys, only_in, in_both}
use living_api_contract_guar.Common.Sets.{
  elem, set_of, difference, intersection, insert_sorted, sorted,
}
use living_api_contract_guar.Common.Text.{upper, lower, letters, split, has_prefix}
use living_api_contract_guar.Diff.Models.{is_valid, validated}
use living_api_contract_guar.Json.Value.{
  as_dict, get_value, as_list, entries, fields_of, items, truthy,
}

pub changes_of_removal : (cs : List RawChange) × (diff_openapi quote pets owners ≡ some cs)
unfolding paths operations component_schemas resolve_schema request_body_schema
    request_body_required response_schema iterate required_names param_type params_by_key
    param_added_kind param_added param_removed param_required_change param_type_change param_kept
    param_changes body_required_change response_added response_removed walk_params walk_body
    response_kept walk_responses walk_operation added_kind property_added property_removed
    type_change required_change enum_added enum_removed enum_changes property_kept property_changes
    diff_schema methods_of path_added path_removed operation_added operation_removed walk_path_item
    path_kept walk_paths component_kept walk_components walk_openapi diff_openapi yield_each get put
    keys only_in in_both elem set_of difference intersection insert_sorted sorted upper lower
    letters split has_prefix is_valid validated as_dict get_value as_list entries fields_of items
    truthy
changes_of_removal = (_, refl)

pub changes_of_nothing : (cs : List RawChange) × (diff_openapi quote pets pets ≡ some cs)
unfolding paths operations component_schemas resolve_schema request_body_schema
    request_body_required response_schema iterate required_names param_type params_by_key
    param_added_kind param_added param_removed param_required_change param_type_change param_kept
    param_changes body_required_change response_added response_removed walk_params walk_body
    response_kept walk_responses walk_operation added_kind property_added property_removed
    type_change required_change enum_added enum_removed enum_changes property_kept property_changes
    diff_schema methods_of path_added path_removed operation_added operation_removed walk_path_item
    path_kept walk_paths component_kept walk_components walk_openapi diff_openapi yield_each get put
    keys only_in in_both elem set_of difference intersection insert_sorted sorted upper lower
    letters split has_prefix is_valid validated as_dict get_value as_list entries fields_of items
    truthy
changes_of_nothing = (_, refl)
