-- ===== src/Diff/Proto/Service.antt =====
-- `_diff_service` of proto.py.
use living_api_contract_guar.Common.{
  String, List, [], ◌∷◌, ◌++◌, collect, ◌==◌, string_key, if◌then◌else◌,
}
use living_api_contract_guar.Common.Dict.{get, only_in, in_both}
use living_api_contract_guar.Common.Text.{◌<>◌}
use living_api_contract_guar.Json.Value.{Value, null, str, object}
use living_api_contract_guar.Diff.Models.{RawChange}
use living_api_contract_guar.Diff.Proto.Descriptors.{
  MethodDescriptor, ServiceDescriptor, methods_by_name,
}
use living_api_contract_guar.Diff.Proto.Message.{at_key}

unfoldable pub method_value : String → MethodDescriptor → Value
method_value method_name m = object (
    ("name", str method_name)
    ∷ ("input_type", str m.input_type)
    ∷ ("output_type", str m.output_type)
    ∷ [])

unfoldable pub rpc_change : String → String → String → Value → Value → RawChange
rpc_change kind name method_name before after = record {
  kind = kind;
  location = "/" <> name <> "/" <> method_name;
  before = before;
  after = after;
  detail = ("service", str name) ∷ ("method", str method_name) ∷ [];
}

-- `if x != y: yield RawChange(…)` for one of the two types of a method
unfoldable pub rpc_type_change : String → String → String → String → String → List RawChange
rpc_type_change kind name method_name x y =
    if x == y then [] else rpc_change kind name method_name (str x) (str y) ∷ []

unfoldable pub rpc_added : String → ServiceDescriptor → String → List RawChange
rpc_added name after method_name =
    at_key (get method_name (methods_by_name after))
      (λ m. rpc_change "proto.rpc.added" name method_name null (method_value method_name m) ∷ [])

unfoldable pub rpc_removed : String → ServiceDescriptor → String → List RawChange
rpc_removed name before method_name =
    at_key (get method_name (methods_by_name before))
      (λ m. rpc_change "proto.rpc.removed" name method_name (method_value method_name m) null ∷ [])

unfoldable pub rpc_kept_at : String → String → MethodDescriptor → MethodDescriptor → List RawChange
rpc_kept_at name method_name bm am =
    rpc_type_change "proto.rpc.request_type_changed" name method_name bm.input_type am.input_type
    ++ rpc_type_change "proto.rpc.response_type_changed" name method_name bm.output_type
        am.output_type

unfoldable pub rpc_kept : String → ServiceDescriptor → ServiceDescriptor → String → List RawChange
rpc_kept name before after method_name = at_key (get method_name (methods_by_name before)) (λ bm.
    at_key (get method_name (methods_by_name after)) (λ am. rpc_kept_at name method_name bm am))

-- `_diff_service`
unfoldable pub diff_service : String → ServiceDescriptor → ServiceDescriptor → List RawChange
diff_service name before after =
    collect (rpc_added name after) (only_in (methods_by_name after) (methods_by_name before))
    ++ (collect (rpc_removed name before) (only_in (methods_by_name before) (methods_by_name after))
        ++ collect (rpc_kept name before after)
            (in_both (methods_by_name before) (methods_by_name after)))
