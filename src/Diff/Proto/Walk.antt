-- ===== src/Diff/Proto/Walk.antt =====
-- `diff_proto` of proto.py, from the parsed descriptor sets on.
use living_api_contract_guar.Common.{
  ℕ, String, Option, some, List, [], ◌∷◌, ◌++◌, map, collect, string_key,
}
use living_api_contract_guar.Common.Dict.{get, only_in, in_both}
use living_api_contract_guar.Common.Text.{◌<>◌}
use living_api_contract_guar.Json.Value.{null, str, object}
use living_api_contract_guar.Diff.Models.{RawChange, validated}
use living_api_contract_guar.Diff.Proto.Descriptors.{FileDescriptorSet, all_messages, all_services}
use living_api_contract_guar.Diff.Proto.Message.{at_key, diff_message}
use living_api_contract_guar.Diff.Proto.Service.{diff_service}

unfoldable pub message_added : String → RawChange
message_added name = record {
  kind = "proto.message.added";
  location = "/messages/" <> name;
  before = null;
  after = object (("name", str name) ∷ []);
  detail = ("message", str name) ∷ [];
}

unfoldable pub message_removed : String → RawChange
message_removed name = record {
  kind = "proto.message.removed";
  location = "/messages/" <> name;
  before = object (("name", str name) ∷ []);
  after = null;
  detail = ("message", str name) ∷ [];
}

unfoldable pub service_added : String → RawChange
service_added name = record {
  kind = "proto.service.added";
  location = "/services/" <> name;
  before = null;
  after = object (("name", str name) ∷ []);
  detail = ("service", str name) ∷ [];
}

unfoldable pub service_removed : String → RawChange
service_removed name = record {
  kind = "proto.service.removed";
  location = "/services/" <> name;
  before = object (("name", str name) ∷ []);
  after = null;
  detail = ("service", str name) ∷ [];
}

module _ (enum_name label_name : ℕ → String) (before after : FileDescriptorSet) where
  unfoldable pub message_kept : String → List RawChange
  message_kept name = at_key (get name (all_messages before)) (λ b.
      at_key (get name (all_messages after)) (λ a. diff_message enum_name label_name name b a))

  unfoldable pub service_kept : String → List RawChange
  service_kept name =
      at_key (get name (all_services before))
        (λ b. at_key (get name (all_services after)) (λ a. diff_service name b a))

  unfoldable pub diff_messages : List RawChange
  diff_messages =
      map message_added (only_in (all_messages after) (all_messages before))
      ++ (map message_removed (only_in (all_messages before) (all_messages after))
          ++ collect message_kept (in_both (all_messages before) (all_messages after)))

  unfoldable pub diff_services : List RawChange
  diff_services =
      map service_added (only_in (all_services after) (all_services before))
      ++ (map service_removed (only_in (all_services before) (all_services after))
          ++ collect service_kept (in_both (all_services before) (all_services after)))

  -- `diff_proto`
  unfoldable pub diff_proto : Option (List RawChange)
  unfolding validated
  diff_proto = validated (some (diff_messages ++ diff_services))
