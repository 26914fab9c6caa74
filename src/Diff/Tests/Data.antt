-- ===== src/Diff/Tests/Data.antt =====
-- The contracts and rules of the tests.
use living_api_contract_guar.Common.{ℕ, String, Bool, none, some, List, [], ◌∷◌, ◌==◌, string_key}
use living_api_contract_guar.Common.Int.{pos}
use living_api_contract_guar.Common.Dict.{Dict}
use living_api_contract_guar.Common.Text.{◌<>◌}
use living_api_contract_guar.Json.Value.{Value, null, str, object}
use living_api_contract_guar.Diff.Models.{Verdict, behavioral, breaking, RawChange}
use living_api_contract_guar.Diff.Ruleset.{Rule, RuleSet}
use living_api_contract_guar.Diff.Proto.Descriptors.{
  FieldDescriptor, Descriptor, message, nil, cons, FileDescriptorSet,
}
use living_api_contract_guar.Diff.Clients.{InferredEndpoint}
use living_api_contract_guar.Diff.Contracts.{Environment}

abbrev pub quote : Value → String
quote (str s) = "'" <> s <> "'"
quote _ = "..."

abbrev pub glob : String → String → Bool
glob location pattern = location == pattern

abbrev pub same : String → String
same s = s

abbrev pub number_name : ℕ → String
number_name n = "TYPE_INT32"

abbrev pub environment : Environment
environment = record {
  Bytes = FileDescriptorSet;
  fnmatchcase = glob;
  repr = quote;
  sha1 = same;
  enum_name = number_name;
  label_name = number_name;
  parse = some;
  run_spectral = λ spec. [];
}

abbrev get_operation : Value
get_operation = object (("get", object []) ∷ [])

abbrev pub pets : Dict String Value
pets = ("paths", object (("/pets", get_operation) ∷ ("/owners", get_operation) ∷ [])) ∷ []

abbrev pub owners : Dict String Value
owners = ("paths", object (("/owners", get_operation) ∷ [])) ∷ []

abbrev pub field : String → ℕ → FieldDescriptor
field name number = record { name = name; number = pos number; type = 5; type_name = ""; label = 1 }

abbrev pub user : Descriptor
user = message "User" (field "id" 1 ∷ field "age" 2 ∷ []) nil

abbrev pub user_reordered : Descriptor
user_reordered = message "User" (field "age" 2 ∷ field "id" 1 ∷ []) nil

abbrev pub users : FileDescriptorSet
users = record { package_name = "app"; message_type = cons user nil; service = [] } ∷ []

abbrev pub rule : String → String → Verdict → Rule
rule id kind verdict = record {
  id = id;
  kind = kind;
  verdict = verdict;
  rationale = "";
  location_glob = none;
}

abbrev pub removal : RawChange
removal = record {
  kind = "openapi.path.removed";
  location = "/paths//pets";
  before = null;
  after = null;
  detail = ("path", str "/pets") ∷ ("method", str "get") ∷ [];
}

abbrev pub strict : RuleSet
strict = record {
  id = "strict";
  rules =
      rule "A" "openapi.path.removed" behavioral ∷ rule "B" "openapi.path.removed" breaking ∷ [];
}

abbrev pub calls_to_pets : List InferredEndpoint
calls_to_pets = record { repo = "shop"; method = "GET"; path_template = "/pets" } ∷ []
