-- ===== src/Diff/DefaultRules.antt =====
-- packages/guardian_diff/rules/default.yml: the rules that `load_default_rules` reads.
pub mod Coverage
use living_api_contract_guar.Common.{String, none, List, [], ◌∷◌, ◌++◌}
use living_api_contract_guar.Diff.Models.{Verdict, additive, behavioral, breaking}
use living_api_contract_guar.Diff.Ruleset.{Rule, RuleSet}

-- A rule of the file, which has no `location_glob`.
abbrev pub rule : String → String → Verdict → String → Rule
rule id kind verdict rationale = record {
  id = id;
  kind = kind;
  verdict = verdict;
  rationale = rationale;
  location_glob = none;
}

abbrev pub openapi_rules : List Rule
openapi_rules =
    rule "OAS-PATH-ADDED" "openapi.path.added" additive
      "New path added; no existing client URLs change."
    ∷ rule "OAS-PATH-REMOVED" "openapi.path.removed" breaking
        "Path removed; any client calling this URL will receive 404."
    ∷ rule "OAS-OP-ADDED" "openapi.operation.added" additive
        "New HTTP method on an existing path; pre-existing methods unaffected."
    ∷ rule "OAS-OP-REMOVED" "openapi.operation.removed" breaking
        "Operation removed; callers using this method will fail."
    ∷ rule "OAS-PARAM-ADDED-OPTIONAL" "openapi.parameter.added.optional" additive
        "New optional parameter; existing requests still validate."
    ∷ rule "OAS-PARAM-ADDED-REQUIRED" "openapi.parameter.added.required" breaking
        "New required parameter; existing requests omitting it will fail validation."
    ∷ rule "OAS-PARAM-REMOVED" "openapi.parameter.removed" behavioral
        "Parameter removed; clients sending it will see it silently ignored."
    ∷ rule "OAS-PARAM-REQUIRED-INCREASED" "openapi.parameter.required.increased" breaking
        "Parameter became required; older clients omitting it will fail validation."
    ∷ rule "OAS-PARAM-REQUIRED-DECREASED" "openapi.parameter.required.decreased" additive
        "Parameter is now optional; existing clients still satisfy the schema."
    ∷ rule "OAS-PARAM-TYPE-CHANGED" "openapi.parameter.type_changed" breaking
        "Parameter type changed; serialization contract broken."
    ∷ rule "OAS-BODY-PROP-ADDED-OPTIONAL" "openapi.request_body.property.added.optional" additive
        "New optional body property; existing requests still validate."
    ∷ rule "OAS-BODY-PROP-ADDED-REQUIRED" "openapi.request_body.property.added.required" breaking
        "New required body property; existing requests omitting it will fail validation."
    ∷ rule "OAS-BODY-PROP-REMOVED" "openapi.request_body.property.removed" breaking
        "Required body property removed; clients sending it now see it rejected by strict schemas."
    ∷ rule "OAS-BODY-PROP-TYPE-CHANGED" "openapi.request_body.property.type_changed" breaking
        "Body property type changed; existing serializations no longer validate."
    ∷ rule "OAS-BODY-PROP-REQUIRED-INCREASED" "openapi.request_body.property.required.increased"
        breaking "Body property became required; existing client payloads omitting it will fail."
    ∷ rule "OAS-BODY-PROP-REQUIRED-DECREASED" "openapi.request_body.property.required.decreased"
        additive "Body property is now optional; older clients still satisfy the schema."
    ∷ rule "OAS-RESPONSE-ADDED" "openapi.response.added" behavioral
        "New response status code; clients with strict status handling may not anticipate it."
    ∷ rule "OAS-RESPONSE-REMOVED" "openapi.response.removed" breaking
        "Documented response code removed; clients relying on it may stop functioning."
    ∷ rule "OAS-RESPONSE-PROP-ADDED" "openapi.response.property.added" additive
        "New field added to response payload; tolerant clients are unaffected."
    ∷ rule "OAS-RESPONSE-PROP-REMOVED" "openapi.response.property.removed" breaking
        "Response field removed; clients reading it will see undefined / null."
    ∷ rule "OAS-RESPONSE-PROP-TYPE-CHANGED" "openapi.response.property.type_changed" breaking
        "Response field type changed; clients deserializing it will fail."
    ∷ rule "OAS-ENUM-VALUE-ADDED" "openapi.enum.value.added" behavioral
        "New enum value; closed-set clients may not handle it gracefully."
    ∷ rule "OAS-ENUM-VALUE-REMOVED" "openapi.enum.value.removed" breaking
        "Enum value removed; clients sending or receiving it will fail validation."
    ∷ []

abbrev pub proto_rules : List Rule
proto_rules =
    rule "PROTO-MESSAGE-ADDED" "proto.message.added" additive
      "New message type; existing wire formats unchanged."
    ∷ rule "PROTO-MESSAGE-REMOVED" "proto.message.removed" breaking
        "Message type removed; any RPC referencing it will fail to encode/decode."
    ∷ rule "PROTO-FIELD-ADDED" "proto.field.added" additive
        "New field added; absent on old payloads, ignored by old clients."
    ∷ rule "PROTO-FIELD-REMOVED" "proto.field.removed" breaking
        "Field removed; wire-format contract broken — old payloads will surface unknown fields."
    ∷ rule "PROTO-FIELD-NUMBER-CHANGED" "proto.field.number_changed" breaking
        "Field number changed; wire format is keyed by tag number, this re-binds the data."
    ∷ rule "PROTO-FIELD-TYPE-CHANGED" "proto.field.type_changed" breaking
        "Field type changed; existing encoded payloads will fail to decode."
    ∷ rule "PROTO-FIELD-LABEL-CHANGED" "proto.field.label_changed" breaking
        "Field cardinality (optional/required/repeated) changed; canonical wire-format break."
    ∷ rule "PROTO-FIELD-RENAMED" "proto.field.renamed" behavioral
        "Field name changed but number/type preserved; wire format intact, but generated code APIs break."
    ∷ rule "PROTO-SERVICE-ADDED" "proto.service.added" additive
        "New service; no impact on existing RPC clients."
    ∷ rule "PROTO-SERVICE-REMOVED" "proto.service.removed" breaking
        "Service removed; all RPC calls into it will fail."
    ∷ rule "PROTO-RPC-ADDED" "proto.rpc.added" additive
        "New RPC method; existing clients unaffected."
    ∷ rule "PROTO-RPC-REMOVED" "proto.rpc.removed" breaking
        "RPC method removed; clients will receive UNIMPLEMENTED."
    ∷ rule "PROTO-RPC-REQUEST-TYPE-CHANGED" "proto.rpc.request_type_changed" breaking
        "RPC request type changed; client/server contract is severed."
    ∷ rule "PROTO-RPC-RESPONSE-TYPE-CHANGED" "proto.rpc.response_type_changed" breaking
        "RPC response type changed; client/server contract is severed."
    ∷ []

-- `load_default_rules()`
unfoldable pub default_rules : RuleSet
default_rules = record { id = "default"; rules = openapi_rules ++ proto_rules }
