-- ===== src/Diff/Contracts.antt =====
-- `diff_contracts` of packages/guardian_diff/engine.py. Parameters: fnmatch.fnmatchcase, `repr` of
-- a JSON value, SHA-1, the names of the protobuf enums, `ParseFromString`, and the Spectral linter.
pub mod Gate
pub mod Rules
use living_api_contract_guar.Common.{
  ℕ, String, Bool, true, false, Option, none, some, List, [], if◌then◌else◌,
}
use living_api_contract_guar.Common.Dict.{Dict}
use living_api_contract_guar.Json.Value.{Value, str}
use living_api_contract_guar.Diff.Models.{
  RawChange, ChangeReport, ContractKind, openapi, proto, SpectralFinding,
}
use living_api_contract_guar.Diff.Ruleset.{RuleSet}
use living_api_contract_guar.Diff.DefaultRules.{default_rules}
use living_api_contract_guar.Diff.OpenApi.Paths.{diff_openapi}
use living_api_contract_guar.Diff.Proto.Descriptors.{FileDescriptorSet}
use living_api_contract_guar.Diff.Proto.Walk.{diff_proto}
use living_api_contract_guar.Diff.Clients.{InferredEndpoint, affected_clients}
use living_api_contract_guar.Diff.Engine.{report_of}

-- What the arguments `before` and `after`, of type Any, can be.
pub data Contract (Bytes : Type 0) : Type 0 where
  dict : Dict String Value → Contract Bytes
  blob : Bytes → Contract Bytes
  other : Contract Bytes

-- The TypeError of a wrong argument, a TypeError or ValidationError of a walker, and what
-- `ParseFromString` raises.
pub data Failure : Type 0 where
  type_error walk_error decode_error : Failure

pub data Outcome (A : Type 0) : Type 0 where
  raised : Failure → Outcome A
  returned : A → Outcome A

pub record Environment : Type 1 where
  pub Bytes : Type 0
  pub fnmatchcase : String → String → Bool
  pub repr : Value → String
  pub sha1 : String → String
  pub enum_name : ℕ → String
  pub label_name : ℕ → String
  pub parse : Bytes → Option FileDescriptorSet
  pub run_spectral : Dict String Value → List SpectralFinding

-- `repr` of a text
abbrev pub repr_str : (Value → String) → String → String
repr_str repr s = repr (str s)

module _ (env : Environment) where
  -- `affected_clients(session, raw_changes) if session is not None else {}`
  unfoldable pub affected_by :
      Option (List InferredEndpoint) → List RawChange → Dict ℕ (List String)
  affected_by none changes = []
  affected_by (some rows) changes = affected_clients rows changes

  unfoldable pub report :
      ContractKind
      → Option RuleSet
      → Option (List InferredEndpoint)
      → List RawChange
      → List SpectralFinding
      → ChangeReport
  report kind none session changes findings =
      report_of env.fnmatchcase (repr_str env.repr) env.sha1 kind default_rules changes
        (affected_by session changes) findings
  report kind (some rules) session changes findings =
      report_of env.fnmatchcase (repr_str env.repr) env.sha1 kind rules changes
        (affected_by session changes) findings

  -- What a walker raises passes through.
  unfoldable pub report_openapi :
      Option RuleSet
      → Option (List InferredEndpoint)
      → List SpectralFinding
      → Option (List RawChange)
      → Outcome ChangeReport
  report_openapi rules session findings none = raised walk_error
  report_openapi rules session findings (some changes) =
      returned (report openapi rules session changes findings)

  unfoldable pub report_messages :
      Option RuleSet
      → Option (List InferredEndpoint)
      → Option (List RawChange)
      → Outcome ChangeReport
  report_messages rules session none = raised walk_error
  report_messages rules session (some changes) = returned (report proto rules session changes [])

  unfoldable pub report_proto :
      Option RuleSet
      → Option (List InferredEndpoint)
      → Option FileDescriptorSet
      → Option FileDescriptorSet
      → Outcome ChangeReport
  report_proto rules session (some before) (some after) =
      report_messages rules session (diff_proto env.enum_name env.label_name before after)
  report_proto rules session none after = raised decode_error
  report_proto rules session (some before) none = raised decode_error

  -- `diff_contracts`
  unfoldable pub diff_contracts :
      ContractKind
      → Contract env.Bytes
      → Contract env.Bytes
      → Option RuleSet
      → Option (List InferredEndpoint)
      → Bool
      → Outcome ChangeReport
  diff_contracts openapi (dict before) (dict after) rules session spectral =
      report_openapi rules session (if spectral then env.run_spectral after else [])
        (diff_openapi env.repr before after)
  diff_contracts proto (blob before) (blob after) rules session spectral =
      report_proto rules session (env.parse before) (env.parse after)
  diff_contracts _ _ _ rules session spectral = raised type_error
