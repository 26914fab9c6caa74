-- ===== src/Diff/Models.antt =====
-- packages/guardian_diff/models.py. `validated` has the limits that pydantic puts on a RawChange.
pub mod Limits
use living_api_contract_guar.Common.{
  ℕ, String, Bool, true, false, Option, none, some, List, all, leb, ◌&&◌, if◌then◌else◌,
}
use living_api_contract_guar.Common.Dict.{Dict}
use living_api_contract_guar.Common.Text.{text_length}
use living_api_contract_guar.Json.Value.{Value}

pub data Verdict : Type 0 where
  additive behavioral breaking : Verdict

pub Verdict-discrete : Discrete Verdict
Verdict-discrete = hlevel

abbrev pub verdict_beq : Verdict → Verdict → Bool
verdict_beq additive additive = true
verdict_beq behavioral behavioral = true
verdict_beq breaking breaking = true
verdict_beq _ _ = false

pub data ContractKind : Type 0 where
  openapi proto : ContractKind

pub record RawChange : Type 0 where
  pub kind : String
  pub location : String
  pub before : Value
  pub after : Value
  pub detail : Dict String Value

-- `Field(min_length=1, max_length=…)`
abbrev within : ℕ → String → Bool
within most s = leb 1 (text_length s) && leb (text_length s) most

unfoldable pub is_valid : RawChange → Bool
is_valid c = within 128 c.kind && within 2048 c.location

-- The list of changes, unless pydantic refuses one: the ValidationError is not told apart from the
-- TypeError of a walker.
unfoldable pub validated : Option (List RawChange) → Option (List RawChange)
unfolding is_valid
validated none = none
validated (some cs) = if all is_valid cs then some cs else none

pub record ChangeRecord : Type 0 where
  pub change_id : String
  pub kind : String
  pub location : String
  pub verdict : Verdict
  pub rule_id : String
  pub rationale : String
  pub affected_clients : List String
  pub before : Value
  pub after : Value
  pub detail : Dict String Value

pub record ChangeReportSummary : Type 0 where
  pub total : ℕ
  pub additive : ℕ
  pub behavioral : ℕ
  pub breaking : ℕ

pub record SpectralFinding : Type 0 where
  pub code : String
  pub message : String
  pub severity : ℕ
  pub path : List String

pub record ChangeReport : Type 0 where
  pub contract_kind : ContractKind
  pub changes : List ChangeRecord
  pub summary : ChangeReportSummary
  pub spectral_findings : List SpectralFinding
  pub ruleset_id : String
  pub diff_id : Option String
