-- ===== src/Diff/Engine.antt =====
-- packages/guardian_diff/engine.py: classification of the raw changes, and the report.
-- `sha1` gives the hexadecimal SHA-1 of a text. The identity of a raw change is its place in the
-- list, under which `affected_clients` keys its answer. `find_changes` runs the walker of the
-- contract kind, and `run_spectral` the linter.
pub mod Report
use text.Mathlib.Text.{◌==◌}
use Prim.Native.String.{slice}
use living_api_contract_guar.Common.{
  ℕ, suc, ◌+◌, String, Bool, true, false, Option, none, some, List, [], ◌∷◌, length, get_or,
  nat_key, if◌then◌else◌,
}
use living_api_contract_guar.Common.Text.{◌<>◌}
use living_api_contract_guar.Common.Dict.{Dict, get}
use living_api_contract_guar.Diff.Models.{
  Verdict, additive, behavioral, breaking, RawChange, ChangeRecord, ChangeReportSummary,
  ChangeReport, ContractKind, SpectralFinding,
}
use living_api_contract_guar.Diff.Ruleset.{RuleSet, classify}

abbrev count_verdict : Verdict → ChangeReportSummary → ChangeReportSummary
count_verdict additive s = record s { additive = s.additive + 1 }
count_verdict behavioral s = record s { behavioral = s.behavioral + 1 }
count_verdict breaking s = record s { breaking = s.breaking + 1 }

-- the loop of `_summarize`
unfoldable pub summarize_from : ChangeReportSummary → List ChangeRecord → ChangeReportSummary
summarize_from s [] = s
summarize_from s (r ∷ rs) = summarize_from (count_verdict r.verdict s) rs

-- `_summarize`
unfoldable pub summarize : List ChangeRecord → ChangeReportSummary
unfolding summarize_from
summarize records =
    summarize_from (record { total = length records; additive = 0; behavioral = 0; breaking = 0 })
      records

module _ (fnmatchcase : String → String → Bool) (repr : String → String)
    (sha1 : String → String) where
  -- `_change_id`
  unfoldable pub change_id : RawChange → String
  change_id change = slice (sha1 (change.kind <> "::" <> change.location)) 0 16

  -- The record of one change, with the repos that it affects.
  unfoldable pub classify_change : RuleSet → List String → RawChange → ChangeRecord
  unfolding change_id
  classify_change rules affected change =
      let (verdict, rule_id, rationale) = classify fnmatchcase repr rules change in
      record {
        change_id = change_id change;
        kind = change.kind;
        location = change.location;
        verdict = verdict;
        rule_id = rule_id;
        rationale = rationale;
        affected_clients = affected;
        before = change.before;
        after = change.after;
        detail = change.detail;
      }

  -- the loop of `classify_changes`, from the place `i` of the list on
  unfoldable pub classify_from :
      RuleSet → Dict ℕ (List String) → ℕ → List RawChange → List ChangeRecord
  unfolding classify_change
  classify_from rules affected i [] = []
  classify_from rules affected i (change ∷ changes) =
      classify_change rules (get_or (get i affected) []) change
      ∷ classify_from rules affected (suc i) changes

  -- `classify_changes`
  unfoldable pub classify_changes :
      List RawChange → RuleSet → Dict ℕ (List String) → List ChangeRecord
  unfolding classify_from
  classify_changes changes rules affected = classify_from rules affected 0 changes

  -- The end of `diff_contracts`, once the raw changes and their clients are known.
  unfoldable pub report_of :
      ContractKind
      → RuleSet
      → List RawChange
      → Dict ℕ (List String)
      → List SpectralFinding
      → ChangeReport
  unfolding classify_changes summarize
  report_of kind rules changes affected findings =
      let records = classify_changes changes rules affected in
      record {
        contract_kind = kind;
        changes = records;
        summary = summarize records;
        spectral_findings = findings;
        ruleset_id = rules.id;
        diff_id = none;
      }
