-- ===== src/Diff/Tests/Rulesets.antt =====
-- Witnesses for the rule sets and the report.
use living_api_contract_guar.Common.{◌+◌, ◌<◌, [], ◌∷◌, ◌++◌, ◌≡◌, refl, length, ◌↔◌, Some}
use living_api_contract_guar.Diff.Models.{behavioral, breaking, additive, openapi}
use living_api_contract_guar.Diff.Ruleset.{classify, matches, merge}
use living_api_contract_guar.Diff.Ruleset.Classify.{classify-last}
use living_api_contract_guar.Diff.Ruleset.Merge.{find_rule, or_else, find_rule-merge}
use living_api_contract_guar.Diff.Ruleset.Merge.Order.{ids, new_ids, ids-merge}
use living_api_contract_guar.Diff.DefaultRules.{default_rules}
use living_api_contract_guar.Diff.Engine.{classify_changes, summarize, report_of}
use living_api_contract_guar.Diff.Engine.Report.{
  tally, summarize_counts, AllDescribe, report_of-AllDescribe, MakesBreaking, breaking_gate,
}
use living_api_contract_guar.Diff.Tests.Data.{glob, same, rule, removal, strict}

classify-last_example : classify glob same strict removal ≡ (breaking, "B", "")
unfolding matches
classify-last_example =
    classify-last glob same strict (rule "A" "openapi.path.removed" behavioral ∷ []) []
      (rule "B" "openapi.path.removed" breaking) removal refl refl tt

find_rule-merge_example :
    find_rule "OAS-PATH-REMOVED" (merge default_rules strict).rules
    ≡ or_else
        (find_rule "OAS-PATH-REMOVED" strict.rules)
        (find_rule "OAS-PATH-REMOVED" default_rules.rules)
find_rule-merge_example = find_rule-merge "OAS-PATH-REMOVED" default_rules strict

ids-merge_example :
    ids (merge default_rules strict).rules
    ≡ ids default_rules.rules ++ new_ids (ids default_rules.rules) (ids strict.rules)
ids-merge_example = ids-merge default_rules strict

report_of-AllDescribe_example :
    AllDescribe glob same same strict
      (removal ∷ [])
      (report_of glob same same openapi strict (removal ∷ []) [] []).changes
report_of-AllDescribe_example =
    report_of-AllDescribe glob same same openapi strict (removal ∷ []) [] []

breaking_gate_example :
    (0 < (report_of glob same same openapi strict (removal ∷ []) [] []).summary.breaking)
    ↔ Some (MakesBreaking glob same same strict) (removal ∷ [])
breaking_gate_example = breaking_gate glob same same openapi strict (removal ∷ []) [] []

summarize_counts_example :
    let rs = classify_changes glob same same (removal ∷ []) strict [] in
    ((summarize rs).additive ≡ tally additive rs)
    × ((summarize rs).behavioral ≡ tally behavioral rs)
    × ((summarize rs).breaking ≡ tally breaking rs)
    × ((summarize rs).total ≡ length rs)
    × ((summarize rs).additive + (summarize rs).behavioral + (summarize rs).breaking
        ≡ (summarize rs).total)
summarize_counts_example =
    summarize_counts (classify_changes glob same same (removal ∷ []) strict [])
