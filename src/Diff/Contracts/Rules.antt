-- ===== src/Diff/Contracts/Rules.antt =====
-- The records of `diff_contracts` and the default rules.
use text.Mathlib.TextEquality.{eq_iff}
use living_api_contract_guar.Common.{
  ℕ, suc, String, Bool, true, Option, none, some, List, [], ◌∷◌, ◌++◌, ◌≡◌, ◌≢◌, refl, arith, map,
  all, string_key, All, All-append, All-map, if◌then◌else◌,
}
use living_api_contract_guar.Common.Sets.{elem}
use living_api_contract_guar.Common.Dict.{Dict, only_in}
use living_api_contract_guar.Json.Value.{Value}
use living_api_contract_guar.Diff.Models.{
  RawChange, ChangeReport, ChangeRecord, ContractKind, openapi, proto, SpectralFinding,
}
use living_api_contract_guar.Diff.Clients.{InferredEndpoint}
use living_api_contract_guar.Diff.Proto.Covered.{diff_proto-IsCovered}
use living_api_contract_guar.Diff.Ruleset.{classify}
use living_api_contract_guar.Diff.DefaultRules.{default_rules}
use living_api_contract_guar.Diff.DefaultRules.Coverage.{covered, IsCovered, covered_classified}
use living_api_contract_guar.Diff.OpenApi.Reading.{paths}
use living_api_contract_guar.Diff.OpenApi.Paths.{path_added, path_removed, diff_openapi}
use living_api_contract_guar.Diff.OpenApi.Known.{item_kinds, known, IsKnown}
use living_api_contract_guar.Diff.OpenApi.Events.{diff_openapi-HasShape}
use living_api_contract_guar.Diff.Proto.Descriptors.{FileDescriptorSet}
use living_api_contract_guar.Diff.Proto.Walk.{diff_proto}
use living_api_contract_guar.Diff.Engine.{
  classify_change, classify_from, classify_changes, report_of,
}
use living_api_contract_guar.Diff.Contracts.{
  Environment, Contract, dict, blob, other, returned, affected_by, report, report_openapi,
  report_proto, report_messages, diff_contracts, repr_str,
}

-- A list of kinds with rules gives each of its members a rule.
elem-covered :
    (kind : String) (kinds : List String)
    → all covered kinds ≡ true
    → elem kind kinds ≡ true
    → covered kind ≡ true
unfolding elem
elem-covered kind [] h q = absurd cc
elem-covered kind (k ∷ kinds) h q = ground (arith, eq_iff k kind, elem-covered kind kinds)

known-covered : (kind : String) → known kind ≡ true → covered kind ≡ true
unfolding known covered
known-covered kind h = elem-covered kind item_kinds refl h

All-IsCovered : (cs : List RawChange) → All IsKnown cs → All IsCovered cs
All-IsCovered [] h = tt
All-IsCovered (c ∷ cs) h = (known-covered c.kind h.0, All-IsCovered cs h.1)

diff_openapi-IsCovered :
    (repr : Value → String) (before after : Dict String Value) (cs : List RawChange)
    → diff_openapi repr before after ≡ some cs
    → All IsCovered cs
unfolding path_added path_removed covered
diff_openapi-IsCovered repr before after cs e =
    let shape = diff_openapi-HasShape repr before after cs e in
    let added = map (path_added (paths after)) (only_in (paths after) (paths before)) in
    let removed = map (path_removed (paths before)) (only_in (paths before) (paths after)) in
    rw shape.parts (
      All-append IsCovered added (removed ++ shape.rest)
        (All-map IsCovered (path_added (paths after)) (only_in (paths after) (paths before))
          (λ p. refl))
        (All-append IsCovered removed shape.rest
          (All-map IsCovered (path_removed (paths before)) (only_in (paths before) (paths after))
            (λ p. refl))
          (All-IsCovered shape.rest shape.kinds.at)))

abbrev pub IsClassified : ChangeRecord → Type 0
IsClassified r = r.rule_id ≢ "UNCLASSIFIED"

module _ (fnmatchcase : String → String → Bool) (repr : String → String)
    (sha1 : String → String) where
  classify_from-IsClassified :
      (affected : Dict ℕ (List String)) (i : ℕ) (cs : List RawChange)
      → All (λ c. (classify fnmatchcase repr default_rules c).1 ≢ "UNCLASSIFIED") cs
      → All IsClassified (classify_from fnmatchcase repr sha1 default_rules affected i cs)
  unfolding classify_from classify_change
  classify_from-IsClassified affected i [] h = tt
  classify_from-IsClassified affected i (c ∷ cs) h =
      (h.0, classify_from-IsClassified affected (suc i) cs h.1)

module _ (env : Environment) (session : Option (List InferredEndpoint)) where
  report-IsClassified :
      (kind : ContractKind) (cs : List RawChange) (findings : List SpectralFinding)
      → All IsCovered cs
      → All IsClassified (report env kind none session cs findings).changes
  unfolding report report_of classify_changes
  report-IsClassified kind cs findings h =
      classify_from-IsClassified env.fnmatchcase (repr_str env.repr) env.sha1
        (affected_by env session cs) 0 cs
        (covered_classified env.fnmatchcase (repr_str env.repr) cs h)

  -- What the walker raises leaves no report.
  report_openapi-IsClassified :
      (before after : Dict String Value) (findings : List SpectralFinding)
      (o : Option (List RawChange)) (r : ChangeReport)
      → diff_openapi env.repr before after ≡ o
      → report_openapi env none session findings o ≡ returned r
      → All IsClassified r.changes
  unfolding report_openapi
  report_openapi-IsClassified before after findings none r q e = absurd cc
  report_openapi-IsClassified before after findings (some cs) r q e =
      let same : report env openapi none session cs findings ≡ r = cc in
      rw (← same) (
        report-IsClassified openapi cs findings (diff_openapi-IsCovered env.repr before after cs q))

  report_messages-IsClassified :
      (b a : FileDescriptorSet) (o : Option (List RawChange)) (r : ChangeReport)
      → diff_proto env.enum_name env.label_name b a ≡ o
      → report_messages env none session o ≡ returned r
      → All IsClassified r.changes
  unfolding report_messages
  report_messages-IsClassified b a none r q e = absurd cc
  report_messages-IsClassified b a (some cs) r q e =
      let same : report env proto none session cs [] ≡ r = cc in
      rw (← same) (
        report-IsClassified proto cs []
          (diff_proto-IsCovered env.enum_name env.label_name b a cs q))

  report_proto-IsClassified :
      (o p : Option FileDescriptorSet) (r : ChangeReport)
      → report_proto env none session o p ≡ returned r
      → All IsClassified r.changes
  unfolding report_proto
  report_proto-IsClassified none p r e = absurd cc
  report_proto-IsClassified (some b) none r e = absurd cc
  report_proto-IsClassified (some b) (some a) r e =
      report_messages-IsClassified b a (diff_proto env.enum_name env.label_name b a) r refl e

  -- When `diff_contracts` is called without a rule set and returns a report, no record of the
  -- report fell back to the rule UNCLASSIFIED, for either kind of contract.
  pub diff_contracts-IsClassified :
      (kind : ContractKind) (before after : Contract env.Bytes) (spectral : Bool) (r : ChangeReport)
      → diff_contracts env kind before after none session spectral ≡ returned r
      → All IsClassified r.changes
  unfolding diff_contracts
  diff_contracts-IsClassified openapi (dict before) (dict after) spectral r e =
      report_openapi-IsClassified before after (if spectral then env.run_spectral after else [])
        (diff_openapi env.repr before after) r refl e
  diff_contracts-IsClassified proto (blob before) (blob after) spectral r e =
      report_proto-IsClassified (env.parse before) (env.parse after) r e
  diff_contracts-IsClassified openapi (blob x) after spectral r e = absurd cc
  diff_contracts-IsClassified openapi other after spectral r e = absurd cc
  diff_contracts-IsClassified openapi (dict x) (blob y) spectral r e = absurd cc
  diff_contracts-IsClassified openapi (dict x) other spectral r e = absurd cc
  diff_contracts-IsClassified proto (dict x) after spectral r e = absurd cc
  diff_contracts-IsClassified proto other after spectral r e = absurd cc
  diff_contracts-IsClassified proto (blob x) (dict y) spectral r e = absurd cc
  diff_contracts-IsClassified proto (blob x) other spectral r e = absurd cc
