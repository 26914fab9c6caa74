-- ===== src/Diff/Contracts/Gate.antt =====
-- What `diff_contracts` returns for unchanged contracts, readable contracts, and a removed path.
use living_api_contract_guar.Common.{
  ◌<◌, String, Bool, true, false, Option, none, some, List, [], ◌∷◌, ◌++◌, ◌≡◌, refl, map, is_some,
  inl, string_key, all, ◌&&◌, leb, ap, ◌∙◌, Some, Some-append_left, Some-append_right,
  if◌then◌else◌,
}
use living_api_contract_guar.Common.Sets.{elem}
use living_api_contract_guar.Common.Text.{text_length}
use living_api_contract_guar.Common.Dict.{Dict, get, only_in, elem-only_in}
use living_api_contract_guar.Json.Value.{Value}
use living_api_contract_guar.Diff.Models.{
  RawChange, validated, ChangeReport, ContractKind, openapi, proto, SpectralFinding,
}
use living_api_contract_guar.Diff.Ruleset.{RuleSet, classify, last_match, matches, verdict_of}
use living_api_contract_guar.Diff.DefaultRules.{default_rules}
use living_api_contract_guar.Diff.OpenApi.Reading.{paths}
use living_api_contract_guar.Diff.OpenApi.Paths.{
  path_added, path_removed, walk_openapi, diff_openapi,
}
use living_api_contract_guar.Diff.OpenApi.Events.{diff_openapi-HasShape}
use living_api_contract_guar.Diff.OpenApi.Limits.{walk_openapi-is_valid}
use living_api_contract_guar.Diff.OpenApi.Same.{diff_openapi_self}
use living_api_contract_guar.Diff.OpenApi.Readable.{readable, walk_openapi_returns}
use living_api_contract_guar.Diff.Proto.Descriptors.{FileDescriptorSet}
use living_api_contract_guar.Diff.Proto.Walk.{diff_proto}
use living_api_contract_guar.Diff.Proto.Same.{diff_proto_self}
use living_api_contract_guar.Diff.Clients.{InferredEndpoint}
use living_api_contract_guar.Diff.Engine.{classify_from, classify_changes, report_of}
use living_api_contract_guar.Diff.Engine.Report.{MakesBreaking, breaking_gate}
use living_api_contract_guar.Diff.Contracts.{
  Environment, Contract, dict, blob, other, raised, returned, walk_error, report_messages,
  affected_by, report, report_openapi, report_proto, diff_contracts, repr_str,
}

Some-map :
    (P : RawChange → Type 0) (f : String → RawChange) (xs : List String) (x : String)
    → ((y : String) → P (f y))
    → elem x xs ≡ true
    → Some P (map f xs)
unfolding elem
Some-map P f [] x h q = absurd cc
Some-map P f (y ∷ ys) x h q = inl (h y)

module _ (env : Environment) (rules : Option RuleSet)
    (session : Option (List InferredEndpoint)) where
  report-nil :
      (kind : ContractKind) (cs : List RawChange) (findings : List SpectralFinding)
      → cs ≡ []
      → (report env kind rules session cs findings).changes ≡ []
  unfolding report report_of classify_changes classify_from
  report-nil kind [] findings h =
      elim rules as (λ k. (report env kind k session [] findings).changes ≡ []) [
        | none ↦ refl
        | some q ↦ refl
      ]
  report-nil kind (c ∷ cs) findings h = absurd cc

  reported_by :
      (b : Bool) (cs : List RawChange) (findings : List SpectralFinding)
      → report_openapi env rules session findings (if b then some cs else none)
        ≡ (if b then returned (report env openapi rules session cs findings) else raised walk_error)
  unfolding report_openapi
  reported_by true cs findings = refl
  reported_by false cs findings = refl

  openapi_self :
      (spec : Dict String Value) (findings : List SpectralFinding) (o : Option (List RawChange))
      (r : ChangeReport)
      → diff_openapi env.repr spec spec ≡ o
      → report_openapi env rules session findings o ≡ returned r
      → r.changes ≡ []
  unfolding report_openapi
  openapi_self spec findings none r q e = absurd cc
  openapi_self spec findings (some cs) r q e =
      let same : report env openapi rules session cs findings ≡ r = cc in
      rw (← same) (report-nil openapi cs findings (diff_openapi_self env.repr spec cs q))

  messages_self :
      (fds : FileDescriptorSet) (o : Option (List RawChange)) (r : ChangeReport)
      → diff_proto env.enum_name env.label_name fds fds ≡ o
      → report_messages env rules session o ≡ returned r
      → r.changes ≡ []
  unfolding report_messages
  messages_self fds none r q e = absurd cc
  messages_self fds (some cs) r q e =
      let same : report env proto rules session cs [] ≡ r = cc in
      rw (← same) (report-nil proto cs [] (diff_proto_self env.enum_name env.label_name fds cs q))

  proto_self :
      (o : Option FileDescriptorSet) (r : ChangeReport)
      → report_proto env rules session o o ≡ returned r
      → r.changes ≡ []
  unfolding report_proto
  proto_self none r e = absurd cc
  proto_self (some fds) r e =
      messages_self fds (diff_proto env.enum_name env.label_name fds fds) r refl e

  -- When `diff_contracts` of a contract and itself returns a report, the report has no change,
  -- for either kind, under any rule set.
  pub diff_contracts_self :
      (kind : ContractKind) (contract : Contract env.Bytes) (spectral : Bool) (r : ChangeReport)
      → diff_contracts env kind contract contract rules session spectral ≡ returned r
      → r.changes ≡ []
  unfolding diff_contracts
  diff_contracts_self openapi (dict spec) spectral r e =
      openapi_self spec (if spectral then env.run_spectral spec else [])
        (diff_openapi env.repr spec spec) r refl e
  diff_contracts_self proto (blob b) spectral r e = proto_self (env.parse b) r e
  diff_contracts_self openapi (blob x) spectral r e = absurd cc
  diff_contracts_self openapi other spectral r e = absurd cc
  diff_contracts_self proto (dict x) spectral r e = absurd cc
  diff_contracts_self proto other spectral r e = absurd cc

  pub diff_contracts-changes :
      (before after : Dict String Value) (cs : List RawChange)
      → diff_openapi env.repr before after ≡ some cs
      → diff_contracts env openapi (dict before) (dict after) rules session false
        ≡ returned (report env openapi rules session cs [])
  unfolding diff_contracts report_openapi
  diff_contracts-changes before after cs q = rw q refl

  -- On two readable OpenAPI documents the walkers raise no TypeError and build a list of changes.
  -- `diff_contracts` returns the report of these changes when the location of each has 1 to 2048
  -- characters, as RawChange demands, and raises otherwise: their kinds are always accepted.
  pub diff_contracts_returns :
      (before after : Dict String Value) (spectral : Bool)
      → readable before ≡ true
      → readable after ≡ true
      → (walked : List RawChange) × (walk_openapi env.repr before after ≡ some walked)
        × (diff_contracts env openapi (dict before) (dict after) rules session spectral ≡ (
            if all (λ c. leb 1 (text_length c.location) && leb (text_length c.location) 2048) walked
            then returned (
                report env openapi rules session walked
                  (if spectral then env.run_spectral after else []))
            else raised walk_error))
  unfolding diff_contracts diff_openapi validated
  diff_contracts_returns before after spectral h k =
      let (walked, q) = walk_openapi_returns env.repr before after h k in
      let findings : List SpectralFinding = if spectral then env.run_spectral after else [] in
      (
        walked,
        q,
        ap (λ o. report_openapi env rules session findings (validated o)) q
            ∙ reported_by _ walked findings
            ∙ ap
                (λ b.
                  if b
                  then returned (report env openapi rules session walked findings)
                  else raised walk_error)
                (walk_openapi-is_valid env.repr before after walked q),
      )

path_removed-MakesBreaking :
    (fnmatchcase : String → String → Bool) (repr : String → String) (before : Dict String Value)
    (path : String)
    → MakesBreaking fnmatchcase repr (λ s. s) default_rules (path_removed before path)
unfolding classify last_match matches verdict_of default_rules path_removed
path_removed-MakesBreaking fnmatchcase repr before path = refl

module _ (env : Environment) (session : Option (List InferredEndpoint)) where
  removal_report :
      (before after : Dict String Value) (path : String) (findings : List SpectralFinding)
      (o : Option (List RawChange)) (r : ChangeReport)
      → elem path (only_in (paths before) (paths after)) ≡ true
      → diff_openapi env.repr before after ≡ o
      → report_openapi env none session findings o ≡ returned r
      → 0 < r.summary.breaking
  unfolding report_openapi report
  removal_report before after path findings none r h q e = absurd cc
  removal_report before after path findings (some cs) r h q e =
      let same : report env openapi none session cs findings ≡ r = cc in
      let shape = diff_openapi-HasShape env.repr before after cs q in
      let P = MakesBreaking env.fnmatchcase (repr_str env.repr) env.sha1 default_rules in
      let added = map (path_added (paths after)) (only_in (paths after) (paths before)) in
      let removed = map (path_removed (paths before)) (only_in (paths before) (paths after)) in
      rw (← same) (
        (breaking_gate env.fnmatchcase (repr_str env.repr) env.sha1 openapi default_rules cs
            (affected_by env session cs) findings).1
          (rw shape.parts (
            Some-append_right P added (removed ++ shape.rest) (
              Some-append_left P removed shape.rest (
                Some-map P (path_removed (paths before)) (only_in (paths before) (paths after)) path
                  (path_removed-MakesBreaking env.fnmatchcase (repr_str env.repr) (paths before))
                  h)))))

  -- When a path of the first OpenAPI document is missing from the second, and `diff_contracts`
  -- is called with the default rules and returns a report, the report counts a breaking change.
  pub path_removal_gate :
      (before after : Dict String Value) (path : String) (spectral : Bool) (r : ChangeReport)
      → is_some (get path (paths before)) ≡ true
      → is_some (get path (paths after)) ≡ false
      → diff_contracts env openapi (dict before) (dict after) none session spectral ≡ returned r
      → 0 < r.summary.breaking
  unfolding diff_contracts
  path_removal_gate before after path spectral r h k e =
      removal_report before after path (if spectral then env.run_spectral after else [])
        (diff_openapi env.repr before after) r
        (rw (elem-only_in path (paths before) (paths after), h, k)) refl e
