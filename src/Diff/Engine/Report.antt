-- ===== src/Diff/Engine/Report.antt =====
-- The report of `diff_contracts`: its counters, and its records in the order of the raw changes.
use living_api_contract_guar.Common.{
  ℕ, suc, ◌+◌, ◌<◌, String, Bool, List, [], ◌∷◌, ◌≡◌, refl, arith, length, Some, ◌↔◌, inl, inr,
  if◌then◌else◌,
}
use living_api_contract_guar.Common.Dict.{Dict}
use living_api_contract_guar.Diff.Models.{
  Verdict, additive, behavioral, breaking, verdict_beq, RawChange, ChangeRecord,
  ChangeReportSummary, ContractKind, SpectralFinding,
}
use living_api_contract_guar.Diff.Ruleset.{RuleSet, classify}
use living_api_contract_guar.Diff.Engine.{
  count_verdict, summarize_from, summarize, classify_from, report_of,
}

-- How many records have a verdict.
abbrev pub tally : Verdict → List ChangeRecord → ℕ
tally v [] = 0
tally v (r ∷ rs) = (if verdict_beq r.verdict v then 1 else 0) + tally v rs

summarize_from_counts :
    (s : ChangeReportSummary) (rs : List ChangeRecord)
    → ((summarize_from s rs).additive ≡ s.additive + tally additive rs)
      × ((summarize_from s rs).behavioral ≡ s.behavioral + tally behavioral rs)
      × ((summarize_from s rs).breaking ≡ s.breaking + tally breaking rs)
      × ((summarize_from s rs).total ≡ s.total)
unfolding summarize_from
summarize_from_counts s [] = (omega arith, omega arith, omega arith, refl)
summarize_from_counts s (r ∷ rs) =
    ground (arith, summarize_from_counts (count_verdict r.verdict s) rs)

tally_total :
    (rs : List ChangeRecord)
    → tally additive rs + tally behavioral rs + tally breaking rs ≡ length rs
tally_total [] = refl
tally_total (r ∷ rs) = ground (arith, tally_total rs)

-- The counters of a summary are the numbers of records with each verdict, and they add up to
-- the total, which is the number of records.
pub summarize_counts :
    (rs : List ChangeRecord)
    → ((summarize rs).additive ≡ tally additive rs)
      × ((summarize rs).behavioral ≡ tally behavioral rs)
      × ((summarize rs).breaking ≡ tally breaking rs)
      × ((summarize rs).total ≡ length rs)
      × ((summarize rs).additive + (summarize rs).behavioral + (summarize rs).breaking
          ≡ (summarize rs).total)
unfolding summarize
summarize_counts rs =
    let start : ChangeReportSummary = record {
      total = length rs;
      additive = 0;
      behavioral = 0;
      breaking = 0;
    } in
    ground (arith, summarize_from_counts start rs, tally_total rs)

abbrev pub IsBreaking : ChangeRecord → Type 0
IsBreaking r = r.verdict ≡ breaking

tally-Some : (rs : List ChangeRecord) → (0 < tally breaking rs) ↔ Some IsBreaking rs
tally-Some [] = (λ h. absurd (omega arith), λ h. absurd h)
tally-Some (r ∷ rs) =
    let ih = tally-Some rs in (λ h. ground (arith, ih.0), λ h. ground (arith, ih.1))

-- What a record takes over from its raw change, and what the rule set says of that change.
module _ (fnmatchcase : String → String → Bool) (repr : String → String)
    (sha1 : String → String) where
  abbrev Describes : RuleSet → RawChange → ChangeRecord → Type 0
  Describes rules change r =
      (r.kind ≡ change.kind)
      × (r.location ≡ change.location)
      × (r.before ≡ change.before)
      × (r.after ≡ change.after)
      × (r.detail ≡ change.detail)
      × ((r.verdict, r.rule_id, r.rationale) ≡ classify fnmatchcase repr rules change)

  -- The two lists have one length, and each record describes the change at its place.
  abbrev pub AllDescribe : RuleSet → List RawChange → List ChangeRecord → Type 0
  AllDescribe rules [] [] = Unit
  AllDescribe rules [] (r ∷ rs) = ⊥
  AllDescribe rules (c ∷ cs) [] = ⊥
  AllDescribe rules (c ∷ cs) (r ∷ rs) = Describes rules c r × AllDescribe rules cs rs

  classify_from-AllDescribe :
      (rules : RuleSet) (affected : Dict ℕ (List String)) (i : ℕ) (changes : List RawChange)
      → AllDescribe rules changes (classify_from fnmatchcase repr sha1 rules affected i changes)
  unfolding classify_from
  classify_from-AllDescribe rules affected i [] = tt
  classify_from-AllDescribe rules affected i (c ∷ cs) =
      ((refl, refl, refl, refl, refl, refl), classify_from-AllDescribe rules affected (suc i) cs)

  -- `report_of` makes one record for each raw change, in the order of the changes, with the
  -- change's kind, location, values and detail, and with the verdict, rule id and rationale
  -- that the rule set gives it.
  pub report_of-AllDescribe :
      (kind : ContractKind) (rules : RuleSet) (changes : List RawChange)
      (affected : Dict ℕ (List String)) (findings : List SpectralFinding)
      → AllDescribe rules changes
          (report_of fnmatchcase repr sha1 kind rules changes affected findings).changes
  unfolding report_of
  report_of-AllDescribe kind rules changes affected findings =
      classify_from-AllDescribe rules affected 0 changes

  abbrev pub MakesBreaking : RuleSet → RawChange → Type 0
  MakesBreaking rules change = (classify fnmatchcase repr rules change).0 ≡ breaking

  classify_from-IsBreaking :
      (rules : RuleSet) (affected : Dict ℕ (List String)) (i : ℕ) (changes : List RawChange)
      → Some IsBreaking (classify_from fnmatchcase repr sha1 rules affected i changes)
        ↔ Some (MakesBreaking rules) changes
  unfolding classify_from
  classify_from-IsBreaking rules affected i [] = (λ h. h, λ h. h)
  classify_from-IsBreaking rules affected i (c ∷ cs) =
      let ih = classify_from-IsBreaking rules affected (suc i) cs in
      (
        λ h. elim h [ inl p ↦ inl p | inr q ↦ inr (ih.0 q) ],
        λ h. elim h [ inl p ↦ inl p | inr q ↦ inr (ih.1 q) ],
      )

  -- The gate: the summary counts a breaking change exactly when the rule set calls one of the
  -- raw changes breaking.
  pub breaking_gate :
      (kind : ContractKind) (rules : RuleSet) (changes : List RawChange)
      (affected : Dict ℕ (List String)) (findings : List SpectralFinding)
      → (0
          < (report_of fnmatchcase repr sha1 kind rules changes affected findings).summary.breaking)
        ↔ Some (MakesBreaking rules) changes
  unfolding report_of
  breaking_gate kind rules changes affected findings =
      let records = classify_from fnmatchcase repr sha1 rules affected 0 changes in
      let counted = (summarize_counts records).2 in
      let some_record = tally-Some records in
      let some_change = classify_from-IsBreaking rules affected 0 changes in
      (
        λ h. some_change.0 (some_record.0 (rw counted at h)),
        λ h. rw counted (some_record.1 (some_change.1 h)),
      )
