-- ===== src/Diff/Ruleset.antt =====
-- packages/guardian_diff/ruleset.py: rules, their lookup, and the merge of two rule sets.
-- `fnmatchcase` is that of Python's fnmatch module.
pub mod Classify
pub mod Merge
use text.Mathlib.Text.{◌==◌}
use living_api_contract_guar.Common.{
  ℕ, suc, zero, String, Bool, true, false, Option, none, some, List, [], ◌∷◌, ◌++◌, ◌-◌, ◌&&◌,
  length, if◌then◌else◌, string_key,
}
use living_api_contract_guar.Common.Text.{◌<>◌}
use living_api_contract_guar.Common.Dict.{Dict, get, put}
use living_api_contract_guar.Diff.Models.{Verdict, behavioral, RawChange}

pub record Rule : Type 0 where
  pub id : String
  pub kind : String
  pub verdict : Verdict
  pub rationale : String
  pub location_glob : Option String

pub record RuleSet : Type 0 where
  pub id : String
  pub rules : List Rule

module _ (fnmatchcase : String → String → Bool) where
  -- the test on `location_glob`
  glob_matches : Option String → String → Bool
  glob_matches none location = true
  glob_matches (some glob) location = fnmatchcase location glob

  -- `Rule.matches`
  unfoldable pub matches : Rule → RawChange → Bool
  unfolding glob_matches
  matches rule change =
      (change.kind == rule.kind) && glob_matches rule.location_glob change.location

  -- the loop of `RuleSet.classify`
  unfoldable pub last_match : Option Rule → List Rule → RawChange → Option Rule
  last_match found [] change = found
  last_match found (rule ∷ rules) change =
      last_match (if matches rule change then some rule else found) rules change

module _ (repr : String → String) where
  unfoldable pub verdict_of : Option Rule → RawChange → Verdict × String × String
  verdict_of none change = (
    behavioral,
    "UNCLASSIFIED",
    "No rule matched change kind " <> repr change.kind <> "; defaulting to behavioral.",
  )
  verdict_of (some rule) change = (rule.verdict, rule.id, rule.rationale)

module _ (fnmatchcase : String → String → Bool) (repr : String → String) where
  -- `RuleSet.classify`
  unfoldable pub classify : RuleSet → RawChange → Verdict × String × String
  unfolding last_match verdict_of matches
  classify set change = verdict_of repr (last_match fnmatchcase none set.rules change) change

-- `xs[i] = x`
unfoldable pub set {ℓ} : {A : Type ℓ} → List A → ℕ → A → List A
set [] i x = []
set (y ∷ ys) zero x = x ∷ ys
set (y ∷ ys) (suc i) x = y ∷ set ys i x

-- `{r.id: i for i, r in enumerate(rules, start)}`, on top of `by_id`
unfoldable pub index_rules : Dict String ℕ → ℕ → List Rule → Dict String ℕ
index_rules by_id i [] = by_id
index_rules by_id i (r ∷ rs) = index_rules (put r.id i by_id) (suc i) rs

-- the branches of the loop of `RuleSet.merge`, on `by_id.get(rule.id)`
unfoldable pub place_rule : Option ℕ → Dict String ℕ → List Rule → Rule → Dict String ℕ × List Rule
unfolding set
place_rule (some i) by_id merged rule = (by_id, set merged i rule)
place_rule none by_id merged rule =
    (put rule.id (length (merged ++ rule ∷ []) - 1) by_id, merged ++ rule ∷ [])

unfoldable pub merge_rule : Dict String ℕ → List Rule → Rule → Dict String ℕ × List Rule
unfolding place_rule
merge_rule by_id merged rule = place_rule (get rule.id by_id) by_id merged rule

unfoldable pub merge_rules : Dict String ℕ → List Rule → List Rule → List Rule
merge_rules by_id merged [] = merged
merge_rules by_id merged (rule ∷ rules) =
    let (by_id', merged') = merge_rule by_id merged rule in merge_rules by_id' merged' rules

-- `RuleSet.merge`
unfoldable pub merge : RuleSet → RuleSet → RuleSet
unfolding merge_rules merge_rule index_rules
merge self override = record {
  id = if override.id == "" then self.id else override.id;
  rules = merge_rules (index_rules [] 0 self.rules) self.rules override.rules;
}
