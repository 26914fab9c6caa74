-- ===== src/Diff/Ruleset/Classify.antt =====
-- What `RuleSet.classify` answers: the last rule that matches, or the fallback.
use living_api_contract_guar.Common.{
  String, Bool, true, false, Option, none, some, List, [], ◌∷◌, ◌++◌, ◌≡◌, refl, arith, All,
  if◌then◌else◌,
}
use living_api_contract_guar.Diff.Models.{behavioral, RawChange}
use living_api_contract_guar.Diff.Ruleset.{Rule, RuleSet, matches, last_match, classify}

module _ (fnmatchcase : String → String → Bool) where
  abbrev pub Misses : RawChange → Rule → Type 0
  Misses change rule = matches fnmatchcase rule change ≡ false

  last_match-Misses :
      (found : Option Rule) (rules : List Rule) (change : RawChange)
      → All (Misses change) rules
      → last_match fnmatchcase found rules change ≡ found
  unfolding last_match
  last_match-Misses found [] change h = refl
  last_match-Misses found (rule ∷ rules) change h =
      ground (arith, last_match-Misses found rules change h.1)

  last_match-append :
      (found : Option Rule) (before after : List Rule) (rule : Rule) (change : RawChange)
      → matches fnmatchcase rule change ≡ true
      → All (Misses change) after
      → last_match fnmatchcase found (before ++ rule ∷ after) change ≡ some rule
  unfolding last_match
  last_match-append found [] after rule change m h =
      ground (arith, last_match-Misses (some rule) after change h)
  last_match-append found (r ∷ before) after rule change m h =
      last_match-append (if matches fnmatchcase r change then some r else found) before after rule
        change m h

module _ (fnmatchcase : String → String → Bool) (repr : String → String) where
  -- A rule that matches, with no matching rule after it, gives the verdict, its id and its
  -- rationale, whatever stands before it.
  pub classify-last :
      (set : RuleSet) (before after : List Rule) (rule : Rule) (change : RawChange)
      → set.rules ≡ before ++ rule ∷ after
      → matches fnmatchcase rule change ≡ true
      → All (Misses fnmatchcase change) after
      → classify fnmatchcase repr set change ≡ (rule.verdict, rule.id, rule.rationale)
  unfolding classify
  classify-last set before after rule change e m h =
      ground (arith, last_match-append fnmatchcase none before after rule change m h)

  -- When no rule matches, the verdict is `behavioral` under the id UNCLASSIFIED.
  pub classify_fallback :
      (set : RuleSet) (change : RawChange)
      → All (Misses fnmatchcase change) set.rules
      → ((classify fnmatchcase repr set change).0 ≡ behavioral)
        × ((classify fnmatchcase repr set change).1 ≡ "UNCLASSIFIED")
  unfolding classify
  classify_fallback set change h =
      ground (arith, last_match-Misses fnmatchcase none set.rules change h)
