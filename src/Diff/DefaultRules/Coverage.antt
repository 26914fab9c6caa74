-- ===== src/Diff/DefaultRules/Coverage.antt =====
-- Changes whose kind has a rule among the default rules.
use living_api_contract_guar.Common.{
  String, Bool, true, false, not, Option, none, some, List, [], ◌∷◌, ◌≡◌, ◌≢◌, refl, arith, map,
  ◌&&◌, ◌==◌, is_some, All-of_all, string_key, pair_key, All,
}
use living_api_contract_guar.Common.Sets.{elem}
use living_api_contract_guar.Diff.Models.{RawChange}
use living_api_contract_guar.Diff.Ruleset.{Rule, matches, last_match, verdict_of, classify}
use text.Mathlib.TextEquality.{eq_iff}
use living_api_contract_guar.Diff.DefaultRules.{default_rules}

-- Some default rule is about this kind.
unfoldable pub covered : String → Bool
unfolding default_rules elem
covered kind = elem kind (map (λ r. r.kind) default_rules.rules)

abbrev pub IsCovered : RawChange → Type 0
IsCovered change = covered change.kind ≡ true

-- No default rule is called UNCLASSIFIED or has a glob.
plain : Rule → Bool
plain r = not (r.id == "UNCLASSIFIED") && not (is_some r.location_glob)

abbrev IsPlain : Rule → Type 0
IsPlain r = plain r ≡ true

default_rules-IsPlain : All IsPlain default_rules.rules
unfolding default_rules plain
default_rules-IsPlain = All-of_all plain default_rules.rules refl

module _ (fnmatchcase : String → String → Bool) (repr : String → String) where
  abbrev IsNamed : Option Rule → Type 0
  IsNamed none = ⊥
  IsNamed (some r) = (r.id == "UNCLASSIFIED") ≡ false

  last_match-IsNamed :
      (r : Rule) (rules : List Rule) (c : RawChange)
      → (r.id == "UNCLASSIFIED") ≡ false
      → All IsPlain rules
      → IsNamed (last_match fnmatchcase (some r) rules c)
  unfolding last_match plain
  last_match-IsNamed r [] c h k = h
  last_match-IsNamed r (q ∷ rules) c h k =
      ground
        (arith, last_match-IsNamed r rules c h k.1, last_match-IsNamed q rules c (ground arith) k.1)

  known_last_match :
      (rules : List Rule) (c : RawChange)
      → All IsPlain rules
      → elem c.kind (map (λ r. r.kind) rules) ≡ true
      → IsNamed (last_match fnmatchcase none rules c)
  unfolding last_match elem matches plain
  known_last_match [] c h e = cc
  known_last_match (q ∷ rules) c h e = ground (
    arith,
    known_last_match rules c h.1,
    last_match-IsNamed q rules c (ground arith) h.1,
    eq_iff c.kind q.kind,
    eq_iff q.kind c.kind,
  )

  IsNamed-verdict_of :
      (o : Option Rule) (c : RawChange) → IsNamed o → (verdict_of repr o c).1 ≢ "UNCLASSIFIED"
  unfolding verdict_of
  IsNamed-verdict_of none c h = absurd h
  IsNamed-verdict_of (some r) c h = λ e. ground (arith, eq_iff r.id "UNCLASSIFIED")

  classified :
      (c : RawChange) → IsCovered c → (classify fnmatchcase repr default_rules c).1 ≢ "UNCLASSIFIED"
  unfolding classify covered
  classified c k =
      IsNamed-verdict_of (last_match fnmatchcase none default_rules.rules c) c
        (known_last_match default_rules.rules c default_rules-IsPlain k)

  -- A change of a covered kind does not fall back to UNCLASSIFIED under the default rules.
  pub covered_classified :
      (cs : List RawChange)
      → All IsCovered cs
      → All (λ c. (classify fnmatchcase repr default_rules c).1 ≢ "UNCLASSIFIED") cs
  covered_classified [] h = tt
  covered_classified (c ∷ cs) h = (classified c h.0, covered_classified cs h.1)
