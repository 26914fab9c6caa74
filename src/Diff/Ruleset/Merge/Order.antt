-- ===== src/Diff/Ruleset/Merge/Order.antt =====
-- The order of the ids after `RuleSet.merge`.
use mathlib.Core.List.{append_assoc, append-nil, map-append}
use text.Mathlib.TextEquality.{eq_iff}
use living_api_contract_guar.Common.{
  ℕ, zero, suc, String, Option, none, some, List, [], ◌∷◌, ◌++◌, ◌≡◌, refl, sym, ◌∙◌, arith, map,
  if◌then◌else◌, string_key, is_some,
}
use living_api_contract_guar.Common.Dict.{Dict, get}
use living_api_contract_guar.Common.Sets.{elem}
use living_api_contract_guar.Diff.Ruleset.{
  Rule, RuleSet, set, index_rules, place_rule, merge_rule, merge_rules, merge,
}
use living_api_contract_guar.Diff.Ruleset.Merge.{
  last_index, IsIndex, merge_rule-IsIndex, index_rules-IsIndex,
}

abbrev pub ids : List Rule → List String
ids = map (λ r. r.id)

-- The ids of the override that the base does not have, in order, the first time each.
unfoldable pub new_ids : List String → List String → List String
unfolding elem
new_ids known [] = []
new_ids known (i ∷ is) =
    let rest = new_ids known is in
    let fresh = new_ids (known ++ i ∷ []) is in if elem i known then rest else i ∷ fresh

ids-set :
    (rs : List Rule) (n : ℕ) (r : Rule) → last_index r.id rs ≡ some n → ids (set rs n r) ≡ ids rs
unfolding set last_index
ids-set [] n r h = refl
ids-set (q ∷ rs) zero r h = ground (arith, eq_iff q.id r.id)
ids-set (q ∷ rs) (suc n) r h = ground (arith, ids-set rs n r)

elem-ids : (i : String) (rs : List Rule) → elem i (ids rs) ≡ is_some (last_index i rs)
unfolding elem last_index
elem-ids i [] = refl
elem-ids i (r ∷ rs) = ground (arith, elem-ids i rs)

ids-place_rule :
    (o : Option ℕ) (by_id : Dict String ℕ) (merged rules : List Rule) (rule : Rule)
    → last_index rule.id merged ≡ o
    → ids (place_rule o by_id merged rule).1
        ++ new_ids (ids (place_rule o by_id merged rule).1) (ids rules)
      ≡ ids merged ++ new_ids (ids merged) (ids (rule ∷ rules))
unfolding place_rule new_ids
ids-place_rule (some n) by_id merged rules rule e =
    rw (ids-set merged n rule e) (ground (arith, elem-ids rule.id merged))
ids-place_rule none by_id merged rules rule e =
    rw map-append (rw append_assoc (ground (arith, elem-ids rule.id merged)))

ids-step :
    (by_id : Dict String ℕ) (merged rules : List Rule) (rule : Rule)
    → IsIndex by_id merged
    → ids (merge_rule by_id merged rule).1
        ++ new_ids (ids (merge_rule by_id merged rule).1) (ids rules)
      ≡ ids merged ++ new_ids (ids merged) (ids (rule ∷ rules))
unfolding merge_rule
ids-step by_id merged rules rule h =
    ids-place_rule (get rule.id by_id) by_id merged rules rule (sym (h rule.id))

ids-merge_rules :
    (by_id : Dict String ℕ) (merged rules : List Rule)
    → IsIndex by_id merged
    → ids (merge_rules by_id merged rules) ≡ ids merged ++ new_ids (ids merged) (ids rules)
unfolding merge_rules new_ids
ids-merge_rules by_id merged [] h = sym (append-nil (ids merged))
ids-merge_rules by_id merged (rule ∷ rules) h =
    let (by_id', merged') = merge_rule by_id merged rule in
    ids-merge_rules by_id' merged' rules (merge_rule-IsIndex by_id merged rule h)
    ∙ ids-step by_id merged rules rule h

-- The merged set lists the base's ids in their order, and after them the override's new ids.
pub ids-merge :
    (self override : RuleSet)
    → ids (merge self override).rules
      ≡ ids self.rules ++ new_ids (ids self.rules) (ids override.rules)
unfolding merge
ids-merge self override =
    ids-merge_rules (index_rules [] 0 self.rules) self.rules override.rules
      (index_rules-IsIndex self.rules)
