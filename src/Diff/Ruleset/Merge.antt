-- ===== src/Diff/Ruleset/Merge.antt =====
-- Which rule takes effect under an id after `RuleSet.merge`.
pub mod Order
use native.Mathlib.Nat.{add-zero}
use living_api_contract_guar.Common.{
  ℕ, zero, suc, ◌+◌, ◌-◌, String, Bool, true, false, Option, none, some, List, [], ◌∷◌, ◌++◌, ◌≡◌,
  refl, sym, ◌∙◌, arith, map, length, if◌then◌else◌, ◌==◌, string_key, Key, Option-cases, inl, inr,
  length-append, is_some,
}
use living_api_contract_guar.Common.Dict.{Dict, get, put, get-put}
use living_api_contract_guar.Diff.Ruleset.{
  Rule, RuleSet, set, index_rules, place_rule, merge_rule, merge_rules, merge,
}
use text.Mathlib.TextEquality.{eq_iff}

-- The last rule with an id: the one that takes effect.
abbrev pub or_else {ℓ} : {A : Type ℓ} → Option A → Option A → Option A
or_else (some a) o = some a
or_else none o = o

unfoldable pub find_rule : String → List Rule → Option Rule
find_rule i [] = none
find_rule i (r ∷ rs) = or_else (find_rule i rs) (if r.id == i then some r else none)

shift : Option ℕ → Option ℕ
shift none = none
shift (some n) = some (suc n)

last_index : String → List Rule → Option ℕ
unfolding shift
last_index i [] = none
last_index i (r ∷ rs) = or_else (shift (last_index i rs)) (if r.id == i then some 0 else none)

offset : ℕ → Option ℕ → Option ℕ
offset k none = none
offset k (some n) = some (k + n)

offset-shift : (k : ℕ) (o : Option ℕ) → offset k (shift o) ≡ offset (suc k) o
unfolding offset shift
offset-shift k none = refl
offset-shift k (some n) = ground arith

offset-zero : (o : Option ℕ) → or_else (offset 0 o) none ≡ o
unfolding offset
offset-zero none = refl
offset-zero (some n) = ground arith

get_nil : (i : String) → get {V = ℕ} i [] ≡ none
unfolding get
get_nil i = refl

get-index_rules :
    (i : String) (d : Dict String ℕ) (k : ℕ) (rs : List Rule)
    → get i (index_rules d k rs) ≡ or_else (offset k (last_index i rs)) (get i d)
unfolding index_rules last_index offset
get-index_rules i d k [] = refl
get-index_rules i d k (r ∷ rs) = ground (
  arith,
  get-index_rules i (put r.id k d) (suc k) rs,
  get-put r.id i k d,
  offset-shift k (last_index i rs),
)

find_rule-append :
    (i : String) (rs : List Rule) (r : Rule)
    → find_rule i (rs ++ r ∷ []) ≡ (if r.id == i then some r else find_rule i rs)
unfolding find_rule
find_rule-append i [] r = refl
find_rule-append i (q ∷ rs) r = ground (arith, find_rule-append i rs r)

last_index-append :
    (i : String) (rs : List Rule) (r : Rule)
    → last_index i (rs ++ r ∷ []) ≡ (if r.id == i then some (length rs) else last_index i rs)
unfolding last_index
last_index-append i [] r = refl
last_index-append i (q ∷ rs) r = ground (arith, last_index-append i rs r)

none_of_last_index : (i : String) (rs : List Rule) → last_index i rs ≡ none → find_rule i rs ≡ none
unfolding find_rule last_index
none_of_last_index i [] h = refl
none_of_last_index i (r ∷ rs) h = ground (arith, none_of_last_index i rs)

find_rule-set :
    (i : String) (rs : List Rule) (n : ℕ) (r : Rule)
    → last_index r.id rs ≡ some n
    → find_rule i (set rs n r) ≡ (if r.id == i then some r else find_rule i rs)
unfolding find_rule last_index set
find_rule-set i [] n r h = ground arith
find_rule-set i (q ∷ rs) zero r h =
    ground (arith, none_of_last_index r.id rs, eq_iff r.id i, eq_iff q.id r.id)
find_rule-set i (q ∷ rs) (suc n) r h = ground (arith, find_rule-set i rs n r)

last_index-set :
    (i : String) (rs : List Rule) (n : ℕ) (r : Rule)
    → last_index r.id rs ≡ some n
    → last_index i (set rs n r) ≡ last_index i rs
unfolding last_index set
last_index-set i [] n r h = refl
last_index-set i (q ∷ rs) zero r h = ground (arith, eq_iff q.id r.id)
last_index-set i (q ∷ rs) (suc n) r h = ground (arith, last_index-set i rs n r)

-- `by_id` gives the place of the rule that takes effect, for every id.
abbrev IsIndex : Dict String ℕ → List Rule → Type 0
IsIndex by_id rules = (i : String) → get i by_id ≡ last_index i rules

place_rule-IsIndex :
    (o : Option ℕ) (by_id : Dict String ℕ) (merged : List Rule) (rule : Rule)
    → get rule.id by_id ≡ o
    → IsIndex by_id merged
    → IsIndex (place_rule o by_id merged rule).0 (place_rule o by_id merged rule).1
unfolding place_rule
place_rule-IsIndex (some n) by_id merged rule e h i =
    h i ∙ sym (last_index-set i merged n rule (sym (h rule.id) ∙ e))
place_rule-IsIndex none by_id merged rule e h i = ground (
  arith,
  h i,
  get-put rule.id i (length (merged ++ rule ∷ []) - 1) by_id,
  last_index-append i merged rule,
  length-append merged (rule ∷ []),
)

merge_rule-IsIndex :
    (by_id : Dict String ℕ) (merged : List Rule) (rule : Rule)
    → IsIndex by_id merged
    → IsIndex (merge_rule by_id merged rule).0 (merge_rule by_id merged rule).1
unfolding merge_rule
merge_rule-IsIndex by_id merged rule h =
    place_rule-IsIndex (get rule.id by_id) by_id merged rule refl h

find_rule-place_rule :
    (i : String) (o : Option ℕ) (by_id : Dict String ℕ) (merged : List Rule) (rule : Rule)
    → get rule.id by_id ≡ o
    → IsIndex by_id merged
    → find_rule i (place_rule o by_id merged rule).1
      ≡ (if rule.id == i then some rule else find_rule i merged)
unfolding place_rule
find_rule-place_rule i (some n) by_id merged rule e h =
    find_rule-set i merged n rule (sym (h rule.id) ∙ e)
find_rule-place_rule i none by_id merged rule e h = find_rule-append i merged rule

find_rule-merge_rule :
    (i : String) (by_id : Dict String ℕ) (merged : List Rule) (rule : Rule)
    → IsIndex by_id merged
    → find_rule i (merge_rule by_id merged rule).1
      ≡ (if rule.id == i then some rule else find_rule i merged)
unfolding merge_rule
find_rule-merge_rule i by_id merged rule h =
    find_rule-place_rule i (get rule.id by_id) by_id merged rule refl h

find_rule-merge_rules :
    (i : String) (by_id : Dict String ℕ) (merged rules : List Rule)
    → IsIndex by_id merged
    → find_rule i (merge_rules by_id merged rules)
      ≡ or_else (find_rule i rules) (find_rule i merged)
unfolding merge_rules find_rule
find_rule-merge_rules i by_id merged [] h = refl
find_rule-merge_rules i by_id merged (rule ∷ rules) h =
    let (by_id', merged') = merge_rule by_id merged rule in
    ground (
      arith,
      find_rule-merge_rules i by_id' merged' rules (merge_rule-IsIndex by_id merged rule h),
      find_rule-merge_rule i by_id merged rule h,
    )

index_rules-IsIndex : (rules : List Rule) → IsIndex (index_rules [] 0 rules) rules
index_rules-IsIndex rules i =
    ground (arith, get-index_rules i [] 0 rules, offset-zero (last_index i rules), get_nil i)

-- Under every id the merged set has the override's rule where the override has one, and the
-- base's rule otherwise.
pub find_rule-merge :
    (i : String) (self override : RuleSet)
    → find_rule i (merge self override).rules
      ≡ or_else (find_rule i override.rules) (find_rule i self.rules)
unfolding merge
find_rule-merge i self override =
    find_rule-merge_rules i (index_rules [] 0 self.rules) self.rules override.rules
      (index_rules-IsIndex self.rules)
