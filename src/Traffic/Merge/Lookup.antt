-- ===== src/Traffic/Merge/Lookup.antt =====
-- What `merge_json_schemas` makes of the properties and the required names of two objects.
use text.Mathlib.TextEquality.{eq_iff}
use living_api_contract_guar.Common.{
  suc, String, Bool, true, false, Option, none, some, List, [], ◌∷◌, ◌++◌, ◌≡◌, refl, sym, ◌∙◌,
  arith, ◌||◌, ◌==◌, string_key, is_some, if◌then◌else◌,
}
use living_api_contract_guar.Common.Sets.{set_of, elem, elem-set_of, elem-sorted, elem-append}
use living_api_contract_guar.Common.Dict.{Dict, get, put, keys, get-put, elem-keys}
use living_api_contract_guar.Json.Value.{
  Value, obj, get-entries-fields_of, Fields, end, entries, get_value, truthy, object, texts,
  as_dict,
}
use living_api_contract_guar.Diff.Raising.{bind-some}
use living_api_contract_guar.Traffic.Merge.{
  depth, dict_or_empty, merge_each, merge_property, merge_within, merge_json_schemas, all_keys,
  is_object,
}
use living_api_contract_guar.Traffic.Merge.Enough.{depth_of_property, merge_within-same}
use living_api_contract_guar.Traffic.Merge.Parts.{Parts, merge-Parts, written}

-- The property of an object schema under a key.
unfoldable pub property : String → Value → Option Value
unfolding get as_dict get_value
property key schema = get key (as_dict (get_value "properties" (as_dict schema)))

-- One visit of the loop, for a key that it may be.
visit :
    (b : Bool) (j k : String) (v : Value) (visited : String → Option Value) (more : Bool)
    → (rest : Option Value) → (b ≡ true → j ≡ k)
    → visited j ≡ some v
    → (if more then visited k else none) ≡ rest
    → (if b || more then visited k else none) ≡ (if b then some v else rest)
visit true j k v visited more rest same h q = let key : j ≡ k = same refl in rw (← key) h
visit false j k v visited more rest same h q = q

module _ (f : Value → Value → Option Value) (e i : Dict String Value) where
  merge_each-get :
      (ks : List String) (d : Dict String Value) (k : String)
      → merge_each f e i ks ≡ some d
      → (if elem k ks then merge_property f (get k e) (get k i) else none) ≡ get k d
  unfolding merge_each get elem
  merge_each-get [] d k h = let empty : [] ≡ d = cc in rw (← empty) refl
  merge_each-get (j ∷ ks) d k h =
      let head = bind-some (merge_property f (get j e) (get j i)) _ d h in
      let rest = bind-some (merge_each f e i ks) _ d head.2 in
      let whole : (j, head.0) ∷ rest.0 ≡ d = cc (rest.2) in
      rw (← whole) (
        visit (j == k) j k head.0 (λ l. merge_property f (get l e) (get l i)) (elem k ks)
          (get k rest.0) (eq_iff j k).0 head.1 (merge_each-get ks rest.0 k rest.1))

  elem-all_keys : (k : String) → elem k (all_keys f e i) ≡ (is_some (get k e) || is_some (get k i))
  elem-all_keys k = rw (
    elem-sorted k (set_of (keys e ++ keys i)),
    elem-set_of k (keys e ++ keys i),
    elem-append k (keys e) (keys i),
    elem-keys k e,
    elem-keys k i,
  )

none_of : (b : Bool) (d : Dict String Value) → (if b then none else some []) ≡ some d → [] ≡ d
none_of true d h = absurd cc
none_of false d h = cc

as_dict-dict_or_empty :
    (v : Value) (d : Dict String Value) → dict_or_empty v ≡ some d → as_dict v ≡ d
unfolding dict_or_empty as_dict truthy
as_dict-dict_or_empty (obj fs) d h = cc
as_dict-dict_or_empty v d h = none_of (truthy v) d h

-- The property of the result, from those of the two schemas.
abbrev pub MergedProperty : Option Value → Option Value → Option Value → Type 0
MergedProperty (some v) (some w) got = merge_json_schemas v w ≡ got
MergedProperty (some v) none got = got ≡ some (if truthy v then v else obj end)
MergedProperty none (some w) got = got ≡ some (if truthy w then w else obj end)
MergedProperty none none got = got ≡ none

get-put_required :
    (o : Option (List String)) (props base : Dict String Value)
    → get "properties" (written o props base) ≡ some (object props)
get-put_required none props base = get-put "properties" "properties" (object props) base
get-put_required (some names) props base =
    rw (get-put "required" "properties" (texts names) (put "properties" (object props) base))
      (get-put "properties" "properties" (object props) base)

module _ (o : Option (List String)) (props base : Dict String Value) where
  property-written : (key : String) → property key (object (written o props base)) ≡ get key props
  unfolding property get_value as_dict entries
  property-written key =
      rw (get-entries-fields_of "properties" (written o props base), get-put_required o props base)
        (get-entries-fields_of key props)

module _ (fs gs : Fields) (m : Value) (parts : Parts fs gs m) where
  property-result : (key : String) → property key m ≡ get key parts.props
  property-result key = rw (← parts.result) (property-written _ parts.props _ key)

  property-existing : (key : String) → property key (obj fs) ≡ get key parts.e_props
  unfolding property
  property-existing key = rw (as_dict-dict_or_empty _ parts.e_props parts.e_read) refl

  property-incoming : (key : String) → property key (obj gs) ≡ get key parts.i_props
  unfolding property
  property-incoming key = rw (as_dict-dict_or_empty _ parts.i_props parts.i_read) refl

  merged-loop :
      (key : String) (a b : Option Value)
      → get key parts.e_props ≡ a
      → get key parts.i_props ≡ b
      → (if is_some a || is_some b
          then merge_property (merge_within (depth (obj fs))) a b
          else none)
        ≡ get key parts.props
      → MergedProperty a b (get key parts.props)
  unfolding truthy merge_json_schemas depth
  merged-loop key none none h q r = sym r
  merged-loop key none (some w) h q r = sym r
  merged-loop key (some v) none h q r = sym r
  merged-loop key (some v) (some w) h q r =
      let less = depth_of_property fs parts.e_props key v parts.e_read h in
      merge_within-same (suc (depth v)) (depth (obj fs)) v w (omega arith) (omega (arith, less)) ∙ r

-- For two object schemas, what the merged schema has under each key of the properties follows from
-- what the two have there, recursively.
pub merge_json_schemas-property :
    (fs gs : Fields) (m : Value) (key : String)
    → is_object (entries fs) ≡ true
    → is_object (entries gs) ≡ true
    → merge_json_schemas (obj fs) (obj gs) ≡ some m
    → MergedProperty (property key (obj fs)) (property key (obj gs)) (property key m)
merge_json_schemas-property fs gs m key h q r =
    let parts = merge-Parts fs gs m h q r in
    let f = merge_within (depth (obj fs)) in
    let looped =
      merge_each-get f parts.e_props parts.i_props (all_keys f parts.e_props parts.i_props)
        parts.props key parts.looped in
    rw
      (
        property-result fs gs m parts key,
        property-existing fs gs m parts key,
        property-incoming fs gs m parts key,
      )
      (merged-loop fs gs m parts key (get key parts.e_props) (get key parts.i_props) refl refl
        (rw (elem-all_keys f parts.e_props parts.i_props key) at looped))
