-- ===== src/Traffic/Merge.antt =====
-- packages/guardian_core/traffic/_merge.py: `merge_json_schemas` on decoded JSON. `none` is the
-- TypeError or AttributeError on what is no schema; an array of pairs, which `dict` would take,
-- and a list of required names that are not texts count as that too.
pub mod Enough
pub mod Schemas
pub mod Closed
pub mod Parts
pub mod Lookup
pub mod Required
use living_api_contract_guar.Common.{
  ℕ, zero, suc, ◌+◌, String, Bool, true, false, not, Option, none, some, List, [], ◌∷◌, ◌++◌, ◌&&◌,
  ◌==◌, is_some, get_or, string_key, if◌then◌else◌, leb,
}
use living_api_contract_guar.Common.Sets.{set_of, sorted, intersection}
use living_api_contract_guar.Common.Dict.{Dict, get, put, keys, update}
use living_api_contract_guar.Json.Value.{
  Value, null, str, arr, obj, Items, no_item, item, Fields, end, field, entries, object, texts,
  as_str, get_value, truthy,
}
use living_api_contract_guar.Diff.Raising.{◌>>=◌}
use living_api_contract_guar.Diff.OpenApi.Reading.{iterate}

-- `dict(value)`
unfoldable pub copied : Value → Option Value
copied (obj fs) = some (obj fs)
copied (arr no_item) = some (obj end)
copied (str s) = if s == "" then some (obj end) else none
copied _ = none

-- `schema.get("properties") or {}`, whose keys are asked for next
unfoldable pub dict_or_empty : Value → Option (Dict String Value)
unfolding truthy entries
dict_or_empty (obj fs) = some (entries fs)
dict_or_empty v = if truthy v then none else some []

abbrev pub text_list : List Value → Option (List String)
text_list [] = some []
text_list (str s ∷ vs) = do rest ← text_list vs; some (s ∷ rest)
text_list (v ∷ vs) = none

-- The texts of `set(schema.get("required") or [])`
unfoldable pub name_set : Dict String Value → Option (List String)
unfolding iterate get_value set_of
name_set schema = do
  values ← iterate (get_value "required" schema)
  names ← text_list values
  some (set_of names)

abbrev pub is_text : String → Option String → Bool
is_text s none = false
is_text s (some t) = s == t

unfoldable pub is_object : Dict String Value → Bool
unfolding get_value as_str
is_object schema = is_text "object" (as_str (get_value "type" schema))

-- `v or w or {}`
abbrev pub first_truthy : Value → Value → Value
first_truthy v w = if truthy v then v else if truthy w then w else obj end

-- The four branches for `required`, by whether each side has the key.
abbrev pub required_by : Bool → Bool → List String → List String → Option (List String)
required_by true true e_req i_req = some (sorted (intersection e_req i_req))
required_by true false e_req i_req = some (sorted e_req)
required_by false true e_req i_req = some (sorted i_req)
required_by false false e_req i_req = none

abbrev pub put_required : Option (List String) → Dict String Value → Dict String Value
put_required none merged = merged
put_required (some names) merged = put "required" (texts names) merged

-- The end of the branch for objects: a side without the key is not read.
unfoldable pub with_required :
    Dict String Value → Dict String Value → Dict String Value → Option (Dict String Value)
unfolding name_set get put sorted intersection
with_required existing incoming merged = do
  e_req ← name_set existing
  i_req ← name_set incoming
  some (
      put_required
        (required_by (is_some (get "required" existing)) (is_some (get "required" incoming)) e_req
          i_req)
        merged)

-- `merge` is the function's own call.
module _ (merge : Value → Value → Option Value) where
  abbrev pub merge_property : Option Value → Option Value → Option Value
  merge_property (some v) (some w) = merge v w
  merge_property a b = some (first_truthy (get_or a null) (get_or b null))

  -- the loop over the sorted keys
  unfoldable pub merge_each :
      Dict String Value → Dict String Value → List String → Option (Dict String Value)
  unfolding get truthy
  merge_each e_props i_props [] = some []
  merge_each e_props i_props (key ∷ ks) = do
    v ← merge_property (get key e_props) (get key i_props)
    rest ← merge_each e_props i_props ks
    some ((key, v) ∷ rest)

  abbrev pub all_keys : Dict String Value → Dict String Value → List String
  all_keys e_props i_props = sorted (set_of (keys e_props ++ keys i_props))

  unfoldable pub merge_objects : Dict String Value → Dict String Value → Option (Dict String Value)
  unfolding dict_or_empty get_value put
  merge_objects existing incoming = do
    e_props ← dict_or_empty (get_value "properties" existing)
    i_props ← dict_or_empty (get_value "properties" incoming)
    merged_props ← merge_each e_props i_props (all_keys e_props i_props)
    with_required existing incoming
        (put "properties" (object merged_props) (put "type" (str "object") existing))

  unfoldable pub merge_dicts : Dict String Value → Dict String Value → Option (Dict String Value)
  unfolding is_object update
  merge_dicts existing incoming =
      if is_object existing && is_object incoming
      then merge_objects existing incoming
      else some (update existing incoming)

  abbrev pub merge_truthy : Value → Value → Option Value
  merge_truthy (obj fs) (obj gs) = do d ← merge_dicts (entries fs) (entries gs); some (object d)
  merge_truthy _ _ = none

  unfoldable pub merge_step : Value → Value → Option Value
  unfolding truthy copied entries
  merge_step existing incoming =
      if not (truthy existing)
      then copied incoming
      else if not (truthy incoming)
      then copied existing
      else merge_truthy existing incoming

-- The function with a bound on the depth of its calls.
unfoldable pub merge_within : ℕ → Value → Value → Option Value
merge_within zero existing incoming = none
merge_within (suc n) existing incoming = merge_step (merge_within n) existing incoming

abbrev pub max : ℕ → ℕ → ℕ
max m n = if leb m n then n else m

-- How deep objects stand in objects.
unfoldable mutual
  pub depth : Value → ℕ
  depth (obj fs) = suc (depth_fields fs)
  depth _ = 0

  pub depth_fields : Fields → ℕ
  depth_fields end = 0
  depth_fields (field k v fs) = max (depth v) (depth_fields fs)

-- `merge_json_schemas`; each call goes to a property of `existing`
unfoldable pub merge_json_schemas : Value → Value → Option Value
unfolding depth
merge_json_schemas existing incoming = merge_within (suc (depth existing)) existing incoming
