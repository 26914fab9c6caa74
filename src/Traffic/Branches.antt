-- ===== src/Traffic/Branches.antt =====
-- packages/guardian_core/traffic/schema_inference.py: `_merge_anyof_branches`. `none` is an
-- IndexError on branches without a type.
use living_api_contract_guar.Common.{
  String, Bool, not, Option, none, some, List, [], ◌∷◌, ◌++◌, ◌&&◌, ◌==◌, is_empty, string_key,
  list_key, if◌then◌else◌, all, select,
}
use living_api_contract_guar.Common.Sets.{elem}
use living_api_contract_guar.Common.Dict.{Dict, put}
use living_api_contract_guar.Json.Value.{
  Value, str, arr, obj, Items, no_item, item, Fields, end, field, entries, items, object, texts,
  as_dict, as_list, as_str, get_value, is_dict,
}
use living_api_contract_guar.Diff.Raising.{◌>>=◌}

-- `if t not in types: types.append(t)`, for what is a text
abbrev pub append_type : List String → Option String → List String
append_type types none = types
append_type types (some t) = if elem t types then types else types ++ (t ∷ [])

abbrev pub append_types : List String → List Value → List String
append_types types [] = types
append_types types (v ∷ vs) = append_types (append_type types (as_str v)) vs

abbrev pub types_of : List String → Value → List String
types_of types (str t) = append_type types (some t)
types_of types (arr vs) = append_types types (items vs)
types_of types _ = types

unfoldable pub branch_types : List String → List Value → List String
unfolding get_value as_dict as_str elem items
branch_types types [] = types
branch_types types (b ∷ bs) = branch_types (types_of types (get_value "type" (as_dict b))) bs

-- `isinstance(b, dict) and set(b.keys()) <= {"type"}`
unfoldable pub is_type_only : Value → Bool
unfolding is_dict as_dict
is_type_only b = is_dict b && all (λ p. p.0 == "type") (as_dict b)

-- `types if len(types) > 1 else types[0]`
abbrev pub type_value : List String → Option Value
type_value [] = none
type_value (t ∷ []) = some (str t)
type_value (t ∷ u ∷ ts) = some (texts (t ∷ u ∷ ts))

-- `{k: v for k, v in schema.items() if k != key}`
abbrev pub without : String → Dict String Value → Dict String Value
without key d = select (λ p. not (p.0 == key)) d

abbrev pub put_type : String → Dict String Value → Option Value → Option (Dict String Value)
put_type key d none = none
put_type key d (some t) = some (put "type" t (without key d))

abbrev pub collapse_list :
    String → Dict String Value → Option (List Value) → Option (Dict String Value)
collapse_list key d none = some d
collapse_list key d (some branches) =
    if not (is_empty branches) && all is_type_only branches
    then put_type key d (type_value (branch_types [] branches))
    else some d

-- One round of the loop over "anyOf" and "oneOf".
unfoldable pub collapse : String → Dict String Value → Option (Dict String Value)
unfolding get_value as_list is_type_only branch_types put
collapse key d = collapse_list key d (as_list (get_value key d))

-- The loop, for the fields whose `properties` and `items` are done.
unfoldable pub collapse_both : Option Fields → Option Value
unfolding collapse entries
collapse_both fs = do
  fields ← fs
  d ← collapse "anyOf" (entries fields)
  e ← collapse "oneOf" d
  some (object e)

abbrev pub cons_field : String → Option Value → Option Fields → Option Fields
cons_field k v fs = do w ← v; rest ← fs; some (field k w rest)

abbrev pub cons_item : Option Value → Option Items → Option Items
cons_item v vs = do w ← v; rest ← vs; some (item w rest)

abbrev pub as_object : Option Fields → Option Value
as_object fs = do fields ← fs; some (obj fields)

abbrev pub as_array : Option Items → Option Value
as_array vs = do elements ← vs; some (arr elements)

-- `_merge_anyof_branches`. The loop and the recursion touch different keys, so the recursion, which
-- goes by the fields, stands first.
unfoldable mutual
  unfolding collapse_both

  pub merge_anyof_branches : Value → Option Value
  merge_anyof_branches (obj fs) = collapse_both (merge_below fs)
  merge_anyof_branches v = some v

  pub merge_below : Fields → Option Fields
  merge_below end = some end
  merge_below (field k v fs) =
      let in_properties = merge_properties v in
      let in_items = merge_items v in
      let rest = merge_below fs in
      cons_field k
        (if k == "properties" then in_properties else if k == "items" then in_items else some v)
        rest

  pub merge_properties : Value → Option Value
  merge_properties (obj fs) = as_object (merge_each fs)
  merge_properties v = some v

  pub merge_each : Fields → Option Fields
  merge_each end = some end
  merge_each (field k v fs) = cons_field k (merge_anyof_branches v) (merge_each fs)

  pub merge_items : Value → Option Value
  merge_items (obj fs) = collapse_both (merge_below fs)
  merge_items (arr vs) = as_array (merge_elements vs)
  merge_items v = some v

  pub merge_elements : Items → Option Items
  merge_elements no_item = some no_item
  merge_elements (item v vs) = cons_item (merge_anyof_branches v) (merge_elements vs)
