-- ===== src/Traffic/Inference.antt =====
-- packages/guardian_core/traffic/schema_inference.py. genson's SchemaBuilder is a function from the
-- samples to their schema. `none` is an exception: IndexError on branches without a type. A whole
-- number is an `int`, so the type of a float such as 1.0, which JSON can write, is not told apart.
pub mod Enums
pub mod EnumBounds
use living_api_contract_guar.Common.{
  ℕ, zero, suc, ◌+◌, ◌*◌, String, Bool, true, false, not, Option, none, some, List, [], ◌∷◌, ◌++◌,
  ◌&&◌, ◌==◌, is_some, is_empty, get_or, string_key, list_key, if◌then◌else◌, leb, ltb, length, all,
  select,
}
use living_api_contract_guar.Common.Sets.{elem, sorted}
use living_api_contract_guar.Common.Dict.{Dict, get, put, keys}
use living_api_contract_guar.Common.Text.{◌<>◌}
use living_api_contract_guar.Json.Value.{
  Value, null, boolean, int, frac, str, arr, obj, Items, no_item, item, Fields, end, field, entries,
  items, object, texts, as_dict, as_list, as_str, get_value, is_dict, is_null, fields_of,
}
use living_api_contract_guar.Diff.Raising.{◌>>=◌}
use living_api_contract_guar.Traffic.Branches.{
  append_type, append_types, as_array, as_object, branch_types, collapse, collapse_both,
  collapse_list, cons_field, cons_item, is_type_only, merge_anyof_branches, merge_below, merge_each,
  merge_elements, merge_items, merge_properties, put_type, type_value, types_of, without,
}

abbrev pub enum_cardinality_threshold : ℕ
enum_cardinality_threshold = 8

-- `_json_type_of`
unfoldable pub json_type_of : Value → String
json_type_of null = "null"
json_type_of (boolean b) = "boolean"
json_type_of (int n) = "integer"
json_type_of (frac s) = "number"
json_type_of (str s) = "string"
json_type_of (arr vs) = "array"
json_type_of (obj fs) = "object"

-- `walk_field_paths`
unfoldable mutual
  unfolding json_type_of

  pub walk_field_paths : Value → String → List (String × String)
  walk_field_paths (obj fs) prefix = (prefix, json_type_of (obj fs)) ∷ walk_fields fs prefix
  walk_field_paths (arr vs) prefix =
      (prefix, json_type_of (arr vs)) ∷ walk_items vs (prefix <> "[*]")
  walk_field_paths v prefix = (prefix, json_type_of v) ∷ []

  pub walk_fields : Fields → String → List (String × String)
  walk_fields end prefix = []
  walk_fields (field k v fs) prefix =
      walk_field_paths v (prefix <> "." <> k) ++ walk_fields fs prefix

  pub walk_items : Items → String → List (String × String)
  walk_items no_item path = []
  walk_items (item v vs) path = walk_field_paths v path ++ walk_items vs path

-- A path is a tuple of keys. `string_value_index` and `string_total_seen`:
pub record Seen : Type 0 where
  pub index : Dict (List String) (List String)
  pub totals : Dict (List String) ℕ

-- `set.add`
abbrev pub add_to : String → List String → List String
add_to s values = if elem s values then values else values ++ (s ∷ [])

unfoldable pub saw_string : String → List String → Seen → Seen
unfolding get put elem
saw_string s path seen = record {
  index = put path (add_to s (get_or (get path seen.index) [])) seen.index;
  totals = put path (get_or (get path seen.totals) 0 + 1) seen.totals;
}

-- `_index_string_values`
unfoldable mutual
  unfolding saw_string

  pub index_string_values : Value → List String → Seen → Seen
  index_string_values (str s) path seen = saw_string s path seen
  index_string_values (obj fs) path seen = index_fields fs path seen
  index_string_values (arr vs) path seen = index_items vs (path ++ ("[]" ∷ [])) seen
  index_string_values v path seen = seen

  pub index_fields : Fields → List String → Seen → Seen
  index_fields end path seen = seen
  index_fields (field k v fs) path seen =
      index_fields fs path (index_string_values v (path ++ (k ∷ [])) seen)

  pub index_items : Items → List String → Seen → Seen
  index_items no_item path seen = seen
  index_items (item v vs) path seen = index_items vs path (index_string_values v path seen)

abbrev pub is_string_type : Value → Bool
is_string_type (str t) = t == "string"
is_string_type _ = false

abbrev pub put_enum : Option (List String) → ℕ → Dict String Value → Dict String Value
put_enum none seen_total node = node
put_enum (some values) seen_total node =
    if ltb 1 (length values)
      && leb (length values) enum_cardinality_threshold
      && leb (length values * 2) seen_total
    then put "enum" (texts (sorted values)) node
    else node

module _ (seen : Seen) where
  -- The branch of `_recur` for strings.
  unfoldable pub annotate : List String → Dict String Value → Dict String Value
  unfolding get_value get put sorted
  annotate path node =
      if is_string_type (get_value "type" node)
      then put_enum (get path seen.index) (get_or (get path seen.totals) 0) node
      else node

  -- `_recur`, likewise
  unfoldable mutual
    unfolding annotate entries

    pub annotate_node : Value → List String → Value
    annotate_node (obj fs) path = object (annotate path (entries (annotate_below fs path)))
    annotate_node v path = v

    pub annotate_below : Fields → List String → Fields
    annotate_below end path = end
    annotate_below (field k v fs) path =
        let in_properties = annotate_properties v path in
        let in_items = annotate_node v (path ++ ("[]" ∷ [])) in
        let rest = annotate_below fs path in
        field k (if k == "properties" then in_properties else if k == "items" then in_items else v)
          rest

    pub annotate_properties : Value → List String → Value
    annotate_properties (obj fs) path = obj (annotate_each fs path)
    annotate_properties v path = v

    pub annotate_each : Fields → List String → Fields
    annotate_each end path = end
    annotate_each (field k v fs) path =
        let annotated = annotate_node v (path ++ (k ∷ [])) in
        field k (if is_dict v then annotated else obj end) (annotate_each fs path)

-- `_detect_enums`
unfoldable pub detect_enums : Value → Seen → Value
unfolding annotate_node
detect_enums schema seen = annotate_node seen schema []

-- The loop over the samples that are not None.
unfoldable pub index_samples : List Value → Seen → Seen
unfolding index_string_values
index_samples [] seen = seen
index_samples (v ∷ vs) seen = index_samples vs (index_string_values v [] seen)

abbrev pub nothing_seen : Seen
nothing_seen = record { index = []; totals = [] }

module _ (genson : List Value → Value) where
  -- `infer_schema`
  unfoldable pub infer_schema : List Value → Option Value
  unfolding is_null merge_anyof_branches detect_enums index_samples as_dict
  infer_schema samples =
      let given = select (λ v. not (is_null v)) samples in
      if is_empty given then some (obj end) else do
        schema ← merge_anyof_branches (genson given)
        some (
            object (
              without "$schema" (as_dict (detect_enums schema (index_samples given nothing_seen)))))
