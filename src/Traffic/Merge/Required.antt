-- ===== src/Traffic/Merge/Required.antt =====
-- The required names in the result of `merge_json_schemas` for two objects.
use living_api_contract_guar.Common.{
  String, Bool, true, Option, none, some, List, [], ◌∷◌, ◌≡◌, refl, sym, ◌∙◌, map, ◌&&◌, string_key,
  is_some, get_or, if◌then◌else◌,
}
use living_api_contract_guar.Common.Sets.{
  set_of, sorted, intersection, elem, elem-set_of, elem-sorted,
}
use living_api_contract_guar.Common.Dict.{Dict, get, put, get-put}
use living_api_contract_guar.Json.Value.{
  Value, obj, str, get-entries-fields_of, items, items_of, Fields, entries, fields_of, get_value,
  object, texts, as_dict,
}
use living_api_contract_guar.Traffic.Merge.{
  name_set, text_list, merge_json_schemas, is_object, required_by,
}
use living_api_contract_guar.Traffic.Merge.Parts.{Parts, merge-Parts, written}
use living_api_contract_guar.Traffic.Merge.Lookup.{
  property, MergedProperty, merge_json_schemas-property,
}
use living_api_contract_guar.Diff.OpenApi.Reading.{iterate}
use living_api_contract_guar.Common.Sets.{elem-select}

-- `text_list` reads what `texts` wrote.
text_list-map : (ss : List String) → text_list (items (items_of (map str ss))) ≡ some ss
unfolding items items_of
text_list-map [] = refl
text_list-map (s ∷ ss) = rw (text_list-map ss) refl

-- Whether the schema lists the name as required, and whether it has such a list.
unfoldable pub requires : String → Value → Bool
unfolding name_set as_dict elem
requires name schema = elem name (get_or (name_set (as_dict schema)) [])

unfoldable pub has_required : Value → Bool
unfolding get as_dict
has_required schema = is_some (get "required" (as_dict schema))

elem-intersection :
    (k : String) (xs ys : List String) → elem k (intersection xs ys) ≡ (elem k xs && elem k ys)
unfolding intersection
elem-intersection k xs ys =
    let other : String → Bool = λ x. elem x ys in
    rw (elem-select other k (set_of xs), elem-set_of k xs) refl

name_set-texts :
    (names : List String) (d : Dict String Value)
    → get "required" d ≡ some (texts names)
    → name_set d ≡ some (set_of names)
unfolding name_set iterate get_value
name_set-texts names d h = rw (h, text_list-map names) refl

name_set-absent : (d : Dict String Value) → get "required" d ≡ none → name_set d ≡ some []
unfolding name_set iterate get_value set_of
name_set-absent d h = rw h refl

requires_read :
    (name : String) (names : List String) (d : Dict String Value)
    → name_set d ≡ some names
    → requires name (object d) ≡ elem name names
unfolding requires name_set get_value as_dict entries
requires_read name names d h =
    let same : name_set (entries (fields_of d)) ≡ name_set d =
      rw (get-entries-fields_of "required" d) refl in
    rw (same, h) refl

requires-texts :
    (name : String) (names : List String) (d : Dict String Value)
    → requires name (object (put "required" (texts names) d)) ≡ elem name names
requires-texts name names d =
    requires_read name (set_of names) (put "required" (texts names) d) (
      name_set-texts names (put "required" (texts names) d)
        (get-put "required" "required" (texts names) d))
    ∙ elem-set_of name names

module _ (name : String) (fs gs : Fields) (m : Value) (parts : Parts fs gs m) where
  requires-existing : requires name (obj fs) ≡ elem name parts.e_req
  unfolding requires as_dict
  requires-existing = rw parts.e_names refl

  requires-incoming : requires name (obj gs) ≡ elem name parts.i_req
  unfolding requires as_dict
  requires-incoming = rw parts.i_names refl

  -- The names that the branch for objects writes.
  abbrev result_by : Option Value → Option Value → Value
  result_by o p = object (
      written (required_by (is_some o) (is_some p) parts.e_req parts.i_req) parts.props
        (put "type" (str "object") (entries fs)))

  requires_by :
      (o p : Option Value)
      → get "required" (entries fs) ≡ o
      → get "required" (entries gs) ≡ p
      → requires name (result_by o p) ≡ (
          if is_some o
          then (if is_some p
              then elem name parts.e_req && elem name parts.i_req
              else elem name parts.e_req)
          else elem name parts.i_req)
  unfolding elem
  requires_by (some v) (some w) h q =
      rw
        (
          requires-texts name (sorted (intersection parts.e_req parts.i_req)) _,
          elem-sorted name (intersection parts.e_req parts.i_req),
          elem-intersection name parts.e_req parts.i_req,
        )
        refl
  requires_by (some v) none h q =
      rw (requires-texts name (sorted parts.e_req) _, elem-sorted name parts.e_req) refl
  requires_by none (some w) h q =
      rw (requires-texts name (sorted parts.i_req) _, elem-sorted name parts.i_req) refl
  requires_by none none h q =
      let empty : some [] ≡ some parts.i_req =
        sym (name_set-absent (entries gs) q) ∙ parts.i_names in
      let no_names : [] ≡ parts.i_req = cc empty in
      let base = put "type" (str "object") (entries fs) in
      let absent : get "required" (put "properties" (object parts.props) base) ≡ none =
        rw
          (
            get-put "properties" "required" (object parts.props) base,
            get-put "type" "required" (str "object") (entries fs),
          )
          h in
      rw
        (
          ← no_names,
          requires_read name [] (put "properties" (object parts.props) base)
              (name_set-absent (put "properties" (object parts.props) base) absent),
        )
        refl

-- The merged schema requires what both require when both have a list of required names, and
-- otherwise what the one with a list requires.
abbrev pub MergedRequired : String → Value → Value → Value → Type 0
MergedRequired name existing incoming m = requires name m ≡ (
    if has_required existing
    then (if has_required incoming
        then requires name existing && requires name incoming
        else requires name existing)
    else requires name incoming)

required_of_objects :
    (fs gs : Fields) (m : Value) (name : String)
    → is_object (entries fs) ≡ true
    → is_object (entries gs) ≡ true
    → merge_json_schemas (obj fs) (obj gs) ≡ some m
    → MergedRequired name (obj fs) (obj gs) m
unfolding has_required as_dict
required_of_objects fs gs m name h q r =
    let parts = merge-Parts fs gs m h q r in
    let by =
      requires_by name fs gs m parts (get "required" (entries fs)) (get "required" (entries gs))
        refl refl in
    rw (← parts.result, requires-existing name fs gs m parts, requires-incoming name fs gs m parts)
      by

-- When `merge_json_schemas` returns a schema for two object schemas, then it has, under each key of
-- the properties: the merge of the two sides' schemas when both have the key; the one side's when
-- one has it, with {} for a falsy one; nothing when neither has. And it requires a name as both do
-- when both have a list of required names, and otherwise as the one with a list does.
pub merge_json_schemas-objects :
    (fs gs : Fields) (m : Value) (key name : String)
    → is_object (entries fs) ≡ true
    → is_object (entries gs) ≡ true
    → merge_json_schemas (obj fs) (obj gs) ≡ some m
    → MergedProperty (property key (obj fs)) (property key (obj gs)) (property key m)
      × MergedRequired name (obj fs) (obj gs) m
merge_json_schemas-objects fs gs m key name h q r =
    (merge_json_schemas-property fs gs m key h q r, required_of_objects fs gs m name h q r)
