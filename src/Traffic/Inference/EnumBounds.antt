-- ===== src/Traffic/Inference/EnumBounds.antt =====
-- The sizes of the `enum` lists that `infer_schema` writes.
use living_api_contract_guar.Common.{
  ℕ, suc, ◌*◌, String, Bool, true, false, not, Option, none, some, List, [], ◌∷◌, ◌++◌, ◌&&◌, ◌≡◌,
  refl, ◌∙◌, ap, arith, map, ◌==◌, is_empty, get_or, string_key, list_key, if◌then◌else◌, leb, ltb,
  and_left, and_right, and_both, length, all, select,
}
use living_api_contract_guar.Common.Sets.{sorted, insert_sorted}
use living_api_contract_guar.Common.Dict.{Dict, get, all-put}
use living_api_contract_guar.Json.Value.{
  Value, str, obj, Fields, end, field, entries, object, texts, as_dict, is_dict, is_null, fields_of,
  items_of,
}
use living_api_contract_guar.Diff.Raising.{bind-some}
use living_api_contract_guar.Traffic.Branches.{without, merge_anyof_branches}
use living_api_contract_guar.Traffic.Inference.{
  enum_cardinality_threshold, Seen, put_enum, annotate, annotate_node, annotate_below,
  annotate_properties, annotate_each, detect_enums, index_samples, nothing_seen, infer_schema,
}
use living_api_contract_guar.Traffic.Inference.Enums.{
  text_count, is_small_enum, enum_test, enums, enum_fields, enum_properties, enum_each, enum_items,
  enum_entry, enum_fields-entries, enum_fields-fields_of, all-without, merge_anyof_branches-enums,
}

length-insert_sorted :
    (s : String) (xs : List String) → length (insert_sorted s xs) ≡ suc (length xs)
unfolding insert_sorted
length-insert_sorted s [] = refl
length-insert_sorted s (x ∷ xs) = ground (arith, length-insert_sorted s xs)

length-sorted : (xs : List String) → length (sorted xs) ≡ length xs
unfolding sorted
length-sorted [] = refl
length-sorted (x ∷ xs) = length-insert_sorted x (sorted xs) ∙ ap suc (length-sorted xs)

text_count-texts : (ss : List String) → text_count (items_of (map str ss)) ≡ some (length ss)
unfolding items_of
text_count-texts [] = refl
text_count-texts (s ∷ ss) = rw (text_count-texts ss) refl

texts-is_small_enum :
    (values : List String)
    → (ltb 1 (length values) && leb (length values) enum_cardinality_threshold) ≡ true
    → is_small_enum (texts (sorted values)) ≡ true
unfolding is_small_enum
texts-is_small_enum values h =
    rw (text_count-texts (sorted values), length-sorted values) (ground arith)

-- The two ends of a test.
put_by :
    (b c : Bool) (d e : Dict String Value)
    → (b ≡ true → all (enum_entry is_small_enum) d ≡ true)
    → all (enum_entry is_small_enum) e ≡ true
    → all (enum_entry is_small_enum) (if b && c then d else e) ≡ true
put_by true true d e h q = h refl
put_by true false d e h q = q
put_by false c d e h q = q

or_empty :
    (b : Bool) (v : Value)
    → enums is_small_enum v ≡ true
    → enums is_small_enum (if b then v else obj end) ≡ true
unfolding enums
or_empty true v h = h
or_empty false v h = refl

unfoldable pub none_allowed : Value → Bool
none_allowed v = false

module _ (seen : Seen) where
  put_enum-enums :
      (o : Option (List String)) (total : ℕ) (node : Dict String Value)
      → all (enum_entry is_small_enum) node ≡ true
      → all (enum_entry is_small_enum) (put_enum o total node) ≡ true
  put_enum-enums none total node h = h
  put_enum-enums (some values) total node h =
      put_by (ltb 1 (length values) && leb (length values) enum_cardinality_threshold)
        (leb (length values * 2) total) _ node
        (λ q.
          all-put (enum_entry is_small_enum) "enum" (texts (sorted values)) node h
            (texts-is_small_enum values q))
        h

  annotate-enums :
      (path : List String) (node : Dict String Value)
      → all (enum_entry is_small_enum) node ≡ true
      → all (enum_entry is_small_enum) (annotate seen path node) ≡ true
  unfolding annotate
  annotate-enums path node h =
      ground (arith, put_enum-enums (get path seen.index) (get_or (get path seen.totals) 0) node h)

  annotated_object :
      (fs : Fields) (path : List String)
      → enum_fields is_small_enum fs ≡ true
      → enum_fields is_small_enum (fields_of (annotate seen path (entries fs))) ≡ true
  annotated_object fs path h =
      rw (enum_fields-fields_of is_small_enum (annotate seen path (entries fs)))
        (annotate-enums path (entries fs) (rw (← enum_fields-entries is_small_enum fs) h))

  -- What holds of a field whose value the recursion replaces.
  annotated :
      (b c d : Bool) (in_properties in_items v : Value)
      → enum_test none_allowed b c d (enum_properties none_allowed v) (enum_items none_allowed v) v
        ≡ true
      → (enum_properties none_allowed v ≡ true → enum_properties is_small_enum in_properties ≡ true)
      → (enum_items none_allowed v ≡ true → enum_items is_small_enum in_items ≡ true)
      → (let w = if b then in_properties else if c then in_items else v in
          enum_test is_small_enum b c d
            (enum_properties is_small_enum w)
            (enum_items is_small_enum w)
            w)
        ≡ true
  unfolding none_allowed
  annotated true c d in_properties in_items v h q r = q h
  annotated false true d in_properties in_items v h q r = r h
  annotated false false true in_properties in_items v h q r = absurd cc
  annotated false false false in_properties in_items v h q r = refl

  mutual
    unfolding annotate_node enums

    annotate_node-enums :
        (v : Value) (path : List String)
        → enums none_allowed v ≡ true
        → enums is_small_enum (annotate_node seen v path) ≡ true
    annotate_node-enums (obj fs) path h =
        annotated_object (annotate_below seen fs path) path (annotate_below-enums fs path h)
    annotate_node-enums v path h = refl

    annotate_below-enums :
        (fs : Fields) (path : List String)
        → enum_fields none_allowed fs ≡ true
        → enum_fields is_small_enum (annotate_below seen fs path) ≡ true
    annotate_below-enums end path h = refl
    annotate_below-enums (field k v fs) path h =
        let head =
          annotated (k == "properties") (k == "items") (k == "enum")
            (annotate_properties seen v path) (annotate_node seen v (path ++ ("[]" ∷ []))) v
            (ground arith) (annotate_properties-enums v path)
            (annotate_items-enums v (path ++ ("[]" ∷ []))) in
        let tail = annotate_below-enums fs path (ground arith) in ground (arith, head, tail)

    annotate_properties-enums :
        (v : Value) (path : List String)
        → enum_properties none_allowed v ≡ true
        → enum_properties is_small_enum (annotate_properties seen v path) ≡ true
    annotate_properties-enums (obj fs) path h = annotate_each-enums fs path h
    annotate_properties-enums v path h = refl

    annotate_each-enums :
        (fs : Fields) (path : List String)
        → enum_each none_allowed fs ≡ true
        → enum_each is_small_enum (annotate_each seen fs path) ≡ true
    annotate_each-enums end path h = refl
    annotate_each-enums (field k v fs) path h =
        let now = enums none_allowed v in
        let later = enum_each none_allowed fs in
        let head = annotate_node-enums v (path ++ (k ∷ [])) (and_left now later h) in
        let tail = annotate_each-enums fs path (and_right now later h) in
        and_both _ _ (or_empty (is_dict v) (annotate_node seen v (path ++ (k ∷ []))) head) tail

    annotate_items-enums :
        (v : Value) (path : List String)
        → enum_items none_allowed v ≡ true
        → enum_items is_small_enum (annotate_node seen v path) ≡ true
    annotate_items-enums (obj fs) path h =
        annotated_object (annotate_below seen fs path) path (annotate_below-enums fs path h)
    annotate_items-enums v path h = refl

entries-enums :
    (is_enum : Value → Bool) (v : Value)
    → enums is_enum v ≡ true
    → enums is_enum (object (without "$schema" (as_dict v))) ≡ true
unfolding enums as_dict fields_of
entries-enums is_enum (obj fs) h =
    rw (enum_fields-fields_of is_enum (without "$schema" (entries fs)))
      (all-without is_enum "$schema" (entries fs) (rw (← enum_fields-entries is_enum fs) h))
entries-enums is_enum v h = refl

inferred_by :
    (b : Bool) (o : Option Value) (v : Value)
    → (if b then some (obj end) else o) ≡ some v
    → (o ≡ some v → enums is_small_enum v ≡ true)
    → enums is_small_enum v ≡ true
unfolding enums
inferred_by true o v h q = let same : obj end ≡ v = cc in rw (← same) refl
inferred_by false o v h q = q h

-- When genson's schema of the samples has no `enum`, each `enum` that `infer_schema` writes, at the
-- top, in the properties or in an `items` dict, is a list of two to eight texts.
pub infer_schema-enums :
    (genson : List Value → Value) (samples : List Value) (schema : Value)
    → enums none_allowed (genson (select (λ v. not (is_null v)) samples)) ≡ true
    → infer_schema genson samples ≡ some schema
    → enums is_small_enum schema ≡ true
unfolding infer_schema detect_enums
infer_schema-enums genson samples schema h q =
    let given = select (λ v. not (is_null v)) samples in
    inferred_by (is_empty given) _ schema q (λ r.
      let found = bind-some (merge_anyof_branches (genson given)) _ schema r in
      let merged = merge_anyof_branches-enums none_allowed (genson given) found.0 found.1 h in
      let seen = index_samples given nothing_seen in
      let same : object (without "$schema" (as_dict (annotate_node seen found.0 []))) ≡ schema =
        cc (found.2) in
      rw (← same) (
        entries-enums is_small_enum (annotate_node seen found.0 [])
          (annotate_node-enums seen found.0 [] merged)))
