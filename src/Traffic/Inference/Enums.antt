-- ===== src/Traffic/Inference/Enums.antt =====
-- The `enum` keywords of an inferred schema.
use living_api_contract_guar.Common.{
  ℕ, suc, String, Bool, true, false, not, Option, none, some, List, [], ◌∷◌, ◌&&◌, ◌≡◌, refl, arith,
  ◌==◌, is_empty, string_key, list_key, if◌then◌else◌, leb, and_left, and_right, and_both, all,
}
use living_api_contract_guar.Common.Dict.{Dict, put, all-put}
use living_api_contract_guar.Json.Value.{
  Value, str, arr, obj, Items, no_item, item, Fields, end, field, entries, object, as_list,
  get_value, fields_of,
}
use living_api_contract_guar.Diff.Raising.{bind-some}
use living_api_contract_guar.Traffic.Branches.{
  type_value, without, put_type, collapse_list, collapse, collapse_both, merge_anyof_branches,
  merge_below, merge_properties, merge_each, merge_items, merge_elements, is_type_only,
  branch_types,
}
use living_api_contract_guar.Traffic.Inference.{enum_cardinality_threshold}

abbrev pub text_count : Items → Option ℕ
text_count no_item = some 0
text_count (item (str s) vs) = elim (text_count vs) [ none ↦ none | some n ↦ some (suc n) ]
text_count (item v vs) = none

abbrev pub count_of : Value → Option ℕ
count_of (arr vs) = text_count vs
count_of _ = none

abbrev pub in_range : Option ℕ → Bool
in_range none = false
in_range (some n) = leb 2 n && leb n enum_cardinality_threshold

-- A list of two to eight texts.
unfoldable pub is_small_enum : Value → Bool
is_small_enum v = in_range (count_of v)

module _ (is_enum : Value → Bool) where
  abbrev pub enum_test : Bool → Bool → Bool → Bool → Bool → Value → Bool
  enum_test is_properties is_items is_enum_key in_properties in_items v =
      if is_properties
      then in_properties
      else if is_items
      then in_items
      else if is_enum_key
      then is_enum v
      else true

  -- Every keyword `enum` in the schema, those in the properties and in an `items` dict included, passes.
  unfoldable mutual
    pub enums : Value → Bool
    enums (obj fs) = enum_fields fs
    enums _ = true

    pub enum_fields : Fields → Bool
    enum_fields end = true
    enum_fields (field k v fs) =
        enum_test (k == "properties") (k == "items") (k == "enum") (enum_properties v)
          (enum_items v) v
        && enum_fields fs

    pub enum_properties : Value → Bool
    enum_properties (obj fs) = enum_each fs
    enum_properties _ = true

    pub enum_each : Fields → Bool
    enum_each end = true
    enum_each (field k v fs) = enums v && enum_each fs

    pub enum_items : Value → Bool
    enum_items (obj fs) = enum_fields fs
    enum_items _ = true

  abbrev pub enum_entry : String × Value → Bool
  enum_entry p =
      enum_test (p.0 == "properties") (p.0 == "items") (p.0 == "enum") (enum_properties p.1)
        (enum_items p.1) p.1

  pub enum_fields-entries : (fs : Fields) → enum_fields fs ≡ all enum_entry (entries fs)
  unfolding enums entries
  enum_fields-entries end = refl
  enum_fields-entries (field k v fs) = rw (enum_fields-entries fs)

  pub enum_fields-fields_of : (d : Dict String Value) → enum_fields (fields_of d) ≡ all enum_entry d
  unfolding enums fields_of
  enum_fields-fields_of [] = refl
  enum_fields-fields_of ((k, v) ∷ d) = rw (enum_fields-fields_of d)

  pub all-without :
      (key : String) (d : Dict String Value)
      → all enum_entry d ≡ true
      → all enum_entry (without key d) ≡ true
  all-without key [] h = refl
  all-without key (p ∷ d) h = ground (arith, all-without key d)

  put_type-enums :
      (key : String) (d e : Dict String Value) (o : Option Value)
      → all enum_entry d ≡ true
      → put_type key d o ≡ some e
      → all enum_entry e ≡ true
  put_type-enums key d e none h q = absurd cc
  put_type-enums key d e (some t) h q =
      let same : put "type" t (without key d) ≡ e = cc in
      rw (← same) (all-put enum_entry "type" t (without key d) (all-without key d h) refl)

  collapse_by-enums :
      (b : Bool) (o : Option (Dict String Value)) (d e : Dict String Value)
      → all enum_entry d ≡ true
      → (if b then o else some d) ≡ some e
      → (o ≡ some e → all enum_entry e ≡ true)
      → all enum_entry e ≡ true
  collapse_by-enums true o d e h q r = r q
  collapse_by-enums false o d e h q r = let same : d ≡ e = cc in rw (← same) h

  collapse_list-enums :
      (key : String) (d e : Dict String Value) (o : Option (List Value))
      → all enum_entry d ≡ true
      → collapse_list key d o ≡ some e
      → all enum_entry e ≡ true
  collapse_list-enums key d e none h q = let same : d ≡ e = cc in rw (← same) h
  collapse_list-enums key d e (some branches) h q =
      collapse_by-enums (not (is_empty branches) && all is_type_only branches)
        (put_type key d (type_value (branch_types [] branches))) d e h q
        (put_type-enums key d e (type_value (branch_types [] branches)) h)

  collapse-enums :
      (key : String) (d e : Dict String Value)
      → all enum_entry d ≡ true
      → collapse key d ≡ some e
      → all enum_entry e ≡ true
  unfolding collapse
  collapse-enums key d e h q = collapse_list-enums key d e (as_list (get_value key d)) h q

  collapse_both-enums :
      (o : Option Fields) (v : Value)
      → ((fs : Fields) → o ≡ some fs → enum_fields fs ≡ true)
      → collapse_both o ≡ some v
      → enums v ≡ true
  unfolding collapse_both enums
  collapse_both-enums none v h q = absurd cc
  collapse_both-enums (some fs) v h q =
      let first = bind-some (collapse "anyOf" (entries fs)) _ v q in
      let second = bind-some (collapse "oneOf" first.0) _ v first.2 in
      let same : object second.0 ≡ v = cc (second.2) in
      let start : all enum_entry (entries fs) ≡ true = rw (← enum_fields-entries fs) (h fs refl) in
      let middle = collapse-enums "anyOf" (entries fs) first.0 start first.1 in
      let last = collapse-enums "oneOf" first.0 second.0 middle second.1 in
      rw (← same, enum_fields-fields_of second.0) last

  items_of_schema : (v : Value) → enums v ≡ true → enum_items v ≡ true
  unfolding enums
  items_of_schema (obj fs) h = h
  items_of_schema v h = refl

  -- What is kept when a field's value changes under the keys that the recursion visits.
  tested :
      (b c d : Bool) (in_properties in_items : Option Value) (v w : Value)
      → (if b then in_properties else if c then in_items else some v) ≡ some w
      → enum_test b c d (enum_properties v) (enum_items v) v ≡ true
      → (in_properties ≡ some w → enum_properties v ≡ true → enum_properties w ≡ true)
      → (in_items ≡ some w → enum_items v ≡ true → enum_items w ≡ true)
      → enum_test b c d (enum_properties w) (enum_items w) w ≡ true
  tested true c d in_properties in_items v w h q r s = r h q
  tested false true d in_properties in_items v w h q r s = s h q
  tested false false d in_properties in_items v w h q r s = let same : v ≡ w = cc in rw (← same) q

  mutual
    unfolding enums merge_anyof_branches

    pub merge_anyof_branches-enums :
        (v w : Value) → merge_anyof_branches v ≡ some w → enums v ≡ true → enums w ≡ true
    merge_anyof_branches-enums (obj fs) w q h =
        collapse_both-enums (merge_below fs) w (λ gs r. merge_below-enums fs gs r h) q
    merge_anyof_branches-enums v w q h = let same : v ≡ w = cc in rw (← same) h

    merge_below-enums :
        (fs gs : Fields) → merge_below fs ≡ some gs → enum_fields fs ≡ true → enum_fields gs ≡ true
    merge_below-enums end gs q h = let same : end ≡ gs = cc in rw (← same) refl
    merge_below-enums (field k v fs) gs q h =
        let value =
          bind-some
            (if k == "properties"
              then merge_properties v
              else if k == "items"
              then merge_items v
              else some v)
            _ gs q in
        let rest = bind-some (merge_below fs) _ gs value.2 in
        let same : field k value.0 rest.0 ≡ gs = cc (rest.2) in
        let head =
          tested (k == "properties") (k == "items") (k == "enum") (merge_properties v)
            (merge_items v) v value.0 value.1 (ground arith) (merge_properties-enums v value.0)
            (merge_items-enums v value.0) in
        let tail = merge_below-enums fs rest.0 rest.1 (ground arith) in
        rw (← same) (ground (arith, head, tail))

    merge_properties-enums :
        (v w : Value)
        → merge_properties v ≡ some w
        → enum_properties v ≡ true
        → enum_properties w ≡ true
    merge_properties-enums (obj fs) w q h =
        let found = bind-some (merge_each fs) _ w q in
        let same : obj found.0 ≡ w = cc (found.2) in
        rw (← same) (merge_each-enums fs found.0 found.1 h)
    merge_properties-enums v w q h = let same : v ≡ w = cc in rw (← same) h

    merge_each-enums :
        (fs gs : Fields) → merge_each fs ≡ some gs → enum_each fs ≡ true → enum_each gs ≡ true
    merge_each-enums end gs q h = let same : end ≡ gs = cc in rw (← same) refl
    merge_each-enums (field k v fs) gs q h =
        let value = bind-some (merge_anyof_branches v) _ gs q in
        let rest = bind-some (merge_each fs) _ gs value.2 in
        let same : field k value.0 rest.0 ≡ gs = cc (rest.2) in
        let head =
          merge_anyof_branches-enums v value.0 value.1 (and_left (enums v) (enum_each fs) h) in
        let tail = merge_each-enums fs rest.0 rest.1 (and_right (enums v) (enum_each fs) h) in
        rw (← same) (and_both (enums value.0) (enum_each rest.0) head tail)

    merge_items-enums :
        (v w : Value) → merge_items v ≡ some w → enum_items v ≡ true → enum_items w ≡ true
    merge_items-enums (obj fs) w q h =
        let kept = collapse_both-enums (merge_below fs) w (λ gs r. merge_below-enums fs gs r h) q in
        items_of_schema w kept
    merge_items-enums (arr vs) w q h =
        let found = bind-some (merge_elements vs) _ w q in
        let same : arr found.0 ≡ w = cc (found.2) in rw (← same) refl
    merge_items-enums v w q h = let same : v ≡ w = cc in rw (← same) h
