-- ===== src/Traffic/Merge/Closed.antt =====
-- `merge_json_schemas` on schemas, call by call.
use living_api_contract_guar.Common.{
  ℕ, zero, suc, ◌<◌, ◌≤◌, String, Bool, true, false, Option, none, some, List, [], ◌∷◌, ◌≡◌, refl,
  arith, all, ◌&&◌, string_key, get_or, if◌then◌else◌,
}
use living_api_contract_guar.Common.Dict.{Dict, get, put, update, all-get, all-put, all-update}
use living_api_contract_guar.Json.Value.{
  Value, null, obj, str, Fields, end, field, entries, truthy, object,
}
use living_api_contract_guar.Traffic.Merge.{
  depth, depth_fields, merge_each, merge_property, merge_objects, merge_dicts, merge_step,
  merge_within, merge_json_schemas, all_keys, is_object, copied, first_truthy,
}
use living_api_contract_guar.Traffic.Merge.Enough.{depth_of_property}
use living_api_contract_guar.Traffic.Merge.Schemas.{
  is_schema, is_schema_dict, keyword_entry, schema_entry, keywords-entries, keywords-fields_of,
  schemas-fields_of, properties-schemas, with_required-keywords,
}

first_truthy-schema :
    (a b : Option Value)
    → ((v : Value) → a ≡ some v → is_schema v ≡ true)
    → ((v : Value) → b ≡ some v → is_schema v ≡ true)
    → is_schema (first_truthy (get_or a null) (get_or b null)) ≡ true
unfolding is_schema truthy
first_truthy-schema none none h q = refl
first_truthy-schema none (some w) h q = ground (arith, q w refl)
first_truthy-schema (some v) none h q = ground (arith, h v refl)
first_truthy-schema (some v) (some w) h q = ground (arith, h v refl, q w refl)

object_of_schemas :
    (d : Dict String Value) → all schema_entry d ≡ true → is_schema_dict (object d) ≡ true
unfolding is_schema
object_of_schemas d h = rw (schemas-fields_of d) h

-- A result that is a schema.
GivesSchema : Option Value → Type 0
GivesSchema o = (m : Value) × (o ≡ some m) × (is_schema m ≡ true)

module _ (f : Value → Value → Option Value) (n : ℕ) where
  -- The calls for less deep schemas give schemas.
  GivesBelow : Type 0
  GivesBelow =
      (v w : Value) → depth v < n → is_schema v ≡ true → is_schema w ≡ true → GivesSchema (f v w)

  merge_property-schema :
      (a b : Option Value)
      → GivesBelow
      → ((v : Value) → a ≡ some v → (is_schema v ≡ true) × (depth v < n))
      → ((v : Value) → b ≡ some v → is_schema v ≡ true)
      → GivesSchema (merge_property f a b)
  unfolding GivesBelow GivesSchema
  merge_property-schema (some v) (some w) g h q = g v w (h v refl).1 (h v refl).0 (q w refl)
  merge_property-schema none b g h q = (_, refl, first_truthy-schema none b (λ v r. (h v r).0) q)
  merge_property-schema (some v) none g h q =
      (_, refl, first_truthy-schema (some v) none (λ v r. (h v r).0) q)

  merge_each-schemas :
      (e i : Dict String Value)
      → GivesBelow
      → ((k : String) (v : Value) → get k e ≡ some v → (is_schema v ≡ true) × (depth v < n))
      → ((k : String) (v : Value) → get k i ≡ some v → is_schema v ≡ true)
      → (ks : List String)
      → (d : Dict String Value) × (merge_each f e i ks ≡ some d) × (all schema_entry d ≡ true)
  unfolding merge_each GivesSchema
  merge_each-schemas e i g h q [] = ([], refl, refl)
  merge_each-schemas e i g h q (k ∷ ks) =
      let head = merge_property-schema (get k e) (get k i) g (h k) (q k) in
      let rest = merge_each-schemas e i g h q ks in
      ((k, head.0) ∷ rest.0, rw (head.1, rest.1) refl, ground (arith, head.2, rest.2))

  merge_objects-keywords :
      (fs : Fields) (i : Dict String Value)
      → GivesBelow
      → depth_fields fs ≤ n
      → all keyword_entry (entries fs) ≡ true
      → all keyword_entry i ≡ true
      → (d : Dict String Value) × (merge_objects f (entries fs) i ≡ some d)
        × (all keyword_entry d ≡ true)
  unfolding merge_objects
  merge_objects-keywords fs i g less h q =
      let e_props = properties-schemas (entries fs) h in
      let i_props = properties-schemas i q in
      let merged =
        merge_each-schemas e_props.0 i_props.0 g
          (λ k v r. (
            all-get schema_entry k e_props.0 v e_props.2 r,
            omega (arith, depth_of_property fs e_props.0 k v e_props.1 r),
          ))
          (λ k v r. all-get schema_entry k i_props.0 v i_props.2 r)
          (all_keys f e_props.0 i_props.0) in
      let typed = all-put keyword_entry "type" (str "object") (entries fs) h refl in
      let filled =
        all-put keyword_entry "properties" (object merged.0)
          (put "type" (str "object") (entries fs)) typed (object_of_schemas merged.0 merged.2) in
      let result =
        with_required-keywords (entries fs) i
          (put "properties" (object merged.0) (put "type" (str "object") (entries fs))) h q
          filled in
      (result.0, rw (e_props.1, i_props.1, merged.1) result.1, result.2)

  keywords_by :
      (b : Bool) (o : Option (Dict String Value)) (e i : Dict String Value)
      → (d : Dict String Value) × (o ≡ some d) × (all keyword_entry d ≡ true)
      → all keyword_entry e ≡ true
      → all keyword_entry i ≡ true
      → (d : Dict String Value) × ((if b then o else some (update e i)) ≡ some d)
        × (all keyword_entry d ≡ true)
  keywords_by true o e i r h q = r
  keywords_by false o e i r h q = (update e i, refl, all-update keyword_entry i e h q)

  merge_dicts-keywords :
      (fs : Fields) (i : Dict String Value)
      → GivesBelow
      → depth_fields fs ≤ n
      → all keyword_entry (entries fs) ≡ true
      → all keyword_entry i ≡ true
      → (d : Dict String Value) × (merge_dicts f (entries fs) i ≡ some d)
        × (all keyword_entry d ≡ true)
  unfolding merge_dicts
  merge_dicts-keywords fs i g less h q =
      keywords_by (is_object (entries fs) && is_object i) _ (entries fs) i
        (merge_objects-keywords fs i g less h q) h q

  merge_step-schema :
      (e i : Value)
      → GivesBelow
      → depth e ≤ suc n
      → is_schema e ≡ true
      → is_schema i ≡ true
      → GivesSchema (merge_step f e i)
  unfolding merge_step GivesSchema copied truthy is_schema depth
  merge_step-schema (obj end) (obj gs) g less h q = (obj gs, refl, q)
  merge_step-schema (obj (field k v fs)) (obj end) g less h q = (obj (field k v fs), refl, h)
  merge_step-schema (obj (field k v fs)) (obj (field j w gs)) g less h q =
      let result =
        merge_dicts-keywords (field k v fs) (entries (field j w gs)) g (omega arith)
          (rw (← keywords-entries (field k v fs)) h) (rw (← keywords-entries (field j w gs)) q) in
      (object result.0, rw result.1 refl, rw (keywords-fields_of result.0) result.2)
  merge_step-schema e i g less h q = absurd cc

merge_within-schema :
    (n : ℕ) (e i : Value)
    → depth e < n
    → is_schema e ≡ true
    → is_schema i ≡ true
    → GivesSchema (merge_within n e i)
unfolding merge_within GivesBelow
merge_within-schema zero e i less h q = absurd (omega arith)
merge_within-schema (suc n) e i less h q =
    merge_step-schema (merge_within n) n e i (λ v w r s t. merge_within-schema n v w r s t)
      (omega arith) h q

-- `merge_json_schemas` raises nothing on two schemas, and its result is a schema.
pub merge_json_schemas-schema :
    (existing incoming : Value)
    → is_schema existing ≡ true
    → is_schema incoming ≡ true
    → (merged : Value) × (merge_json_schemas existing incoming ≡ some merged)
      × (is_schema merged ≡ true)
unfolding merge_json_schemas GivesSchema
merge_json_schemas-schema existing incoming h q =
    merge_within-schema (suc (depth existing)) existing incoming (omega arith) h q
