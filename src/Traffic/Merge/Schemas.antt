-- ===== src/Traffic/Merge/Schemas.antt =====
-- What `merge_json_schemas` gives on schemas: their `properties` are a dict of schemas and their
-- `required` is a list of texts.
use living_api_contract_guar.Common.{
  String, Bool, true, false, Option, none, some, List, [], ◌∷◌, ◌≡◌, refl, all, map, ◌&&◌, ◌==◌,
  string_key, is_some, get_or, if◌then◌else◌,
}
use living_api_contract_guar.Common.Sets.{set_of}
use living_api_contract_guar.Common.Dict.{Dict, get, all-get, all-put}
use living_api_contract_guar.Json.Value.{
  Value, null, obj, str, arr, Items, item, no_item, items, items_of, Fields, end, field, entries,
  fields_of, get_value, truthy, texts,
}
use living_api_contract_guar.Diff.Raising.{◌>>=◌}
use living_api_contract_guar.Diff.OpenApi.Reading.{iterate}
use living_api_contract_guar.Traffic.Merge.{
  dict_or_empty, name_set, text_list, with_required, put_required, required_by,
}

abbrev pub are_texts : Items → Bool
are_texts no_item = true
are_texts (item (str s) vs) = are_texts vs
are_texts (item v vs) = false

abbrev pub is_name_list : Value → Bool
is_name_list (arr vs) = are_texts vs
is_name_list _ = false

abbrev keyword_test : String → Bool → Value → Bool
keyword_test k are_properties v =
    if k == "properties" then are_properties else if k == "required" then is_name_list v else true

unfoldable mutual
  pub is_schema : Value → Bool
  is_schema (obj fs) = are_keywords fs
  is_schema _ = false

  pub are_keywords : Fields → Bool
  are_keywords end = true
  are_keywords (field k v fs) = keyword_test k (is_schema_dict v) v && are_keywords fs

  pub is_schema_dict : Value → Bool
  is_schema_dict (obj fs) = are_schemas fs
  is_schema_dict _ = false

  pub are_schemas : Fields → Bool
  are_schemas end = true
  are_schemas (field k v fs) = is_schema v && are_schemas fs

abbrev pub keyword_entry : String × Value → Bool
keyword_entry p = keyword_test p.0 (is_schema_dict p.1) p.1

abbrev pub schema_entry : String × Value → Bool
schema_entry p = is_schema p.1

pub keywords-entries : (fs : Fields) → are_keywords fs ≡ all keyword_entry (entries fs)
unfolding is_schema entries
keywords-entries end = refl
keywords-entries (field k v fs) = rw (keywords-entries fs)

pub keywords-fields_of : (d : Dict String Value) → are_keywords (fields_of d) ≡ all keyword_entry d
unfolding is_schema fields_of
keywords-fields_of [] = refl
keywords-fields_of ((k, v) ∷ d) = rw (keywords-fields_of d)

pub schemas-entries : (fs : Fields) → are_schemas fs ≡ all schema_entry (entries fs)
unfolding is_schema entries
schemas-entries end = refl
schemas-entries (field k v fs) = rw (schemas-entries fs)

pub schemas-fields_of : (d : Dict String Value) → are_schemas (fields_of d) ≡ all schema_entry d
unfolding is_schema fields_of
schemas-fields_of [] = refl
schemas-fields_of ((k, v) ∷ d) = rw (schemas-fields_of d)

-- The properties of a schema.
properties_in :
    (v : Value)
    → is_schema_dict v ≡ true
    → (d : Dict String Value) × (dict_or_empty v ≡ some d) × (all schema_entry d ≡ true)
unfolding dict_or_empty is_schema
properties_in (obj fs) h = (entries fs, refl, rw (← schemas-entries fs) h)
properties_in v h = absurd cc

properties_at :
    (o : Option Value) (e : Dict String Value)
    → get "properties" e ≡ o
    → all keyword_entry e ≡ true
    → (d : Dict String Value) × (dict_or_empty (get_or o null) ≡ some d)
      × (all schema_entry d ≡ true)
unfolding dict_or_empty truthy
properties_at none e q h = ([], refl, refl)
properties_at (some v) e q h = properties_in v (all-get keyword_entry "properties" e v h q)

pub properties-schemas :
    (e : Dict String Value)
    → all keyword_entry e ≡ true
    → (d : Dict String Value) × (dict_or_empty (get_value "properties" e) ≡ some d)
      × (all schema_entry d ≡ true)
unfolding get_value
properties-schemas e h = properties_at (get "properties" e) e refl h

-- The required names of a schema.
text_list-some :
    (vs : Items) → are_texts vs ≡ true → (ss : List String) × (text_list (items vs) ≡ some ss)
unfolding items
text_list-some no_item h = ([], refl)
text_list-some (item (str s) vs) h = let rest = text_list-some vs h in (s ∷ rest.0, rw rest.1 refl)
text_list-some (item v vs) h = absurd cc

names_in :
    (v : Value)
    → is_name_list v ≡ true
    → (ns : List String) × ((do values ← iterate v; names ← text_list values; some (set_of names))
        ≡ some ns)
unfolding iterate
names_in (arr vs) h = let found = text_list-some vs h in (set_of found.0, rw found.1 refl)
names_in v h = absurd cc

names_at :
    (o : Option Value) (e : Dict String Value)
    → get "required" e ≡ o
    → all keyword_entry e ≡ true
    → (ns : List String) × ((do
      values ← iterate (get_or o null)
      names ← text_list values
      some (set_of names))
        ≡ some ns)
unfolding iterate
names_at none e q h = (set_of [], refl)
names_at (some v) e q h = names_in v (all-get keyword_entry "required" e v h q)

pub name_set-some :
    (e : Dict String Value)
    → all keyword_entry e ≡ true
    → (ns : List String) × (name_set e ≡ some ns)
unfolding name_set get_value
name_set-some e h = names_at (get "required" e) e refl h

are_texts-map : (ss : List String) → are_texts (items_of (map str ss)) ≡ true
unfolding items_of
are_texts-map [] = refl
are_texts-map (s ∷ ss) = are_texts-map ss

put_required-keywords :
    (o : Option (List String)) (d : Dict String Value)
    → all keyword_entry d ≡ true
    → all keyword_entry (put_required o d) ≡ true
put_required-keywords none d h = h
put_required-keywords (some names) d h =
    all-put keyword_entry "required" (texts names) d h (are_texts-map names)

pub with_required-keywords :
    (e i d : Dict String Value)
    → all keyword_entry e ≡ true
    → all keyword_entry i ≡ true
    → all keyword_entry d ≡ true
    → (m : Dict String Value) × (with_required e i d ≡ some m) × (all keyword_entry m ≡ true)
unfolding with_required
with_required-keywords e i d h q r =
    let e_req = name_set-some e h in
    let i_req = name_set-some i q in
    let required =
      required_by (is_some (get "required" e)) (is_some (get "required" i)) e_req.0 i_req.0 in
    (put_required required d, rw (e_req.1, i_req.1) refl, put_required-keywords required d r)
