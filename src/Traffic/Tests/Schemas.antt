-- ===== src/Traffic/Tests/Schemas.antt =====
-- Runs of the schemas of packages/guardian_core/traffic.
use living_api_contract_guar.Common.{String, true, some, List, [], ◌∷◌, ◌≡◌, refl, string_key}
use living_api_contract_guar.Common.Dict.{Dict}
use living_api_contract_guar.Json.Value.{
  Value, str, obj, Fields, end, fields_of, object, texts, entries, items_of,
}
use living_api_contract_guar.Traffic.Merge.{merge_json_schemas, is_object, merge_within, merge_step}
use living_api_contract_guar.Traffic.Merge.Schemas.{is_schema}
use living_api_contract_guar.Traffic.Merge.Closed.{merge_json_schemas-schema}
use living_api_contract_guar.Traffic.Merge.Lookup.{property, MergedProperty}
use living_api_contract_guar.Traffic.Merge.Required.{MergedRequired, merge_json_schemas-objects}
use living_api_contract_guar.Traffic.Inference.{infer_schema}
use living_api_contract_guar.Traffic.Inference.Enums.{enums, is_small_enum}
use living_api_contract_guar.Traffic.Inference.EnumBounds.{infer_schema-enums}
use living_api_contract_guar.Traffic.Defacto.{ObservedSummary, build_defacto_contract}
use living_api_contract_guar.Traffic.Defacto.Round.{entry_at, observes}
use living_api_contract_guar.Traffic.Defacto.Kept.{paths_of, build_defacto_contract-keeps}

abbrev typed : String → Value
typed t = object (("type", str t) ∷ [])

-- Two samples of a user: the name of the second may be missing and it has an age.
abbrev first_user : Fields
first_user = fields_of (
    ("type", str "object")
    ∷ ("properties", object (("id", typed "integer") ∷ ("name", typed "string") ∷ []))
    ∷ ("required", texts ("id" ∷ "name" ∷ []))
    ∷ [])

abbrev second_user : Fields
second_user = fields_of (
    ("type", str "object")
    ∷ ("properties", object (("id", typed "string") ∷ ("age", typed "integer") ∷ []))
    ∷ ("required", texts ("id" ∷ []))
    ∷ [])

merge_json_schemas-schema_example :
    (merged : Value) × (merge_json_schemas (obj first_user) (obj second_user) ≡ some merged)
    × (is_schema merged ≡ true)
unfolding is_schema fields_of items_of
merge_json_schemas-schema_example =
    merge_json_schemas-schema (obj first_user) (obj second_user) refl refl

abbrev merged_user : Value
merged_user = merge_json_schemas-schema_example.0

merge_json_schemas-objects_example :
    MergedProperty
      (property "id" (obj first_user))
      (property "id" (obj second_user))
      (property "id" merged_user)
    × MergedRequired "name" (obj first_user) (obj second_user) merged_user
unfolding is_object entries fields_of
merge_json_schemas-objects_example =
    merge_json_schemas-objects first_user second_user merged_user "id" "name" refl refl
      merge_json_schemas-schema_example.1

-- genson's schema of four samples with two colours.
abbrev genson : List Value → Value
genson samples =
    object (("type", str "object") ∷ ("properties", object (("colour", typed "string") ∷ [])) ∷ [])

abbrev colour : String → Value
colour name = object (("colour", str name) ∷ [])

abbrev samples : List Value
samples = colour "red" ∷ colour "blue" ∷ colour "red" ∷ colour "blue" ∷ []

abbrev coloured : Value
coloured = object (
    ("type", str "object")
    ∷ (
      "properties",
      object (
          ("colour", object (("type", str "string") ∷ ("enum", texts ("blue" ∷ "red" ∷ [])) ∷ []))
          ∷ []),
    )
    ∷ [])

colour_run : infer_schema genson samples ≡ some coloured
unfolding infer_schema fields_of
colour_run = refl

infer_schema-enums_example : enums is_small_enum coloured ≡ true
unfolding enums fields_of
infer_schema-enums_example = infer_schema-enums genson samples coloured refl colour_run

abbrev spec : Dict String Value
spec =
    (
      "paths",
      object (("/users", object (("get", object (("summary", str "list") ∷ [])) ∷ [])) ∷ []),
    )
    ∷ []

abbrev observed : List ObservedSummary
observed =
    record {
      method = "POST";
      path_template = "/users";
      request_schema = obj first_user;
      response_schema = obj end;
      sample_count = 3;
      last_seen_at = "2026-05-29T12:00:00Z";
      matched = true;
    }
    ∷ []

built : (contract : Dict String Value) × (build_defacto_contract spec observed ≡ some contract)
unfolding build_defacto_contract fields_of merge_within merge_step
built = (_, refl)

build_defacto_contract-keeps_example :
    entry_at "/users" "get" (paths_of built.0) ≡ entry_at "/users" "get" (paths_of spec)
unfolding observes
build_defacto_contract-keeps_example =
    build_defacto_contract-keeps spec built.0 observed "/users" "get" built.1 refl refl
