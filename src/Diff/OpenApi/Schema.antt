-- ===== src/Diff/OpenApi/Schema.antt =====
-- `_diff_schema` of openapi.py: the property and enum changes between two schemas.
use living_api_contract_guar.Common.{
  String, Bool, true, false, not, Option, some, List, [], ◌∷◌, ◌++◌, map, collect, ◌&&◌, ◌||◌,
  if◌then◌else◌, string_key,
}
use living_api_contract_guar.Common.Dict.{Dict, only_in, in_both}
use living_api_contract_guar.Common.Sets.{elem, sorted, difference}
use living_api_contract_guar.Common.Text.{◌<>◌}
use living_api_contract_guar.Json.Value.{
  Value, null, boolean, str, as_dict, as_list, get_value, is_null,
}
use living_api_contract_guar.Json.Equality.{equal}
use living_api_contract_guar.Diff.Models.{RawChange}
use living_api_contract_guar.Diff.Raising.{◌>>=◌}
use living_api_contract_guar.Diff.OpenApi.Reading.{required_names}

pub data Side : Type 0 where
  request_body response : Side

abbrev pub side_name : Side → String
side_name request_body = "request_body"
side_name response = "response"

abbrev is_request : Side → Bool
is_request request_body = true
is_request response = false

-- the kind of an added property
unfoldable pub added_kind : Side → Bool → String
added_kind side is_required =
    if is_required && is_request side
    then "openapi." <> side_name side <> ".property.added.required"
    else if is_request side
    then "openapi." <> side_name side <> ".property.added.optional"
    else "openapi." <> side_name side <> ".property.added"

unfoldable pub property_added : Side → String → Dict String Value → List String → String → RawChange
property_added side location after_props after_required name = record {
  kind = added_kind side (elem name after_required);
  location = location <> "/properties/" <> name;
  before = null;
  after = get_value name after_props;
  detail = ("required", boolean (elem name after_required)) ∷ [];
}

unfoldable pub property_removed :
    Side → String → Dict String Value → List String → String → RawChange
property_removed side location before_props before_required name = record {
  kind = "openapi." <> side_name side <> ".property.removed";
  location = location <> "/properties/" <> name;
  before = get_value name before_props;
  after = null;
  detail = ("was_required", boolean (elem name before_required)) ∷ [];
}

-- `before_type != after_type and (before_type is not None or after_type is not None)`
abbrev pub types_differ : Value → Value → Bool
types_differ before after =
    not (equal before after) && (not (is_null before) || not (is_null after))

unfoldable pub type_change : Side → String → Value → Value → List RawChange
type_change side location before after =
    if types_differ before after
    then record {
      kind = "openapi." <> side_name side <> ".property.type_changed";
      location = location;
      before = before;
      after = after;
      detail = [];
    }
      ∷ []
    else []

unfoldable pub required_change : Side → String → Bool → Bool → List RawChange
required_change response location was_required is_required = []
required_change request_body location true true = []
required_change request_body location false false = []
required_change request_body location false true =
    record {
      kind = "openapi.request_body.property.required.increased";
      location = location;
      before = boolean false;
      after = boolean true;
      detail = [];
    }
    ∷ []
required_change request_body location true false =
    record {
      kind = "openapi.request_body.property.required.decreased";
      location = location;
      before = boolean true;
      after = boolean false;
      detail = [];
    }
    ∷ []

unfoldable pub enum_added : String → Dict String Value → String → RawChange
enum_added location detail value = record {
  kind = "openapi.enum.value.added";
  location = location;
  before = null;
  after = str value;
  detail = detail;
}

unfoldable pub enum_removed : String → Dict String Value → String → RawChange
enum_removed location detail value = record {
  kind = "openapi.enum.value.removed";
  location = location;
  before = str value;
  after = null;
  detail = detail;
}

module _ (repr : Value → String) where
  -- The enum part of `_diff_schema` and of `_walk_components`, when both enums are lists.
  unfoldable pub enum_changes :
      String → Dict String Value → Option (List Value) → Option (List Value) → List RawChange
  enum_changes location detail (some before) (some after) =
      map (enum_added location detail) (sorted (difference (map repr after) (map repr before)))
      ++ map (enum_removed location detail) (sorted (difference (map repr before) (map repr after)))
  enum_changes location detail _ _ = []

  -- the body of the loop over the properties of both schemas
  unfoldable pub property_kept :
      Side
      → String
      → Dict String Value
      → Dict String Value
      → List String
      → List String
      → String
      → List RawChange
  property_kept side location before_props after_props before_required after_required name =
      let before_p = as_dict (get_value name before_props) in
      let after_p = as_dict (get_value name after_props) in
      let here = location <> "/properties/" <> name in
      type_change side here (get_value "type" before_p) (get_value "type" after_p)
      ++ (required_change side here (elem name before_required) (elem name after_required)
          ++ enum_changes (here <> "/enum") [] (as_list (get_value "enum" before_p))
              (as_list (get_value "enum" after_p)))

  -- the three loops of `_diff_schema`
  unfoldable pub property_changes :
      Side
      → String
      → Dict String Value
      → Dict String Value
      → List String
      → List String
      → List RawChange
  property_changes side location before_props after_props before_required after_required =
      map (property_added side location after_props after_required)
        (only_in after_props before_props)
      ++ (map (property_removed side location before_props before_required)
            (only_in before_props after_props)
          ++ collect
              (property_kept side location before_props after_props before_required after_required)
              (in_both before_props after_props))

  -- `_diff_schema`
  unfoldable pub diff_schema :
      Side → String → Dict String Value → Dict String Value → Option (List RawChange)
  diff_schema side location before after = do
    before_required ← required_names before
    after_required ← required_names after
    some (
        property_changes side location (as_dict (get_value "properties" before))
          (as_dict (get_value "properties" after)) before_required after_required)
