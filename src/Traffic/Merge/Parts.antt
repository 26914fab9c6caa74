-- ===== src/Traffic/Merge/Parts.antt =====
-- The values that the calls of `merge_json_schemas` for two objects compute on the way.
use living_api_contract_guar.Common.{
  String, Bool, true, false, Option, none, some, List, ◌≡◌, refl, arith, ◌&&◌, string_key, is_some,
  if◌then◌else◌,
}
use living_api_contract_guar.Common.Dict.{Dict, get, put}
use living_api_contract_guar.Json.Value.{
  Value, obj, str, Fields, end, field, entries, get_value, truthy, object,
}
use living_api_contract_guar.Diff.Raising.{◌>>=◌, bind-some}
use living_api_contract_guar.Traffic.Merge.{
  depth, dict_or_empty, name_set, merge_each, merge_objects, merge_dicts, merge_step, merge_within,
  merge_json_schemas, with_required, all_keys, is_object, put_required, required_by,
}

-- The dict that the branch for objects writes.
abbrev pub written :
    Option (List String) → Dict String Value → Dict String Value → Dict String Value
written o props base = put_required o (put "properties" (object props) base)

-- What the calls made for two objects with `properties` computed.
pub record Parts (fs gs : Fields) (m : Value) : Type 0 where
  pub e_props : Dict String Value
  pub i_props : Dict String Value
  pub props : Dict String Value
  pub e_req : List String
  pub i_req : List String
  pub e_read : dict_or_empty (get_value "properties" (entries fs)) ≡ some e_props
  pub i_read : dict_or_empty (get_value "properties" (entries gs)) ≡ some i_props
  pub looped :
      merge_each
        (merge_within (depth (obj fs)))
        e_props
        i_props
        (all_keys (merge_within (depth (obj fs))) e_props i_props)
      ≡ some props
  pub e_names : name_set (entries fs) ≡ some e_req
  pub i_names : name_set (entries gs) ≡ some i_req
  pub result :
      object (
        put_required
          (required_by
            (is_some (get "required" (entries fs)))
            (is_some (get "required" (entries gs)))
            e_req
            i_req)
          (put "properties" (object props) (put "type" (str "object") (entries fs))))
      ≡ m

objects-Parts :
    (fs gs : Fields) (d : Dict String Value)
    → merge_objects (merge_within (depth (obj fs))) (entries fs) (entries gs) ≡ some d
    → Parts fs gs (object d)
unfolding merge_objects with_required
objects-Parts fs gs d h =
    let e_props = bind-some (dict_or_empty (get_value "properties" (entries fs))) _ d h in
    let i_props = bind-some (dict_or_empty (get_value "properties" (entries gs))) _ d e_props.2 in
    let props = bind-some (merge_each _ e_props.0 i_props.0 _) _ d i_props.2 in
    let e_req = bind-some (name_set (entries fs)) _ d props.2 in
    let i_req = bind-some (name_set (entries gs)) _ d e_req.2 in
    record {
      e_props = e_props.0;
      i_props = i_props.0;
      props = props.0;
      e_req = e_req.0;
      i_req = i_req.0;
      e_read = e_props.1;
      i_read = i_props.1;
      looped = props.1;
      e_names = e_req.1;
      i_names = i_req.1;
      result = cc (i_req.2);
    }

objects_of :
    (b : Bool) (o p : Option (Dict String Value)) (m : Value)
    → b ≡ true
    → (do d ← (if b then o else p); some (object d)) ≡ some m
    → (d : Dict String Value) × (o ≡ some d) × (object d ≡ m)
objects_of true none p m h q = absurd cc
objects_of true (some d) p m h q = (d, refl, cc)
objects_of false o p m h q = absurd cc

pub merge-Parts :
    (fs gs : Fields) (m : Value)
    → is_object (entries fs) ≡ true
    → is_object (entries gs) ≡ true
    → merge_json_schemas (obj fs) (obj gs) ≡ some m
    → Parts fs gs m
unfolding merge_json_schemas merge_within merge_step merge_dicts truthy is_object get_value entries
merge-Parts end gs m h q r = absurd cc
merge-Parts (field k v fs) end m h q r = absurd cc
merge-Parts (field k v fs) (field j w gs) m h q r =
    let found =
      objects_of (is_object (entries (field k v fs)) && is_object (entries (field j w gs))) _ _ m
        (ground arith) r in
    rw (← found.2) (objects-Parts (field k v fs) (field j w gs) found.0 found.1)
