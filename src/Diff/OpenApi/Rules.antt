-- ===== src/Diff/OpenApi/Rules.antt =====
-- The kinds that openapi.py emits below the level of paths.
use living_api_contract_guar.Common.{
  String, Bool, true, false, Option, none, some, List, [], ◌≡◌, refl, arith, string_key, pair_key,
}
use living_api_contract_guar.Common.Dict.{Dict}
use living_api_contract_guar.Json.Value.{Value}
use living_api_contract_guar.Diff.OpenApi.Reading.{required_names, params_by_key}
use living_api_contract_guar.Diff.OpenApi.Schema.{
  Side, request_body, response, added_kind, type_change, required_change, enum_changes, enum_added,
  enum_removed, property_added, property_removed, property_kept, property_changes, diff_schema,
}
use living_api_contract_guar.Diff.OpenApi.Operation.{
  Params, param_added_kind, param_required_change, param_type_change, param_added, param_removed,
  param_kept, param_changes, body_required_change, response_added, response_removed, walk_params,
  walk_body, response_kept, walk_responses, walk_operation,
}
use living_api_contract_guar.Diff.OpenApi.Paths.{
  operation_added, operation_removed, walk_path_item, path_kept, component_kept, walk_components,
}
use living_api_contract_guar.Diff.OpenApi.Known.{
  known, IsKnown, AllKnown, AllKnown-nil, AllKnown-one, AllKnown-append, AllKnown-map,
  AllKnown-collect, Yields, Yields-some, Yields-bind, Yields-then, Yields-loops,
  Yields-unless_both_empty,
}

added_kind-known : (side : Side) (b : Bool) → known (added_kind side b) ≡ true
unfolding known added_kind
added_kind-known request_body true = refl
added_kind-known request_body false = refl
added_kind-known response true = refl
added_kind-known response false = refl

property_removed-IsKnown :
    (side : Side) (l : String) (props : Dict String Value) (required : List String) (name : String)
    → IsKnown (property_removed side l props required name)
unfolding known property_removed
property_removed-IsKnown request_body l props required name = refl
property_removed-IsKnown response l props required name = refl

type_change-AllKnown : (side : Side) (l : String) (v w : Value) → AllKnown (type_change side l v w)
unfolding known type_change
type_change-AllKnown request_body l v w = record { at = ground arith }
type_change-AllKnown response l v w = record { at = ground arith }

required_change-AllKnown :
    (side : Side) (l : String) (b c : Bool) → AllKnown (required_change side l b c)
unfolding known required_change
required_change-AllKnown response l b c = AllKnown-nil
required_change-AllKnown request_body l true true = AllKnown-nil
required_change-AllKnown request_body l false false = AllKnown-nil
required_change-AllKnown request_body l false true = AllKnown-one refl
required_change-AllKnown request_body l true false = AllKnown-one refl

param_added_kind-known : (b : Bool) → known (param_added_kind b) ≡ true
unfolding known param_added_kind
param_added_kind-known true = refl
param_added_kind-known false = refl

param_added-IsKnown :
    (path method : String) (params : Params) (key : String × String)
    → IsKnown (param_added path method params key)
unfolding param_added
param_added-IsKnown path method params key = param_added_kind-known _

param_removed-IsKnown :
    (path method : String) (params : Params) (key : String × String)
    → IsKnown (param_removed path method params key)
unfolding known param_removed
param_removed-IsKnown path method params key = refl

param_required_change-AllKnown :
    (path method : String) (key : String × String) (b c : Bool)
    → AllKnown (param_required_change path method key b c)
unfolding known param_required_change
param_required_change-AllKnown path method key true true = AllKnown-nil
param_required_change-AllKnown path method key false false = AllKnown-nil
param_required_change-AllKnown path method key false true = AllKnown-one refl
param_required_change-AllKnown path method key true false = AllKnown-one refl

param_type_change-AllKnown :
    (path method : String) (key : String × String) (o p : Option String)
    → AllKnown (param_type_change path method key o p)
unfolding known param_type_change
param_type_change-AllKnown path method key o p = record { at = ground arith }

body_required_change-AllKnown :
    (path method : String) (b c : Bool) → AllKnown (body_required_change path method b c)
unfolding known body_required_change
body_required_change-AllKnown path method true true = AllKnown-nil
body_required_change-AllKnown path method false false = AllKnown-nil
body_required_change-AllKnown path method false true = AllKnown-one refl
body_required_change-AllKnown path method true false = AllKnown-one refl

module _ (repr : Value → String) where
  enum_changes-AllKnown :
      (l : String) (d : Dict String Value) (o p : Option (List Value))
      → AllKnown (enum_changes repr l d o p)
  unfolding known enum_changes enum_added enum_removed
  enum_changes-AllKnown l d none p = AllKnown-nil
  enum_changes-AllKnown l d (some vs) none = AllKnown-nil
  enum_changes-AllKnown l d (some vs) (some ws) =
      AllKnown-append (AllKnown-map (enum_added l d) _ (λ v. refl))
        (AllKnown-map (enum_removed l d) _ (λ v. refl))

  property_kept-AllKnown :
      (side : Side) (l : String) (bp ap : Dict String Value) (br ar : List String) (name : String)
      → AllKnown (property_kept repr side l bp ap br ar name)
  unfolding property_kept
  property_kept-AllKnown side l bp ap br ar name =
      AllKnown-append (type_change-AllKnown side _ _ _)
        (AllKnown-append (required_change-AllKnown side _ _ _) (enum_changes-AllKnown _ [] _ _))

  property_changes-AllKnown :
      (side : Side) (l : String) (bp ap : Dict String Value) (br ar : List String)
      → AllKnown (property_changes repr side l bp ap br ar)
  unfolding property_changes property_added
  property_changes-AllKnown side l bp ap br ar =
      AllKnown-append
        (AllKnown-map (property_added side l ap ar) _ (λ name. added_kind-known side _))
        (AllKnown-append
          (AllKnown-map (property_removed side l bp br) _ (property_removed-IsKnown side l bp br))
          (AllKnown-collect _ _ (property_kept-AllKnown side l bp ap br ar)))

  diff_schema-Yields :
      (side : Side) (l : String) (before after : Dict String Value)
      → Yields (diff_schema repr side l before after)
  unfolding diff_schema
  diff_schema-Yields side l before after = Yields-bind (required_names before) _ λ br.
      Yields-bind (required_names after) _
        λ ar. Yields-some (property_changes-AllKnown side l _ _ br ar)

param_kept-AllKnown :
    (path method : String) (bp ap : Params) (key : String × String)
    → AllKnown (param_kept path method bp ap key)
unfolding param_kept
param_kept-AllKnown path method bp ap key =
    AllKnown-append (param_required_change-AllKnown path method key _ _)
      (param_type_change-AllKnown path method key _ _)

param_changes-AllKnown :
    (path method : String) (bp ap : Params) → AllKnown (param_changes path method bp ap)
unfolding param_changes
param_changes-AllKnown path method bp ap =
    AllKnown-append
      (AllKnown-map (param_added path method ap) _ (param_added-IsKnown path method ap))
      (AllKnown-append
        (AllKnown-map (param_removed path method bp) _ (param_removed-IsKnown path method bp))
        (AllKnown-collect _ _ (param_kept-AllKnown path method bp ap)))

module _ (repr : Value → String) (before_spec after_spec : Dict String Value) (path method : String)
    (before_op after_op : Dict String Value) where
  walk_params-Yields :
      Yields (walk_params repr before_spec after_spec path method before_op after_op)
  unfolding walk_params
  walk_params-Yields = Yields-bind (params_by_key repr before_op) _ λ bp.
      Yields-bind (params_by_key repr after_op) _
        λ ap. Yields-some (param_changes-AllKnown path method bp ap)

  walk_body-Yields : Yields (walk_body repr before_spec after_spec path method before_op after_op)
  unfolding walk_body
  walk_body-Yields =
      Yields-then _ _ (Yields-unless_both_empty _ _ _ (diff_schema-Yields repr request_body _ _ _))
        (Yields-some (body_required_change-AllKnown path method _ _))

  response_kept-Yields :
      (code : String)
      → Yields (response_kept repr before_spec after_spec path method before_op after_op code)
  unfolding response_kept
  response_kept-Yields code =
      Yields-unless_both_empty _ _ _ (diff_schema-Yields repr response _ _ _)

  walk_responses-Yields :
      Yields (walk_responses repr before_spec after_spec path method before_op after_op)
  unfolding walk_responses response_added response_removed known
  walk_responses-Yields =
      Yields-loops (response_added path method _) (response_removed path method _) _ _ _ _
        (λ code. refl) (λ code. refl) response_kept-Yields

  walk_operation-Yields :
      Yields (walk_operation repr before_spec after_spec path method before_op after_op)
  unfolding walk_operation
  walk_operation-Yields =
      Yields-then _ _ walk_params-Yields (Yields-then _ _ walk_body-Yields walk_responses-Yields)

module _ (repr : Value → String) (before_spec after_spec : Dict String Value) where
  pub path_kept-Yields : (path : String) → Yields (path_kept repr before_spec after_spec path)
  unfolding path_kept walk_path_item operation_added operation_removed known
  path_kept-Yields path =
      Yields-loops (operation_added path _) (operation_removed path _) _ _ _ _ (λ m. refl)
        (λ m. refl) (λ m. walk_operation-Yields repr before_spec after_spec path m _ _)

  pub walk_components-AllKnown : AllKnown (walk_components repr before_spec after_spec)
  unfolding walk_components component_kept
  walk_components-AllKnown = AllKnown-collect _ _ (λ name. enum_changes-AllKnown repr _ _ _ _)
