-- ===== src/Traffic/Defacto/Round.antt =====
-- What one round of the loop of `build_defacto_contract` keeps of a path.
use text.Mathlib.TextEquality.{eq_iff}
use living_api_contract_guar.Common.{
  String, Bool, true, false, Option, none, some, List, ◌&&◌, ◌||◌, ◌==◌, ◌≡◌, refl, string_key,
  is_some, get_or, any, if◌then◌else◌,
}
use living_api_contract_guar.Common.Dict.{Dict, get, put, get-put}
use living_api_contract_guar.Common.Sets.{elem}
use living_api_contract_guar.Common.Text.{lower}
use living_api_contract_guar.Json.Value.{
  Value, null, str, object, as_dict, get_value, get-entries-fields_of,
}
use living_api_contract_guar.Diff.Raising.{bind-some}
use living_api_contract_guar.Traffic.Defacto.{
  ObservedSummary, set_default, splice_request, splice_response, telemetry, mark_source,
  add_observed,
}

-- `document["paths"][path][key]`
unfoldable pub entry_at : String → String → Dict String Value → Option Value
unfolding get get_value as_dict
entry_at path key paths = get key (as_dict (get_value path paths))

-- Some observation has the path, or the path and the method.
abbrev pub observes_path : String → List ObservedSummary → Bool
observes_path path = any (λ obs. obs.path_template == path)

unfoldable pub observes : String → String → List ObservedSummary → Bool
unfolding lower
observes path key = any (λ obs. (obs.path_template == path) && (lower obs.method == key))

pub get-set_default :
    (key k : String) (v : Value) (d : Dict String Value)
    → (key == k) ≡ false
    → get k (set_default key v d) ≡ get k d
get-set_default key k v d h = set_by (get key d) refl
  where
    set_by :
        (o : Option Value)
        → get key d ≡ o
        → get k (elim o [ none ↦ put key v d | some w ↦ d ]) ≡ get k d
    set_by none q = rw (get-put key k v d, h) refl
    set_by (some w) q = refl

pub get-mark_source :
    (b : Bool) (k : String) (d : Dict String Value)
    → ("x-source" == k) ≡ false
    → get k (mark_source b d) ≡ get k d
get-mark_source true k d h = rw (get-put "x-source" k (str "both") d, h) refl
get-mark_source false k d h = get-set_default "x-source" k (str "observed") d h

pub as_dict-object : (k : String) (d : Dict String Value) → get k (as_dict (object d)) ≡ get k d
unfolding as_dict
as_dict-object k d = get-entries-fields_of k d

pub path_by :
    (b : Bool) (v : Value) (o : Option Value) → is_some (if b then some v else o) ≡ (b || is_some o)
path_by true v o = refl
path_by false v o = refl

pub kept_by :
    (b c : Bool) (method key path old : String) (op : Value) (paths : Dict String Value)
    → (b ≡ true → old ≡ path)
    → ("x-source" == key) ≡ false
    → (b && (method == key)) ≡ false
    → get key (
        as_dict (
          get_or
            (if b
              then some (object (mark_source c (put method op (as_dict (get_value old paths)))))
              else get path paths)
            null))
      ≡ get key (as_dict (get_value path paths))
unfolding get_value
kept_by true c method key path old op paths same h q =
    let existing = as_dict (get_value old paths) in
    let key_of : old ≡ path = same refl in
    rw
      (
        as_dict-object key (mark_source c (put method op existing)),
        get-mark_source c key (put method op existing) h,
        get-put method key op existing,
        q,
        key_of,
      )
      refl
kept_by false c method key path old op paths same h q = refl

-- The value that one round of the loop stores for its path.
module _ (static_keys : List String) (obs : ObservedSummary) (paths next : Dict String Value) where
  pub Stored : Type 0
  Stored =
      (op : Dict String Value) × (put obs.path_template
          (object (
            mark_source (elem obs.path_template static_keys) (
              put (lower obs.method) (object (telemetry obs op))
                (as_dict (get_value obs.path_template paths)))))
          paths
        ≡ next)

  pub stored : add_observed static_keys obs paths ≡ some next → Stored
  unfolding add_observed Stored
  stored h =
      let first =
        bind-some
          (splice_request obs.request_schema
            (as_dict (get_value (lower obs.method) (as_dict (get_value obs.path_template paths)))))
          _ next h in
      let second = bind-some (splice_response obs.response_schema first.0) _ next first.2 in
      (second.0, cc (second.2))

  module _ (path key : String) (h : add_observed static_keys obs paths ≡ some next) where
    pub add_observed-path :
        is_some (get path next) ≡ ((obs.path_template == path) || is_some (get path paths))
    unfolding Stored
    add_observed-path =
        let result = stored h in
        rw (← result.1, get-put obs.path_template path _ paths)
          (path_by (obs.path_template == path) _ (get path paths))

    pub add_observed-keeps :
        ("x-source" == key) ≡ false
        → ((obs.path_template == path) && (lower obs.method == key)) ≡ false
        → entry_at path key next ≡ entry_at path key paths
    unfolding Stored entry_at get_value
    add_observed-keeps q r =
        let result = stored h in
        rw (← result.1, get-put obs.path_template path _ paths)
          (kept_by (obs.path_template == path) (elem obs.path_template static_keys)
            (lower obs.method) key path obs.path_template (object (telemetry obs result.0)) paths
            (eq_iff obs.path_template path).0 q r)
