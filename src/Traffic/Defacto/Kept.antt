-- ===== src/Traffic/Defacto/Kept.antt =====
-- What `build_defacto_contract` keeps of the static document.
use living_api_contract_guar.Common.{
  String, Bool, true, false, Option, none, some, List, [], ◌∷◌, ◌||◌, ◌==◌, ◌≡◌, refl, ◌∙◌, arith,
  string_key, is_some, get_or, if◌then◌else◌,
}
use living_api_contract_guar.Common.Dict.{Dict, get, put, keys, get-put}
use living_api_contract_guar.Json.Value.{
  Value, null, str, obj, end, entries, object, as_dict, get_value, get-entries-fields_of,
}
use living_api_contract_guar.Diff.Raising.{bind-some}
use living_api_contract_guar.Traffic.Defacto.{
  ObservedSummary, set_default, mark_static, mark_all_static, add_observed, add_all_observed,
  base_of, default_info, build_defacto_contract,
}
use living_api_contract_guar.Traffic.Defacto.Round.{
  add_observed-path, add_observed-keeps, as_dict-object, entry_at, get-set_default, observes,
  observes_path,
}

module _ (static_keys : List String) (path key : String) where
  add_all_observed-path :
      (observed : List ObservedSummary) (paths final : Dict String Value)
      → add_all_observed static_keys observed paths ≡ some final
      → is_some (get path final) ≡ (is_some (get path paths) || observes_path path observed)
  unfolding add_all_observed
  add_all_observed-path [] paths final h =
      let same : paths ≡ final = cc in rw (← same) (ground arith)
  add_all_observed-path (obs ∷ observed) paths final h =
      let step = bind-some (add_observed static_keys obs paths) _ final h in
      ground (
        arith,
        add_observed-path static_keys obs paths step.0 path key step.1,
        add_all_observed-path observed step.0 final step.2,
      )

  add_all_observed-keeps :
      (observed : List ObservedSummary) (paths final : Dict String Value)
      → add_all_observed static_keys observed paths ≡ some final
      → ("x-source" == key) ≡ false
      → observes path key observed ≡ false
      → entry_at path key final ≡ entry_at path key paths
  unfolding add_all_observed observes
  add_all_observed-keeps [] paths final h q r = let same : paths ≡ final = cc in rw (← same) refl
  add_all_observed-keeps (obs ∷ observed) paths final h q r =
      let step = bind-some (add_observed static_keys obs paths) _ final h in
      add_all_observed-keeps observed step.0 final step.2 q (ground arith)
      ∙ add_observed-keeps static_keys obs paths step.0 path key step.1 q (ground arith)

  get-mark_all_static :
      (paths : Dict String Value)
      → is_some (get path (mark_all_static paths)) ≡ is_some (get path paths)
  unfolding mark_all_static get
  get-mark_all_static [] = refl
  get-mark_all_static ((p, v) ∷ paths) = ground (arith, get-mark_all_static paths)

  get-mark_static :
      (v : Value)
      → ("x-source" == key) ≡ false
      → get key (as_dict (mark_static v)) ≡ get key (as_dict v)
  unfolding as_dict
  get-mark_static (obj fs) h =
      as_dict-object key (set_default "x-source" (str "static") (entries fs))
      ∙ get-set_default "x-source" key (str "static") (entries fs) h
  get-mark_static v h = refl

  mark_all_static-keeps :
      (paths : Dict String Value)
      → ("x-source" == key) ≡ false
      → entry_at path key (mark_all_static paths) ≡ entry_at path key paths
  unfolding mark_all_static entry_at get_value get
  mark_all_static-keeps [] h = refl
  mark_all_static-keeps ((p, v) ∷ paths) h = marked_by (p == path) (mark_all_static-keeps paths h)
    where
      marked_by :
          (b : Bool)
          → get key (as_dict (get_or (get path (mark_all_static paths)) null))
            ≡ get key (as_dict (get_or (get path paths) null))
          → get key (
              as_dict (
                get_or (if b then some (mark_static v) else get path (mark_all_static paths)) null))
            ≡ get key (as_dict (get_or (if b then some v else get path paths) null))
      marked_by true rest = get-mark_static v h
      marked_by false rest = rest

paths_default :
    (d : Dict String Value)
    → as_dict (get_value "paths" (set_default "paths" (obj end) d)) ≡ as_dict (get_value "paths" d)
unfolding get_value as_dict entries
paths_default d = by (get "paths" d) refl
  where
    by :
        (o : Option Value)
        → get "paths" d ≡ o
        → as_dict
            (get_or (get "paths" (elim o [ none ↦ put "paths" (obj end) d | some v ↦ d ])) null)
          ≡ as_dict (get_or (get "paths" d) null)
    by none q = rw (get-put "paths" "paths" (obj end) d, q) refl
    by (some v) q = refl

paths-base_of :
    (static_spec : Dict String Value)
    → as_dict (get_value "paths" (base_of static_spec)) ≡ as_dict (get_value "paths" static_spec)
unfolding base_of get_value as_dict entries get
paths-base_of [] = refl
paths-base_of (entry ∷ static_spec) =
    let first = entry ∷ static_spec in
    let with_version = set_default "openapi" (str "3.0.0") first in
    paths_default (set_default "info" default_info with_version)
    ∙ rw
        (
          get-set_default "info" "paths" default_info with_version refl,
          get-set_default "openapi" "paths" (str "3.0.0") first refl,
        )
        refl

-- The paths of a document.
unfoldable pub paths_of : Dict String Value → Dict String Value
unfolding as_dict get_value
paths_of spec = as_dict (get_value "paths" spec)

entry_at-same :
    (path key : String) (d e : Dict String Value)
    → get path d ≡ get path e
    → entry_at path key d ≡ entry_at path key e
unfolding entry_at get_value
entry_at-same path key d e h = rw h refl

get-paths_of :
    (path : String) (paths base : Dict String Value)
    → get path (paths_of (put "paths" (object paths) base)) ≡ get path paths
unfolding paths_of get_value as_dict
get-paths_of path paths base =
    rw (get-put "paths" "paths" (object paths) base) (get-entries-fields_of path paths)

module _ (static_spec contract : Dict String Value) (observed : List ObservedSummary) where
  -- What the document is made of.
  Built : Type 0
  Built =
      (paths : Dict String Value) × (add_all_observed (keys (paths_of static_spec)) observed
          (paths_of static_spec)
        ≡ some paths)
      × ((path : String) → get path (paths_of contract) ≡ get path (mark_all_static paths))

  built : build_defacto_contract static_spec observed ≡ some contract → Built
  unfolding build_defacto_contract Built paths_of
  built h =
      let paths = as_dict (get_value "paths" (base_of static_spec)) in
      let found = bind-some (add_all_observed (keys paths) observed paths) _ contract h in
      let marked = mark_all_static found.0 in
      let same : put "paths" (object marked) (base_of static_spec) ≡ contract = cc (found.2) in
      (
        found.0,
        rw (← paths-base_of static_spec) found.1,
        λ path. rw (← same) (get-paths_of path marked (base_of static_spec)),
      )

  module _ (path key : String)
      (h : build_defacto_contract static_spec observed ≡ some contract) where
    -- The document has a path exactly when the static document or some observation has it.
    pub build_defacto_contract-path :
        is_some (get path (paths_of contract))
        ≡ (is_some (get path (paths_of static_spec)) || observes_path path observed)
    unfolding Built
    build_defacto_contract-path =
        let (paths, added, read) = built h in
        rw (read path, get-mark_all_static (keys (paths_of static_spec)) path key paths)
          (add_all_observed-path (keys (paths_of static_spec)) path key observed
            (paths_of static_spec) paths added)

    -- What the static document holds under a key of a path, `x-source` apart, stands unchanged in
    -- the document that `build_defacto_contract` returns, unless there is an observation of that
    -- path whose method in lower case is the key.
    pub build_defacto_contract-keeps :
        ("x-source" == key) ≡ false
        → observes path key observed ≡ false
        → entry_at path key (paths_of contract) ≡ entry_at path key (paths_of static_spec)
    unfolding Built
    build_defacto_contract-keeps q r =
        let (paths, added, read) = built h in
        entry_at-same path key (paths_of contract) (mark_all_static paths) (read path)
        ∙ mark_all_static-keeps (keys (paths_of static_spec)) path key paths q
        ∙ add_all_observed-keeps (keys (paths_of static_spec)) path key observed
            (paths_of static_spec) paths added q r
