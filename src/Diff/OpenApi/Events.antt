-- ===== src/Diff/OpenApi/Events.antt =====
-- The changes of `diff_openapi` at the level of paths.
use mathlib.Core.List.{append_assoc, append-nil}
use text.Mathlib.TextEquality.{eq_iff}
use living_api_contract_guar.Common.{
  get_or, String, false, Option, none, some, List, [], ◌∷◌, ◌++◌, ◌≡◌, refl, arith, map, ◌==◌,
  select, select-append, select-map-true, select-map-false, if◌then◌else◌, string_key, pair_key,
}
use living_api_contract_guar.Common.Dict.{Dict, get, only_in, in_both}
use living_api_contract_guar.Json.Value.{Value, null, str, texts, get_value}
use living_api_contract_guar.Diff.Models.Limits.{validated-some}
use living_api_contract_guar.Diff.Models.{RawChange}
use living_api_contract_guar.Common.Text.{◌<>◌}
use living_api_contract_guar.Diff.Raising.{◌then◌, yield_each}
use living_api_contract_guar.Diff.OpenApi.Reading.{paths}
use living_api_contract_guar.Diff.OpenApi.Paths.{
  methods_of, path_added, path_removed, path_kept, walk_paths, walk_components, walk_openapi,
  diff_openapi,
}
use living_api_contract_guar.Diff.OpenApi.Known.{
  known, AllKnown, AllKnown-append, Yields, Yields-yield_each,
}
use living_api_contract_guar.Diff.OpenApi.Rules.{path_kept-Yields, walk_components-AllKnown}

shape_of :
    (added removed : List RawChange) (m : Option (List RawChange)) (xs cs : List RawChange)
    → Yields m
    → AllKnown xs
    → ((some added then some removed then m) then some xs) ≡ some cs
    → (rest : List RawChange) × (cs ≡ added ++ (removed ++ rest)) × AllKnown rest
shape_of added removed none xs cs h k e = absurd cc
shape_of added removed (some ms) xs cs h k e =
    let q : (added ++ (removed ++ ms)) ++ xs ≡ cs = cc in
    (ms ++ xs, rw (← q) (simp append_assoc), AllKnown-append (h.result ms refl) k)

-- No change of the kinds below the level of paths has another kind.
select_other :
    (kind : String) (cs : List RawChange)
    → known kind ≡ false
    → AllKnown cs
    → select (λ c. c.kind == kind) cs ≡ []
select_other kind [] n h = refl
select_other kind (c ∷ cs) n h =
    ground (arith, h.at.0, eq_iff c.kind kind, select_other kind cs n (record { at = h.at.1 }))

module _ (repr : Value → String) (before_spec after_spec : Dict String Value) where
  -- The changes are those of the added paths, those of the removed paths, and then changes of
  -- the kinds below the level of paths.
  pub record HasShape (cs : List RawChange) : Type 0 where
    pub rest : List RawChange
    pub parts :
        cs
        ≡ map (path_added (paths after_spec)) (only_in (paths after_spec) (paths before_spec))
          ++ (map
                (path_removed (paths before_spec))
                (only_in (paths before_spec) (paths after_spec))
              ++ rest)
    pub kinds : AllKnown rest

  pub walk_openapi-HasShape :
      (cs : List RawChange) → walk_openapi repr before_spec after_spec ≡ some cs → HasShape cs
  unfolding walk_openapi walk_paths
  walk_openapi-HasShape cs e =
      let (rest, parts, kinds) =
        shape_of
          (map (path_added (paths after_spec)) (only_in (paths after_spec) (paths before_spec)))
          (map (path_removed (paths before_spec)) (only_in (paths before_spec) (paths after_spec)))
          (yield_each (path_kept repr before_spec after_spec)
            (in_both (paths before_spec) (paths after_spec)))
          (walk_components repr before_spec after_spec) cs
          (Yields-yield_each (path_kept repr before_spec after_spec)
            (in_both (paths before_spec) (paths after_spec))
            (path_kept-Yields repr before_spec after_spec))
          (walk_components-AllKnown repr before_spec after_spec) e in
      record { rest = rest; parts = parts; kinds = kinds }

  pub diff_openapi-HasShape :
      (cs : List RawChange) → diff_openapi repr before_spec after_spec ≡ some cs → HasShape cs
  unfolding diff_openapi
  diff_openapi-HasShape cs e =
      walk_openapi-HasShape cs (validated-some (walk_openapi repr before_spec after_spec) cs e)

  -- The changes of kind openapi.path.removed that `diff_openapi` returns are one for each path of
  -- the first document that the second one lacks, in sorted order, located at that path, with its
  -- item in the first document as the value before, null as the value after, and the path and the
  -- item's methods as the detail. Those of kind openapi.path.added are one for each path that only
  -- the second document has, with null before and its item in the second document after.
  pub path_events :
      (cs : List RawChange)
      → diff_openapi repr before_spec after_spec ≡ some cs
      → (select (λ c. c.kind == "openapi.path.removed") cs
          ≡ map
              (λ path. record {
                kind = "openapi.path.removed";
                location = "/paths/" <> path;
                before = get_or (get path (paths before_spec)) null;
                after = null;
                detail =
                    ("path", str path)
                    ∷ ("methods", texts (methods_of (get_or (get path (paths before_spec)) null)))
                    ∷ [];
              })
              (only_in (paths before_spec) (paths after_spec)))
        × (select (λ c. c.kind == "openapi.path.added") cs
            ≡ map
                (λ path. record {
                  kind = "openapi.path.added";
                  location = "/paths/" <> path;
                  before = null;
                  after = get_or (get path (paths after_spec)) null;
                  detail =
                      ("path", str path)
                      ∷ ("methods", texts (methods_of (get_or (get path (paths after_spec)) null)))
                      ∷ [];
                })
                (only_in (paths after_spec) (paths before_spec)))
  unfolding path_added path_removed known get_value
  path_events cs e =
      let shape = diff_openapi-HasShape cs e in
      (
        rw shape.parts (
            simp (
              select-append,
              select-map-false,
              select-map-true,
              select_other "openapi.path.removed" shape.rest refl shape.kinds,
              append-nil,
            )),
        rw shape.parts (
            simp (
              select-append,
              select-map-false,
              select-map-true,
              select_other "openapi.path.added" shape.rest refl shape.kinds,
              append-nil,
            )),
      )
