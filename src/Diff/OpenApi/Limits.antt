-- ===== src/Diff/OpenApi/Limits.antt =====
-- The kinds of openapi.py are within the limits of RawChange.
use text.Mathlib.TextEquality.{eq_iff}
use living_api_contract_guar.Common.{
  String, Bool, true, false, some, List, [], ◌∷◌, ◌++◌, ◌≡◌, refl, arith, map, all, ◌&&◌, leb,
  string_key, All, All-append, All-map,
}
use living_api_contract_guar.Common.Sets.{elem}
use living_api_contract_guar.Common.Dict.{Dict, only_in}
use living_api_contract_guar.Common.Text.{text_length}
use living_api_contract_guar.Json.Value.{Value}
use living_api_contract_guar.Diff.Models.{RawChange, is_valid}
use living_api_contract_guar.Diff.OpenApi.Reading.{paths}
use living_api_contract_guar.Diff.OpenApi.Paths.{path_added, path_removed, walk_openapi}
use living_api_contract_guar.Diff.OpenApi.Known.{item_kinds, known, IsKnown}
use living_api_contract_guar.Diff.OpenApi.Events.{walk_openapi-HasShape}

abbrev is_kind : String → Bool
is_kind k = leb 1 (text_length k) && leb (text_length k) 128

abbrev IsKind : RawChange → Type 0
IsKind c = is_kind c.kind ≡ true

-- The location has 1 to 2048 characters.
abbrev pub is_location : RawChange → Bool
is_location c = leb 1 (text_length c.location) && leb (text_length c.location) 2048

elem-all :
    (p : String → Bool) (k : String) (ks : List String)
    → all p ks ≡ true
    → elem k ks ≡ true
    → p k ≡ true
unfolding elem
elem-all p k [] h q = absurd cc
elem-all p k (x ∷ ks) h q = ground (arith, eq_iff x k, elem-all p k ks)

known-IsKind : (cs : List RawChange) → All IsKnown cs → All IsKind cs
unfolding known
known-IsKind [] h = tt
known-IsKind (c ∷ cs) h = (elem-all is_kind c.kind item_kinds refl h.0, known-IsKind cs h.1)

valid_by : (a b : Bool) → a ≡ true → (a && b) ≡ b
valid_by true b h = refl
valid_by false b h = absurd cc

kinds-is_valid : (cs : List RawChange) → All IsKind cs → all is_valid cs ≡ all is_location cs
unfolding is_valid
kinds-is_valid [] h = refl
kinds-is_valid (c ∷ cs) h =
    rw (valid_by (is_kind c.kind) (is_location c) h.0, kinds-is_valid cs h.1) refl

-- Of the changes that the walkers build, pydantic refuses one only for its location.
pub walk_openapi-is_valid :
    (repr : Value → String) (before after : Dict String Value) (cs : List RawChange)
    → walk_openapi repr before after ≡ some cs
    → all is_valid cs ≡ all is_location cs
unfolding path_added path_removed
walk_openapi-is_valid repr before after cs e =
    let shape = walk_openapi-HasShape repr before after cs e in
    let added = map (path_added (paths after)) (only_in (paths after) (paths before)) in
    let removed = map (path_removed (paths before)) (only_in (paths before) (paths after)) in
    kinds-is_valid cs (
      rw shape.parts (
        All-append IsKind added (removed ++ shape.rest)
          (All-map IsKind (path_added (paths after)) (only_in (paths after) (paths before))
            (λ p. refl))
          (All-append IsKind removed shape.rest
            (All-map IsKind (path_removed (paths before)) (only_in (paths before) (paths after))
              (λ p. refl))
            (known-IsKind shape.rest shape.kinds.at))))
