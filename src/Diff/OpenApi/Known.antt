-- ===== src/Diff/OpenApi/Known.antt =====
-- Lists of changes of the kinds below the level of paths, one lemma for each way to build a walker.
use living_api_contract_guar.Common.{
  String, Bool, true, Option, none, some, List, [], ◌∷◌, ◌++◌, ◌≡◌, refl, arith, map, collect,
  if◌then◌else◌, string_key, pair_key, All, All-append, All-map, All-collect,
}
use living_api_contract_guar.Common.Dict.{Dict}
use living_api_contract_guar.Common.Sets.{elem}
use living_api_contract_guar.Json.Value.{Value}
use living_api_contract_guar.Diff.Models.{RawChange}
use living_api_contract_guar.Diff.Raising.{◌>>=◌, ◌then◌, yield_each}
use living_api_contract_guar.Diff.OpenApi.Operation.{unless_both_empty}

-- The kinds that the walkers below the level of paths emit.
abbrev pub item_kinds : List String
item_kinds =
    "openapi.operation.added" ∷ "openapi.operation.removed" ∷ "openapi.parameter.added.optional"
    ∷ "openapi.parameter.added.required" ∷ "openapi.parameter.removed"
    ∷ "openapi.parameter.required.increased" ∷ "openapi.parameter.required.decreased"
    ∷ "openapi.parameter.type_changed" ∷ "openapi.request_body.property.added.optional"
    ∷ "openapi.request_body.property.added.required" ∷ "openapi.request_body.property.removed"
    ∷ "openapi.request_body.property.type_changed"
    ∷ "openapi.request_body.property.required.increased"
    ∷ "openapi.request_body.property.required.decreased" ∷ "openapi.response.added"
    ∷ "openapi.response.removed" ∷ "openapi.response.property.added"
    ∷ "openapi.response.property.removed" ∷ "openapi.response.property.type_changed"
    ∷ "openapi.enum.value.added" ∷ "openapi.enum.value.removed" ∷ []

unfoldable pub known : String → Bool
unfolding elem
known kind = elem kind item_kinds

abbrev pub IsKnown : RawChange → Type 0
IsKnown change = known change.kind ≡ true

-- Every change of a list has a known kind.
pub record AllKnown (cs : List RawChange) : Type 0 where
  pub at : All IsKnown cs

pub AllKnown-nil : AllKnown []
AllKnown-nil = record { at = tt }

pub AllKnown-one : {c : RawChange} → IsKnown c → AllKnown (c ∷ [])
AllKnown-one h = record { at = (h, tt) }

pub AllKnown-append : {xs ys : List RawChange} → AllKnown xs → AllKnown ys → AllKnown (xs ++ ys)
AllKnown-append {xs} {ys} h k = record { at = All-append IsKnown xs ys h.at k.at }

module _ {B : Type 0} where
  pub AllKnown-map :
      (f : B → RawChange) (xs : List B) → ((b : B) → IsKnown (f b)) → AllKnown (map f xs)
  AllKnown-map f xs h = record { at = All-map IsKnown f xs h }

  pub AllKnown-collect :
      (f : B → List RawChange) (xs : List B) → ((b : B) → AllKnown (f b)) → AllKnown (collect f xs)
  AllKnown-collect f xs h = record { at = All-collect IsKnown f xs (λ b. (h b).at) }

-- Unless it raises, a walker yields changes of known kinds only.
pub record Yields (m : Option (List RawChange)) : Type 0 where
  pub result : (cs : List RawChange) → m ≡ some cs → AllKnown cs

pub Yields-some : {cs : List RawChange} → AllKnown cs → Yields (some cs)
Yields-some {cs} h = record { result = λ ds e. record { at = ground (arith, h.at) } }

pub Yields-none : Yields none
Yields-none = record { result = λ ds e. cc }

pub Yields-bind :
    {A : Type 0} (m : Option A) (f : A → Option (List RawChange))
    → ((a : A) → Yields (f a))
    → Yields (m >>= f)
Yields-bind none f h = Yields-none
Yields-bind (some a) f h = h a

pub Yields-then : (m n : Option (List RawChange)) → Yields m → Yields n → Yields (m then n)
Yields-then none n h k = Yields-none
Yields-then (some xs) none h k = Yields-none
Yields-then (some xs) (some ys) h k =
    Yields-some (AllKnown-append (h.result xs refl) (k.result ys refl))

pub Yields-yield_each :
    (f : String → Option (List RawChange)) (xs : List String)
    → ((x : String) → Yields (f x))
    → Yields (yield_each f xs)
unfolding yield_each
Yields-yield_each f [] h = Yields-some AllKnown-nil
Yields-yield_each f (x ∷ xs) h =
    Yields-then (f x) (yield_each f xs) (h x) (Yields-yield_each f xs h)

-- The three loops of a walker over two dicts.
pub Yields-loops :
    {B : Type 0} (f g : B → RawChange) (h : String → Option (List RawChange)) (xs ys : List B)
    (zs : List String)
    → ((b : B) → IsKnown (f b))
    → ((b : B) → IsKnown (g b))
    → ((z : String) → Yields (h z))
    → Yields (some (map f xs) then some (map g ys) then yield_each h zs)
Yields-loops f g h xs ys zs p q r =
    Yields-then (some (map f xs)) (some (map g ys) then yield_each h zs)
      (Yields-some (AllKnown-map f xs p))
      (Yields-then (some (map g ys)) (yield_each h zs) (Yields-some (AllKnown-map g ys q))
        (Yields-yield_each h zs r))

pub Yields-unless_both_empty :
    (before after : Dict String Value) (m : Option (List RawChange))
    → Yields m
    → Yields (unless_both_empty before after m)
Yields-unless_both_empty [] [] m h = Yields-some AllKnown-nil
Yields-unless_both_empty [] (e ∷ after) m h = h
Yields-unless_both_empty (e ∷ before) after m h = h
