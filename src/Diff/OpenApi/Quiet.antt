-- ===== src/Diff/OpenApi/Quiet.antt =====
-- Walkers that yield nothing on equal sides: sets, schemas and enums.
use living_api_contract_guar.Common.{
  String, Bool, true, false, not, Option, none, some, List, [], ◌∷◌, ◌≡◌, refl, arith, map, collect,
  if◌then◌else◌, string_key, pair_key, Key, select, beq_refl, Option-cases, inl, inr,
}
use living_api_contract_guar.Common.Dict.{Dict, keys, only_in, in_both}
use living_api_contract_guar.Common.Sets.{elem, set_of, sorted, difference, elem-set_of}
use living_api_contract_guar.Common.Text.{◌<>◌}
use living_api_contract_guar.Json.Value.{Value, as_dict, as_list, get_value}
use living_api_contract_guar.Json.Equality.{equal_refl}
use living_api_contract_guar.Diff.Models.{RawChange}
use living_api_contract_guar.Diff.Raising.{◌then◌, yield_each}
use living_api_contract_guar.Diff.OpenApi.Reading.{required_names}
use living_api_contract_guar.Diff.OpenApi.Schema.{
  Side, request_body, response, type_change, required_change, enum_changes, property_kept,
  property_changes, diff_schema,
}
use living_api_contract_guar.Diff.OpenApi.Operation.{unless_both_empty}

select_none {ℓ} :
    {A : Type ℓ} ⦃e : Key A⦄ (p : A → Bool) (xs : List A)
    → ((x : A) → elem x xs ≡ true → p x ≡ false)
    → select p xs ≡ []
unfolding elem
select_none p [] h = refl
select_none ⦃e⦄ p (x ∷ xs) h =
    ground (arith, h x, beq_refl x, select_none p xs (λ y q. h y (ground arith)))

difference_self {ℓ} : {A : Type ℓ} ⦃e : Key A⦄ (xs : List A) → difference xs xs ≡ []
unfolding difference
difference_self xs =
    select_none (λ x. not (elem x xs)) (set_of xs) (λ x q. ground (arith, elem-set_of x xs))

pub only_in_self {ℓ} : {K V : Type ℓ} ⦃e : Key K⦄ (d : Dict K V) → only_in d d ≡ []
unfolding only_in sorted
only_in_self d = rw (difference_self (keys d))

pub collect_nothing {ℓ} :
    {A B : Type ℓ} (f : A → List B) (xs : List A) → ((x : A) → f x ≡ []) → collect f xs ≡ []
collect_nothing f [] h = refl
collect_nothing f (x ∷ xs) h = rw (h x) (collect_nothing f xs h)

-- A walker that, if it raises nothing, yields nothing.
abbrev pub IsQuiet : Option (List RawChange) → Type 0
IsQuiet m = (cs : List RawChange) → m ≡ some cs → cs ≡ []

pub some-IsQuiet : (xs : List RawChange) → xs ≡ [] → IsQuiet (some xs)
some-IsQuiet xs h cs e = ground arith

pub then-IsQuiet : (m n : Option (List RawChange)) → IsQuiet m → IsQuiet n → IsQuiet (m then n)
then-IsQuiet none n h k cs e = cc
then-IsQuiet (some xs) none h k cs e = cc
then-IsQuiet (some xs) (some ys) h k cs e = ground (arith, h xs refl, k ys refl)

pub yield_each-IsQuiet :
    (f : String → Option (List RawChange)) (xs : List String)
    → ((x : String) → IsQuiet (f x))
    → IsQuiet (yield_each f xs)
unfolding yield_each
yield_each-IsQuiet f [] h cs e = cc
yield_each-IsQuiet f (x ∷ xs) h cs e =
    then-IsQuiet (f x) (yield_each f xs) (h x) (yield_each-IsQuiet f xs h) cs e

type_change_self : (side : Side) (l : String) (v : Value) → type_change side l v v ≡ []
unfolding type_change
type_change_self side l v = rw (equal_refl v)

required_change_self : (side : Side) (l : String) (b : Bool) → required_change side l b b ≡ []
unfolding required_change
required_change_self response l b = refl
required_change_self request_body l true = refl
required_change_self request_body l false = refl

module _ (repr : Value → String) where
  pub enum_changes_self :
      (l : String) (d : Dict String Value) (o : Option (List Value))
      → enum_changes repr l d o o ≡ []
  unfolding enum_changes sorted
  enum_changes_self l d none = refl
  enum_changes_self l d (some vs) = rw (difference_self (map repr vs))

  property_kept_self :
      (side : Side) (l : String) (props : Dict String Value) (required : List String)
      (name : String)
      → property_kept repr side l props props required required name ≡ []
  unfolding property_kept
  property_kept_self side l props required name = rw (
    type_change_self side (l <> "/properties/" <> name)
        (get_value "type" (as_dict (get_value name props))),
    required_change_self side (l <> "/properties/" <> name) (elem name required),
    enum_changes_self ((l <> "/properties/" <> name) <> "/enum") []
        (as_list (get_value "enum" (as_dict (get_value name props)))),
  )

  property_changes_self :
      (side : Side) (l : String) (props : Dict String Value) (required : List String)
      → property_changes repr side l props props required required ≡ []
  unfolding property_changes
  property_changes_self side l props required = rw (only_in_self props) (
      collect_nothing (property_kept repr side l props props required required)
        (in_both props props) (property_kept_self side l props required))

  pub diff_schema_self :
      (side : Side) (l : String) (schema : Dict String Value)
      → IsQuiet (diff_schema repr side l schema schema)
  unfolding diff_schema
  diff_schema_self side l schema cs e = elim (Option-cases (required_names schema)) [
    | inl n ↦ ground arith
    | inr (required, q) ↦
        ground
          (arith, property_changes_self side l (as_dict (get_value "properties" schema)) required)
  ]

  pub unless_both_empty-IsQuiet :
      (schema : Dict String Value) (m : Option (List RawChange))
      → IsQuiet m
      → IsQuiet (unless_both_empty schema schema m)
  unless_both_empty-IsQuiet [] m h cs e = cc
  unless_both_empty-IsQuiet (x ∷ schema) m h cs e = h cs e
