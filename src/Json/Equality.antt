-- ===== src/Json/Equality.antt =====
-- `==` on decoded JSON: True is 1, and dicts are compared whatever the order of their keys. A
-- repeated key, which a dict cannot hold, is skipped.
use living_api_contract_guar.Common.{
  ℕ, String, Bool, true, false, ◌&&◌, ◌||◌, Option, none, some, List, [], ◌∷◌, ◌≡◌, refl, arith,
  length, ◌==◌, nat_key, string_key, beq_refl,
}
use living_api_contract_guar.Common.Int.{ℤ, pos, negsuc, int_beq}
use living_api_contract_guar.Common.Dict.{Dict, get, keys}
use living_api_contract_guar.Common.Sets.{elem, set_of}
use living_api_contract_guar.Json.Value.{
  Value, null, boolean, int, frac, str, arr, obj, Items, no_item, item, Fields, end, field, entries,
  is_null,
}

abbrev bit : Bool → ℕ
bit true = 1
bit false = 0

-- The integer that a value equals, if any.
as_int : Value → Option ℤ
as_int (boolean b) = some (pos (bit b))
as_int (int n) = some n
as_int _ = none

same_int : ℤ → Option ℤ → Bool
same_int n none = false
same_int n (some m) = int_beq n m

-- How many keys a dict has.
size : Fields → ℕ
unfolding entries keys set_of
size fs = length (set_of (keys (entries fs)))

unfoldable mutual
  unfolding as_int same_int size get elem entries

  pub equal : Value → Value → Bool
  equal null w = is_null w
  equal (boolean b) w = same_int (pos (bit b)) (as_int w)
  equal (int n) w = same_int n (as_int w)
  equal (frac s) w = elim w [ frac t ↦ s == t | _ ↦ false ]
  equal (str s) w = elim w [ str t ↦ s == t | _ ↦ false ]
  equal (arr vs) w = elim w [ arr ws ↦ equal_items vs ws | _ ↦ false ]
  equal (obj fs) w = elim w [
    | obj gs ↦ size fs == size gs && equal_fields fs [] (entries gs)
    | _ ↦ false
  ]

  equal_items : Items → Items → Bool
  equal_items no_item ws = elim ws [ no_item ↦ true | item w rest ↦ false ]
  equal_items (item v vs) ws = elim ws [
    | no_item ↦ false
    | item w rest ↦ equal v w && equal_items vs rest
  ]

  -- Each key of the first dict that is not yet seen has an equal value in the second.
  equal_fields : Fields → List String → Dict String Value → Bool
  equal_fields end seen d = true
  equal_fields (field k v fs) seen d =
      (elem k seen || elim (get k d) [ none ↦ false | some w ↦ equal v w ])
      && equal_fields fs (k ∷ seen) d

int_beq_refl : (n : ℤ) → int_beq n n ≡ true
int_beq_refl (pos n) = beq_refl n
int_beq_refl (negsuc n) = beq_refl n

-- What the first dict has under a key not yet seen, the rest has too.
tail_agrees :
    (k : String) (v : Value) (rest d : Dict String Value) (seen : List String)
    → ((j : String) → elem j seen ≡ false → get j d ≡ get j ((k, v) ∷ rest))
    → (j : String) → elem j (k ∷ seen) ≡ false
    → get j d ≡ get j rest
unfolding elem get
tail_agrees k v rest d seen h j q = ground (arith, h j)

mutual
  unfolding equal elem entries get is_null

  equal_value_refl : (v : Value) → equal v v ≡ true
  equal_value_refl null = refl
  equal_value_refl (boolean b) = int_beq_refl (pos (bit b))
  equal_value_refl (int n) = int_beq_refl n
  equal_value_refl (frac s) = beq_refl s
  equal_value_refl (str s) = beq_refl s
  equal_value_refl (arr vs) = equal_items_refl vs
  equal_value_refl (obj fs) =
      rw (beq_refl (size fs)) (equal_fields_refl fs [] (entries fs) (λ k h. refl))

  equal_items_refl : (vs : Items) → equal_items vs vs ≡ true
  equal_items_refl no_item = refl
  equal_items_refl (item v vs) = rw (equal_value_refl v) (equal_items_refl vs)

  equal_fields_refl :
      (fs : Fields) (seen : List String) (d : Dict String Value)
      → ((k : String) → elem k seen ≡ false → get k d ≡ get k (entries fs))
      → equal_fields fs seen d ≡ true
  equal_fields_refl end seen d h = refl
  equal_fields_refl (field k v fs) seen d h = ground (
    arith,
    h k,
    beq_refl k,
    equal_value_refl v,
    equal_fields_refl fs (k ∷ seen) d (tail_agrees k v (entries fs) d seen h),
  )

-- Every value equals itself.
pub equal_refl : (v : Value) → equal v v ≡ true
equal_refl v = equal_value_refl v
