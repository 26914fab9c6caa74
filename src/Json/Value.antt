-- ===== src/Json/Value.antt =====
-- Decoded JSON. `null` is Python's None, so `d.get(k)` on a dict without the key is `null`. A
-- number without a fractional part is an `int`; `frac` holds any other by its shortest text.
use living_api_contract_guar.Common.{
  zero, suc, String, Bool, true, false, not, Option, none, some, List, [], ◌∷◌, map, get_or, ◌≡◌,
  refl, ◌==◌, string_key,
}
use living_api_contract_guar.Common.Int.{ℤ, pos, negsuc}
use living_api_contract_guar.Common.Dict.{Dict, get}

mutual
  pub data Value : Type 0 where
    null : Value
    boolean : Bool → Value
    int : ℤ → Value
    frac : String → Value
    str : String → Value
    arr : Items → Value
    obj : Fields → Value

  pub data Items : Type 0 where
    no_item : Items
    item : Value → Items → Items

  pub data Fields : Type 0 where
    end : Fields
    field : String → Value → Fields → Fields

unfoldable pub items : Items → List Value
items no_item = []
items (item v vs) = v ∷ items vs

unfoldable pub items_of : List Value → Items
items_of [] = no_item
items_of (v ∷ vs) = item v (items_of vs)

unfoldable pub entries : Fields → Dict String Value
entries end = []
entries (field k v fs) = (k, v) ∷ entries fs

unfoldable pub fields_of : Dict String Value → Fields
fields_of [] = end
fields_of ((k, v) ∷ d) = field k v (fields_of d)

abbrev pub object : Dict String Value → Value
object d = obj (fields_of d)

abbrev pub texts : List String → Value
texts ss = arr (items_of (map str ss))

-- `isinstance(value, dict)`
unfoldable pub is_dict : Value → Bool
is_dict (obj fs) = true
is_dict _ = false

-- `value if isinstance(value, dict) else {}`
unfoldable pub as_dict : Value → Dict String Value
unfolding entries
as_dict (obj fs) = entries fs
as_dict _ = []

unfoldable pub as_str : Value → Option String
as_str (str s) = some s
as_str _ = none

unfoldable pub as_list : Value → Option (List Value)
unfolding items
as_list (arr vs) = some (items vs)
as_list _ = none

-- `d.get(k)`
unfoldable pub get_value : String → Dict String Value → Value
unfolding get
get_value k d = get_or (get k d) null

unfoldable pub is_null : Value → Bool
is_null null = true
is_null _ = false

-- `bool(value)`
unfoldable pub truthy : Value → Bool
truthy null = false
truthy (boolean b) = b
truthy (int (pos zero)) = false
truthy (int (pos (suc n))) = true
truthy (int (negsuc n)) = true
truthy (frac s) = true
truthy (str s) = not (s == "")
truthy (arr no_item) = false
truthy (arr (item v vs)) = true
truthy (obj end) = false
truthy (obj (field k v fs)) = true

pub get-entries-fields_of :
    (k : String) (d : Dict String Value) → get k (entries (fields_of d)) ≡ get k d
unfolding get entries fields_of
get-entries-fields_of k [] = refl
get-entries-fields_of k ((j, v) ∷ d) = rw (get-entries-fields_of k d) refl
