-- ===== src/Traffic/Merge/Enough.antt =====
-- The bound on the depth of the calls of `merge_json_schemas` is enough.
use living_api_contract_guar.Common.{
  ℕ, zero, suc, ◌<◌, ◌≤◌, String, Bool, true, false, Option, none, some, List, [], ◌∷◌, ◌≡◌, refl,
  arith, ◌==◌, string_key, get_or, if◌then◌else◌,
}
use living_api_contract_guar.Common.Dict.{Dict, get}
use living_api_contract_guar.Json.Value.{
  Value, null, obj, Fields, end, field, entries, get_value, truthy,
}
use living_api_contract_guar.Diff.Raising.{◌>>=◌}
use living_api_contract_guar.Traffic.Merge.{
  max, depth, depth_fields, dict_or_empty, merge_each, merge_property, merge_objects, merge_dicts,
  merge_step, merge_within, all_keys,
}

max_left : (m n : ℕ) → m ≤ max m n
max_left m n = ground arith

max_right : (m n : ℕ) → n ≤ max m n
max_right m n = ground arith

entry_of_head :
    (b : Bool) (w v : Value) (rest : Option Value) (n : ℕ)
    → (if b then some w else rest) ≡ some v
    → (rest ≡ some v → depth v ≤ n)
    → depth v ≤ max (depth w) n
entry_of_head true w v rest n h k = let same : w ≡ v = cc in rw (← same) (max_left (depth w) n)
entry_of_head false w v rest n h k = omega (arith, k h, max_right (depth w) n)

pub depth_of_entry :
    (k : String) (fs : Fields) (v : Value) → get k (entries fs) ≡ some v → depth v ≤ depth_fields fs
unfolding get entries depth
depth_of_entry k end v h = absurd cc
depth_of_entry k (field j w fs) v h =
    entry_of_head (j == k) w v (get k (entries fs)) (depth_fields fs) h (depth_of_entry k fs v)

empty_or_raised :
    (b : Bool) (d : Dict String Value) (k : String) (v : Value)
    → (if b then none else some []) ≡ some d
    → get k d ≡ some v
    → ⊥
unfolding get
empty_or_raised true d k v h q = absurd cc
empty_or_raised false [] k v h q = absurd cc
empty_or_raised false (p ∷ d) k v h q = absurd cc

-- A property of a schema is less deep than the schema.
depth_in :
    (w : Value) (d : Dict String Value) (k : String) (v : Value)
    → dict_or_empty w ≡ some d
    → get k d ≡ some v
    → depth v < depth w
unfolding dict_or_empty depth
depth_in (obj fs) d k v h q =
    let same : entries fs ≡ d = cc in omega (arith, depth_of_entry k fs v (rw same q))
depth_in w d k v h q = absurd (empty_or_raised (truthy w) d k v h q)

depth_at :
    (o : Option Value) (fs : Fields) (d : Dict String Value) (k : String) (v : Value)
    → get "properties" (entries fs) ≡ o
    → dict_or_empty (get_or o null) ≡ some d
    → get k d ≡ some v
    → depth v < depth_fields fs
unfolding depth
depth_at none fs d k v e h q =
    let less : depth v < 0 = depth_in null d k v h q in absurd (omega (arith, less))
depth_at (some w) fs d k v e h q =
    omega (arith, depth_in w d k v h q, depth_of_entry "properties" fs w e)

pub depth_of_property :
    (fs : Fields) (d : Dict String Value) (k : String) (v : Value)
    → dict_or_empty (get_value "properties" (entries fs)) ≡ some d
    → get k d ≡ some v
    → depth v < depth_fields fs
unfolding get_value
depth_of_property fs d k v h q = depth_at (get "properties" (entries fs)) fs d k v refl h q

module _ (f g : Value → Value → Option Value) where
  merge_property-same :
      (a b : Option Value)
      → ((v w : Value) → a ≡ some v → f v w ≡ g v w)
      → merge_property f a b ≡ merge_property g a b
  merge_property-same none b h = refl
  merge_property-same (some v) none h = refl
  merge_property-same (some v) (some w) h = h v w refl

  merge_each-same :
      (e i : Dict String Value)
      → ((k : String) (v w : Value) → get k e ≡ some v → f v w ≡ g v w)
      → (ks : List String) → merge_each f e i ks ≡ merge_each g e i ks
  unfolding merge_each
  merge_each-same e i h [] = refl
  merge_each-same e i h (k ∷ ks) =
      rw (merge_property-same (get k e) (get k i) (h k), merge_each-same e i h ks)

  after_properties :
      (o : Option (Dict String Value)) (p : Option (Dict String Value))
      → (k : Dict String Value → Option (Dict String Value))
      → ((d i : Dict String Value)
          → o ≡ some d
          → merge_each f d i (all_keys f d i) ≡ merge_each g d i (all_keys g d i))
      → (do d ← o; i ← p; m ← merge_each f d i (all_keys f d i); k m)
        ≡ (do d ← o; i ← p; m ← merge_each g d i (all_keys g d i); k m)
  after_properties none p k h = refl
  after_properties (some d) none k h = refl
  after_properties (some d) (some i) k h = rw (h d i refl)

  -- The recursive calls agree on the properties of the existing schema.
  AgreeBelow : Value → Type 0
  AgreeBelow e = (v w : Value) → depth v < depth e → f v w ≡ g v w

  merge_objects-same :
      (fs : Fields) (i : Dict String Value)
      → AgreeBelow (obj fs)
      → merge_objects f (entries fs) i ≡ merge_objects g (entries fs) i
  unfolding merge_objects AgreeBelow depth
  merge_objects-same fs i h =
      after_properties (dict_or_empty (get_value "properties" (entries fs)))
        (dict_or_empty (get_value "properties" i)) _
        (λ d i q.
          merge_each-same d i (λ k v w r. h v w (omega (arith, depth_of_property fs d k v q r)))
            (all_keys f d i))

  merge_step-same : (e i : Value) → AgreeBelow e → merge_step f e i ≡ merge_step g e i
  unfolding merge_step merge_dicts
  merge_step-same (obj fs) (obj gs) h = rw (merge_objects-same fs (entries gs) h)
  merge_step-same e i h = refl

-- However much more the bound is, the result is the same.
pub merge_within-same :
    (n m : ℕ) (e i : Value) → depth e < n → depth e < m → merge_within n e i ≡ merge_within m e i
unfolding merge_within AgreeBelow
merge_within-same zero m e i h k = absurd (omega arith)
merge_within-same (suc n) zero e i h k = absurd (omega arith)
merge_within-same (suc n) (suc m) e i h k =
    merge_step-same (merge_within n) (merge_within m) e i
      (λ v w q. merge_within-same n m v w (omega arith) (omega arith))
