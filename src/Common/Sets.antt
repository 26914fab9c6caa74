-- ===== src/Common/Sets.antt =====
-- Python's sets as lists without repetition, and `sorted` as insertion sort.
use mathlib.Core.Path.{◌≡◌, refl}
use mathlib.Core.Bool.{Bool, true, false, not, ◌&&◌, ◌||◌}
use mathlib.Core.List.{List, [], ◌∷◌, ◌++◌}
use native.Mathlib.Omega.{arith}
use living_api_contract_guar.Common.Tests.{if◌then◌else◌}
use living_api_contract_guar.Common.Lists.{select, collect}
use living_api_contract_guar.Common.Keys.{Key, ◌==◌}

module _ {ℓ} {A : Type ℓ} ⦃e : Key A⦄ where
  -- `a in xs`
  unfoldable pub elem : A → List A → Bool
  elem a [] = false
  elem a (x ∷ xs) = x == a || elem a xs

  -- `set(xs)`
  unfoldable pub set_of : List A → List A
  unfolding elem
  set_of [] = []
  set_of (x ∷ xs) = let rest = set_of xs in if elem x rest then rest else x ∷ rest

  -- `set(xs) - set(ys)` and `set(xs) & set(ys)`
  unfoldable pub difference : List A → List A → List A
  unfolding elem set_of
  difference xs ys = select (λ x. not (elem x ys)) (set_of xs)

  unfoldable pub intersection : List A → List A → List A
  unfolding elem set_of
  intersection xs ys = select (λ x. elem x ys) (set_of xs)

  unfoldable pub insert_sorted : A → List A → List A
  insert_sorted a [] = a ∷ []
  insert_sorted a (x ∷ xs) = if e.le_key a x then a ∷ x ∷ xs else x ∷ insert_sorted a xs

  unfoldable pub sorted : List A → List A
  unfolding insert_sorted
  sorted [] = []
  sorted (x ∷ xs) = insert_sorted x (sorted xs)

  pub elem-select : (p : A → Bool) (a : A) (xs : List A) → elem a (select p xs) ≡ (elem a xs && p a)
  unfolding elem
  elem-select p a [] = refl
  elem-select p a (x ∷ xs) = ground (arith, elem-select p a xs, e.beq_iff x a)

  pub elem-append : (a : A) (xs ys : List A) → elem a (xs ++ ys) ≡ (elem a xs || elem a ys)
  unfolding elem
  elem-append a [] ys = refl
  elem-append a (x ∷ xs) ys = ground (arith, elem-append a xs ys)

  pub elem-set_of : (a : A) (xs : List A) → elem a (set_of xs) ≡ elem a xs
  unfolding elem set_of
  elem-set_of a [] = refl
  elem-set_of a (x ∷ xs) = ground (arith, elem-set_of a xs, elem-set_of x xs, e.beq_iff x a)

  elem-insert_sorted : (a x : A) (xs : List A) → elem a (insert_sorted x xs) ≡ (x == a || elem a xs)
  unfolding elem insert_sorted
  elem-insert_sorted a x [] = refl
  elem-insert_sorted a x (y ∷ ys) = ground (arith, elem-insert_sorted a x ys)

  pub elem-sorted : (a : A) (xs : List A) → elem a (sorted xs) ≡ elem a xs
  unfolding sorted elem
  elem-sorted a [] = refl
  elem-sorted a (x ∷ xs) = ground (arith, elem-insert_sorted a x (sorted xs), elem-sorted a xs)

pub nil-append {ℓ} : {A : Type ℓ} (xs ys : List A) → xs ++ ys ≡ [] → (xs ≡ []) × (ys ≡ [])
nil-append [] ys h = (refl, h)
nil-append (x ∷ xs) ys h = absurd cc

module _ {ℓ} {A B : Type ℓ} ⦃e : Key A⦄ (f : A → List B) where
  pub collect-nil : (xs : List A) → ((x : A) → elem x xs ≡ true → f x ≡ []) → collect f xs ≡ []
  unfolding elem
  collect-nil [] h = refl
  collect-nil (x ∷ xs) h =
      rw (h x (ground (arith, e.beq_iff x x))) (collect-nil xs (λ y q. h y (ground arith)))

  pub collect-nil_at : (xs : List A) (x : A) → collect f xs ≡ [] → elem x xs ≡ true → f x ≡ []
  unfolding elem
  collect-nil_at [] x h q = absurd cc
  collect-nil_at (y ∷ ys) x h q =
      let parts = nil-append (f y) (collect f ys) h in
      ground (arith, e.beq_iff y x, parts.0, collect-nil_at ys x parts.1)

-- No key stands twice in the list.
unfoldable pub distinct {ℓ} : {K : Type ℓ} ⦃e : Key K⦄ → List K → Bool
unfolding elem
distinct [] = true
distinct (k ∷ ks) = not (elem k ks) && distinct ks
