-- ===== src/Api/Services/First.antt =====
-- The first row that a query finds, after rows were added.
use living_api_contract_guar.Common.{
  Bool, true, false, Option, none, some, List, [], ◌∷◌, ◌++◌, ◌≡◌, refl, ◌∙◌, arith, string_key,
  nat_key, is_some, if◌then◌else◌,
}
use living_api_contract_guar.Api.Tables.{first}

module _ {A : Type 0} (p : A → Bool) where
  pub first-append_left :
      (xs ys : List A) (a : A) → first p xs ≡ some a → first p (xs ++ ys) ≡ some a
  first-append_left [] ys a h = absurd cc
  first-append_left (x ∷ xs) ys a h = ground (arith, first-append_left xs ys a)

  pub first-append_right : (xs ys : List A) → first p xs ≡ none → first p (xs ++ ys) ≡ first p ys
  first-append_right [] ys h = refl
  first-append_right (x ∷ xs) ys h = ground (arith, first-append_right xs ys)

pub first-snoc :
    {A : Type 0} (p : A → Bool) (xs : List A) (a : A)
    → p a ≡ true
    → first p xs ≡ none
    → first p (xs ++ (a ∷ [])) ≡ some a
first-snoc p xs a h q = first-append_right p xs (a ∷ []) q ∙ rw h refl

pub none_of : {A : Type 0} (o : Option A) → is_some o ≡ false → o ≡ none
none_of none h = refl
none_of (some a) h = absurd cc

pub first-exists :
    {A : Type 0} (p q : A → Bool) (xs : List A) (a : A)
    → first p xs ≡ some a
    → q a ≡ true
    → (c : A) × (first q xs ≡ some c)
first-exists p q [] a h k = absurd cc
first-exists p q (x ∷ xs) a h k = exists_by (p x) (q x) refl h (λ r. first-exists p q xs a r k)
  where
    exists_by :
        (b c : Bool)
        → q x ≡ c
        → (if b then some x else first p xs) ≡ some a
        → (first p xs ≡ some a → (d : _) × (first q xs ≡ some d))
        → (d : _) × ((if c then some x else first q xs) ≡ some d)
    exists_by b true e r t = (x, refl)
    exists_by true false e r t = let same : x ≡ a = cc in absurd (cc (rw same at e))
    exists_by false false e r t = t r

pub first-exists_snoc :
    {A : Type 0} (q : A → Bool) (xs : List A) (a : A)
    → q a ≡ true
    → (c : A) × (first q (xs ++ (a ∷ [])) ≡ some c)
first-exists_snoc q [] a h = (a, rw h refl)
first-exists_snoc q (x ∷ xs) a h = exists_by (q x) (first-exists_snoc q xs a h)
  where
    exists_by :
        (c : Bool)
        → (d : _) × (first q (xs ++ (a ∷ [])) ≡ some d)
        → (d : _) × ((if c then some x else first q (xs ++ (a ∷ []))) ≡ some d)
    exists_by true r = (x, refl)
    exists_by false r = r
