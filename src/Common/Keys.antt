-- ===== src/Common/Keys.antt =====
-- Types whose values serve as keys of Python's dicts and sets: an equality test, and the order
-- that `sorted` uses.
use Prim.Native.Nat.{ℕ}
use Prim.Native.String.{String, compare}
use mathlib.Core.Path.{◌≡◌}
use mathlib.Core.Logic.{◌↔◌}
use mathlib.Core.List.{List, [], ◌∷◌}
use mathlib.Core.Bool.{Bool, true, false, ◌&&◌}
use native.Mathlib.Omega.{arith}
use text.Mathlib.Text.{◌==◌ as str_eq, is_le}
use text.Mathlib.TextEquality.{eq_iff}
use living_api_contract_guar.Common.Tests.{leb, nat_beq, nat_beq_iff, if◌then◌else◌}

pub record Key {ℓ} (A : Type ℓ) : Type ℓ where
  pub le_key : A → A → Bool
  pub beq : A → A → Bool
  pub beq_iff : (x y : A) → (beq x y ≡ true) ↔ (x ≡ y)

infix 50 ◌==◌
abbrev pub ◌==◌ {ℓ} : {A : Type ℓ} ⦃k : Key A⦄ → A → A → Bool
◌==◌ ⦃k⦄ = k.beq

abbrev str_le : String → String → Bool
str_le s t = is_le (compare s t)

instance abbrev pub nat_key : Key ℕ
nat_key = record { beq = nat_beq; beq_iff = nat_beq_iff; le_key = leb }

instance abbrev pub string_key : Key String
string_key = record { beq = str_eq; beq_iff = eq_iff; le_key = str_le }

-- Python compares tuples from the left.
abbrev pub pair_beq {ℓ} : {A B : Type ℓ} ⦃k : Key A⦄ ⦃m : Key B⦄ → A × B → A × B → Bool
pair_beq ⦃k⦄ ⦃m⦄ (a, b) (c, d) = k.beq a c && m.beq b d

pub pair_beq_iff {ℓ} :
    {A B : Type ℓ} ⦃k : Key A⦄ ⦃m : Key B⦄ (p q : A × B) → (pair_beq p q ≡ true) ↔ (p ≡ q)
pair_beq_iff ⦃k⦄ ⦃m⦄ (a, b) (c, d) = ground (arith, k.beq_iff a c, m.beq_iff b d)

abbrev pair_le {ℓ} : {A B : Type ℓ} ⦃k : Key A⦄ ⦃m : Key B⦄ → A × B → A × B → Bool
pair_le ⦃k⦄ ⦃m⦄ (a, b) (c, d) = if k.beq a c then m.le_key b d else k.le_key a c

instance abbrev pub pair_key {ℓ} : {A B : Type ℓ} ⦃k : Key A⦄ ⦃m : Key B⦄ → Key (A × B)
pair_key = record { beq = pair_beq; beq_iff = pair_beq_iff; le_key = pair_le }

-- Tuples of any length.
abbrev pub list_beq {ℓ} : {A : Type ℓ} ⦃k : Key A⦄ → List A → List A → Bool
list_beq [] [] = true
list_beq [] (y ∷ ys) = false
list_beq (x ∷ xs) [] = false
list_beq ⦃k⦄ (x ∷ xs) (y ∷ ys) = k.beq x y && list_beq xs ys

pub list_beq_iff {ℓ} :
    {A : Type ℓ} ⦃k : Key A⦄ (xs ys : List A) → (list_beq xs ys ≡ true) ↔ (xs ≡ ys)
list_beq_iff [] [] = ground arith
list_beq_iff [] (y ∷ ys) = ground arith
list_beq_iff (x ∷ xs) [] = ground arith
list_beq_iff ⦃k⦄ (x ∷ xs) (y ∷ ys) = ground (arith, k.beq_iff x y, list_beq_iff xs ys)

abbrev list_le {ℓ} : {A : Type ℓ} ⦃k : Key A⦄ → List A → List A → Bool
list_le [] ys = true
list_le (x ∷ xs) [] = false
list_le ⦃k⦄ (x ∷ xs) (y ∷ ys) = let rest = list_le xs ys in if k.beq x y then rest else k.le_key x y

instance abbrev pub list_key {ℓ} : {A : Type ℓ} ⦃k : Key A⦄ → Key (List A)
list_key = record { beq = list_beq; beq_iff = list_beq_iff; le_key = list_le }

pub beq_refl {ℓ} : {A : Type ℓ} ⦃k : Key A⦄ (a : A) → (a == a) ≡ true
beq_refl ⦃k⦄ a = (k.beq_iff a a).1 (λ i. a)
