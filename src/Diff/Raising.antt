-- ===== src/Diff/Raising.antt =====
-- Python code that may raise TypeError on a malformed document: `none` is the exception, which
-- no caller catches.
use living_api_contract_guar.Common.{Option, none, some, List, [], ◌∷◌, ◌++◌, ◌≡◌, refl}

infixl 5 ◌>>=◌
abbrev pub ◌>>=◌ {ℓ κ} : {A : Type ℓ} {B : Type κ} → Option A → (A → Option B) → Option B
none >>= f = none
some a >>= f = f a

-- What two generators yield, one after the other.
infixr 65 ◌then◌
abbrev pub ◌then◌ {ℓ} : {A : Type ℓ} → Option (List A) → Option (List A) → Option (List A)
none then m = none
some xs then none = none
some xs then some ys = some (xs ++ ys)

-- `for x in xs: yield from f(x)`
unfoldable pub yield_each {ℓ κ} :
    {A : Type ℓ} {B : Type κ} → (A → Option (List B)) → List A → Option (List B)
yield_each f [] = some []
yield_each f (x ∷ xs) = f x then yield_each f xs

-- What a chain that raises nothing went through.
pub bind-some {ℓ κ} :
    {A : Type ℓ} {B : Type κ} (o : Option A) (f : A → Option B) (b : B)
    → o >>= f ≡ some b
    → (a : A) × (o ≡ some a) × (f a ≡ some b)
bind-some none f b h = absurd cc
bind-some (some a) f b h = (a, refl, h)
