-- ===== src/Api/Tables.antt =====
-- The rows and schemas that apps/api/routes/services.py works on, and the answers of a handler.
use living_api_contract_guar.Common.{
  ℕ, String, Bool, Option, none, some, List, [], ◌∷◌, string_key, nat_key, leb, if◌then◌else◌,
}
use living_api_contract_guar.Json.Value.{Value}

pub record Service : Type 0 where
  pub id : String
  pub name : String
  pub owner : String
  pub created_at : ℕ

pub record Contract : Type 0 where
  pub id : String
  pub service_id : String
  pub name : String
  pub kind : String
  pub created_at : ℕ

pub record ContractVersion : Type 0 where
  pub id : String
  pub contract_id : String
  pub service_id : String
  pub version_hash : String
  pub raw_blob : String
  pub canonical_blob : String
  pub spec_metadata : Value
  pub created_at : ℕ

pub record Registry : Type 0 where
  pub services : List Service
  pub contracts : List Contract
  pub versions : List ContractVersion
  pub drawn : ℕ

pub record ServiceCreate : Type 0 where
  pub name : String
  pub owner : String

-- The schema lets through only base64 that decodes.
pub record ContractUpload : Type 0 where
  pub name : String
  pub kind : String
  pub spec : Option Value
  pub spec_b64 : Option String
  pub spec_metadata : Value

pub record ContractRead : Type 0 where
  pub id : String
  pub service_id : String
  pub name : String
  pub kind : String
  pub version : ContractVersion
  pub created : Bool

-- What stands outside: `dumps` is `json.dumps` with sorted keys and no spaces.
pub record Encoding : Type 0 where
  pub dumps : Value → String
  pub b64decode : String → String
  pub sha256 : String → String
  pub new_id : ℕ → String

-- Statuses 404, 409 and 422, an uncaught exception, and a success.
pub data Answer (A : Type 0) : Type 0 where
  not_found conflict unprocessable raised : Answer A
  success : A → Answer A

abbrev pub first {ℓ} : {A : Type ℓ} → (A → Bool) → List A → Option A
first p [] = none
first p (x ∷ xs) = let rest = first p xs in if p x then some x else rest

abbrev pub insert_newer {ℓ} : {A : Type ℓ} → (A → ℕ) → A → List A → List A
insert_newer time x [] = x ∷ []
insert_newer time x (y ∷ ys) =
    let rest = insert_newer time x ys in if leb (time y) (time x) then x ∷ y ∷ ys else y ∷ rest

-- `order_by(created_at.desc())`
abbrev pub newest_first {ℓ} : {A : Type ℓ} → (A → ℕ) → List A → List A
newest_first time [] = []
newest_first time (x ∷ xs) = insert_newer time x (newest_first time xs)

abbrev pub head {ℓ} : {A : Type ℓ} → List A → Option A
head [] = none
head (x ∷ xs) = some x
