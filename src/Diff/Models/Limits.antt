-- ===== src/Diff/Models/Limits.antt =====
-- What `validated` lets through.
use living_api_contract_guar.Common.{
  Bool, true, false, Option, none, some, List, ◌≡◌, refl, all, if◌then◌else◌,
}
use living_api_contract_guar.Diff.Models.{RawChange, is_valid, validated}

kept_by :
    (b : Bool) (ds cs : List RawChange)
    → (if b then some ds else none) ≡ some cs
    → ((some ds ≡ some cs) × (b ≡ true))
kept_by true ds cs h = (h, refl)
kept_by false ds cs h = absurd cc

pub validated-some :
    (o : Option (List RawChange)) (cs : List RawChange) → validated o ≡ some cs → o ≡ some cs
unfolding validated
validated-some none cs h = absurd cc
validated-some (some ds) cs h = (kept_by (all is_valid ds) ds cs h).0
