-- ===== src/Diff/Proto/Index.antt =====
-- Dicts `{key(f): f for f in fs}` over items whose keys do not repeat.
use living_api_contract_guar.Common.{
  true, false, some, List, [], ◌∷◌, map, ◌≡◌, refl, arith, ◌⊎◌, inl, inr, Key, beq_refl, Some,
}
use living_api_contract_guar.Common.Sets.{elem, distinct}
use living_api_contract_guar.Common.Dict.{Dict, get, put, update, get-put}

module _ {K A : Type 0} ⦃e : Key K⦄ (key : A → K) where
  abbrev pairs : List A → Dict K A
  pairs = map (λ f. (key f, f))

  -- A key without an item keeps what the dict held.
  update_other :
      (d : Dict K A) (fs : List A) (k : K)
      → elem k (map key fs) ≡ false
      → get k (update d (pairs fs)) ≡ get k d
  unfolding update elem
  update_other d [] k h = refl
  update_other d (f ∷ fs) k h =
      ground (arith, update_other (put (key f) f d) fs k, get-put (key f) k f d)

  update_sound :
      (d : Dict K A) (fs : List A) (k : K) (g : A)
      → get k (update d (pairs fs)) ≡ some g
      → (get k d ≡ some g) ⊎ ((key g ≡ k) × Some (λ f. f ≡ g) fs)
  unfolding update
  update_sound d [] k g h = inl h
  update_sound d (f ∷ fs) k g h =
      ground
        (arith, update_sound (put (key f) f d) fs k g, get-put (key f) k f d, e.beq_iff (key f) k)

  update_complete :
      (d : Dict K A) (fs : List A) (g : A)
      → distinct (map key fs) ≡ true
      → Some (λ f. f ≡ g) fs
      → get (key g) (update d (pairs fs)) ≡ some g
  unfolding update distinct
  update_complete d [] g h m = absurd m
  update_complete d (f ∷ fs) g h (inl q) = ground (
    arith,
    update_other (put (key f) f d) fs (key f),
    get-put (key f) (key f) f d,
    beq_refl (key f),
  )
  update_complete d (f ∷ fs) g h (inr m) = update_complete (put (key f) f d) fs g (ground arith) m

-- What one index finds, the other finds under its own key.
pub index_agree :
    {K J A : Type 0} ⦃e : Key K⦄ ⦃i : Key J⦄ (key : A → K) (other : A → J) (fs : List A) (k : K)
    (g : A)
    → distinct (map other fs) ≡ true
    → get k (update [] (map (λ f. (key f, f)) fs)) ≡ some g
    → (key g ≡ k) × (get (other g) (update [] (map (λ f. (other f, f)) fs)) ≡ some g)
unfolding get
index_agree key other fs k g h q = elim (update_sound key [] fs k g q) [
  | inl p ↦ absurd cc
  | inr (p, m) ↦ (p, update_complete other [] fs g h m)
]
