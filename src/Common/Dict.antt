-- ===== src/Common/Dict.antt =====
-- Python's dict as an association list in insertion order.
use mathlib.Core.Path.{◌≡◌, refl}
use mathlib.Core.Bool.{Bool, true, false, not, ◌&&◌}
use mathlib.Core.Option.{Option, none, some}
use mathlib.Core.List.{List, [], ◌∷◌, map}
use native.Mathlib.Omega.{arith}
use living_api_contract_guar.Common.Tests.{is_some, if◌then◌else◌}
use living_api_contract_guar.Common.Keys.{Key, ◌==◌}
use living_api_contract_guar.Common.Lists.{select, all}
use living_api_contract_guar.Common.Sets.{
  elem, sorted, difference, intersection, set_of, elem-select, elem-set_of, elem-sorted,
}

abbrev pub Dict {ℓ} : Type ℓ → Type ℓ → Type ℓ
Dict K V = List (K × V)

module _ {ℓ} {K V : Type ℓ} ⦃e : Key K⦄ where
  -- `d.get(k)`
  unfoldable pub get : K → Dict K V → Option V
  get k [] = none
  get k ((j, v) ∷ d) = if j == k then some v else get k d

  -- `d[k] = v`
  unfoldable pub put : K → V → Dict K V → Dict K V
  put k v [] = (k, v) ∷ []
  put k v ((j, w) ∷ d) = if j == k then (j, v) ∷ d else (j, w) ∷ put k v d

  unfoldable pub keys : Dict K V → List K
  keys = map (λ p. p.0)

  -- `{k: v for k, v in pairs}` and `d.update(pairs)`: the last pair of a key wins
  unfoldable pub update : Dict K V → List (K × V) → Dict K V
  unfolding put
  update d [] = d
  update d ((k, v) ∷ pairs) = update (put k v d) pairs

  pub get-put :
      (k j : K) (v : V) (d : Dict K V) → get j (put k v d) ≡ (if k == j then some v else get j d)
  unfolding get put
  get-put k j v [] = refl
  get-put k j v ((i, w) ∷ d) =
      ground (arith, e.beq_iff k j, e.beq_iff i k, e.beq_iff i j, get-put k j v d)

module _ {ℓ} {K A B : Type ℓ} ⦃e : Key K⦄ where
  -- `sorted(set(xs) - set(ys))`
  unfoldable pub only_in : Dict K A → Dict K B → List K
  unfolding sorted difference keys
  only_in xs ys = sorted (difference (keys xs) (keys ys))

  -- `sorted(set(xs) & set(ys))`
  unfoldable pub in_both : Dict K A → Dict K B → List K
  unfolding sorted intersection keys
  in_both xs ys = sorted (intersection (keys xs) (keys ys))

module _ {ℓ} {K V : Type ℓ} ⦃e : Key K⦄ where
  pub elem-keys : (k : K) (d : Dict K V) → elem k (keys d) ≡ is_some (get k d)
  unfolding elem keys get
  elem-keys k [] = refl
  elem-keys k ((j, v) ∷ d) = ground (arith, elem-keys k d)

module _ {ℓ} {K A B : Type ℓ} ⦃e : Key K⦄ (k : K) (xs : Dict K A) (ys : Dict K B) where
  pub elem-only_in : elem k (only_in xs ys) ≡ (is_some (get k xs) && not (is_some (get k ys)))
  unfolding only_in difference
  elem-only_in =
      let other : K → Bool = λ x. not (elem x (keys ys)) in
      rw (
        elem-sorted k (select other (set_of (keys xs))),
        elem-select other k (set_of (keys xs)),
        elem-set_of k (keys xs),
        elem-keys k xs,
        elem-keys k ys,
      )

  pub elem-in_both : elem k (in_both xs ys) ≡ (is_some (get k xs) && is_some (get k ys))
  unfolding in_both intersection
  elem-in_both =
      let other : K → Bool = λ x. elem x (keys ys) in
      rw (
        elem-sorted k (select other (set_of (keys xs))),
        elem-select other k (set_of (keys xs)),
        elem-set_of k (keys xs),
        elem-keys k xs,
        elem-keys k ys,
      )

-- A test that holds of every entry.
module _ {ℓ} {K V : Type ℓ} ⦃e : Key K⦄ (p : K × V → Bool) where
  got_entry :
      (b : Bool) (j k : K) (w v : V) (rest : Option V)
      → (b ≡ true → j ≡ k)
      → (if b then some w else rest) ≡ some v
      → p (j, w) ≡ true
      → (rest ≡ some v → p (k, v) ≡ true)
      → p (k, v) ≡ true
  got_entry true j k w v rest same h q r =
      let key : j ≡ k = same refl in let value : w ≡ v = cc in rw (← key, ← value) q
  got_entry false j k w v rest same h q r = r h

  pub all-get : (k : K) (d : Dict K V) (v : V) → all p d ≡ true → get k d ≡ some v → p (k, v) ≡ true
  unfolding get
  all-get k [] v h q = absurd cc
  all-get k ((j, w) ∷ d) v h q =
      got_entry (j == k) j k w v (get k d) (e.beq_iff j k).0 q (ground arith)
        (all-get k d v (ground arith))

  put_entry :
      (b : Bool) (j k : K) (w v : V) (d : Dict K V)
      → (b ≡ true → j ≡ k)
      → (p (j, w) && all p d) ≡ true
      → p (k, v) ≡ true
      → all p (put k v d) ≡ true
      → all p (if b then (j, v) ∷ d else (j, w) ∷ put k v d) ≡ true
  put_entry true j k w v d same h q r =
      let key : j ≡ k = same refl in let head : p (j, v) ≡ true = rw key q in ground (arith, head)
  put_entry false j k w v d same h q r = ground arith

  pub all-put :
      (k : K) (v : V) (d : Dict K V) → all p d ≡ true → p (k, v) ≡ true → all p (put k v d) ≡ true
  unfolding put
  all-put k v [] h q = ground arith
  all-put k v ((j, w) ∷ d) h q =
      put_entry (j == k) j k w v d (e.beq_iff j k).0 h q (all-put k v d (ground arith) q)

  pub all-update : (xs d : Dict K V) → all p d ≡ true → all p xs ≡ true → all p (update d xs) ≡ true
  unfolding update
  all-update [] d h q = h
  all-update ((k, v) ∷ xs) d h q =
      all-update xs (put k v d) (all-put k v d h (ground arith)) (ground arith)
