-- ===== src/Diff/Clients/Join.antt =====
-- `affected_clients` of clients.py against the join of changes and rows.
use Prim.Native.Nat.{ℕ}
use living_api_contract_guar.Common.{
  zero, suc, ◌+◌, ◌<◌, String, Bool, true, Option, none, some, List, [], ◌∷◌, ◌++◌, ◌≡◌, refl,
  arith, map, collect, select, any, ◌&&◌, ◌||◌, ◌==◌, get_or, string_key, pair_key, nat_key,
  nat_beq_iff, pair_beq_iff, Key, beq_refl,
}
use living_api_contract_guar.Common.Sets.{elem, set_of, sorted, elem-sorted, elem-set_of}
use living_api_contract_guar.Common.Dict.{Dict, get}
use living_api_contract_guar.Diff.Models.{RawChange}
use living_api_contract_guar.Diff.Clients.{
  EndpointKey, InferredEndpoint, endpoint_keys_from_change, keys_by_change, unique_keys,
  query_repos, repos_by_key, merge_repos, affected_clients,
}

elem-append {ℓ} :
    {A : Type ℓ} ⦃e : Key A⦄ (a : A) (xs ys : List A) → elem a (xs ++ ys) ≡ (elem a xs || elem a ys)
unfolding elem
elem-append a [] ys = refl
elem-append a (x ∷ xs) ys = ground (arith, elem-append a xs ys)

elem-collect {ℓ} :
    {A B : Type ℓ} ⦃e : Key B⦄ (b : B) (f : A → List B) (xs : List A)
    → elem b (collect f xs) ≡ any (λ x. elem b (f x)) xs
unfolding elem
elem-collect b f [] = refl
elem-collect b f (x ∷ xs) = ground (arith, elem-append b (f x) (collect f xs), elem-collect b f xs)

any-congruent {ℓ} :
    {A : Type ℓ} ⦃e : Key A⦄ (p q : A → Bool) (xs : List A)
    → ((x : A) → elem x xs ≡ true → p x ≡ q x)
    → any p xs ≡ any q xs
unfolding elem
any-congruent p q [] h = refl
any-congruent p q (x ∷ xs) h =
    ground (arith, h x, beq_refl x, any-congruent p q xs (λ y k. h y (ground arith)))

-- The row is of this repo and has this key.
abbrev pub calls : String → EndpointKey → InferredEndpoint → Bool
calls repo (method, path) r = (r.method == method && r.path_template == path) && r.repo == repo

elem-rows :
    (repo : String) (p : InferredEndpoint → Bool) (rows : List InferredEndpoint)
    → elem repo (map (λ r. r.repo) (select p rows)) ≡ any (λ r. p r && r.repo == repo) rows
unfolding elem
elem-rows repo p [] = refl
elem-rows repo p (r ∷ rows) = ground (arith, elem-rows repo p rows)

elem-query_repos :
    (rows : List InferredEndpoint) (repo : String) (k : EndpointKey)
    → elem repo (query_repos rows k) ≡ any (calls repo k) rows
unfolding query_repos
elem-query_repos rows repo (method, path) =
    let p : InferredEndpoint → Bool = λ r. r.method == method && r.path_template == path in
    rw
      (
        elem-sorted repo (set_of (map (λ r. r.repo) (select p rows))),
        elem-set_of repo (map (λ r. r.repo) (select p rows)),
      )
      (elem-rows repo p rows)

get-repos_by_key :
    (rows : List InferredEndpoint) (ks : List EndpointKey) (k : EndpointKey)
    → elem k ks ≡ true
    → get k (repos_by_key rows ks) ≡ some (query_repos rows k)
unfolding repos_by_key elem get
get-repos_by_key rows [] k h = absurd cc
get-repos_by_key rows (j ∷ ks) k h = ground (arith, pair_beq_iff j k, get-repos_by_key rows ks k)

-- The change at a place of the list.
abbrev pub get_elem? : List RawChange → ℕ → Option RawChange
get_elem? [] n = none
get_elem? (c ∷ cs) zero = some c
get_elem? (c ∷ cs) (suc n) = get_elem? cs n

abbrev unless_empty : List EndpointKey → Option (List EndpointKey)
unless_empty [] = none
unless_empty (k ∷ ks) = some (k ∷ ks)

keys_by_change-later : (i j : ℕ) (cs : List RawChange) → i < j → get i (keys_by_change j cs) ≡ none
unfolding keys_by_change get
keys_by_change-later i j [] h = refl
keys_by_change-later i j (c ∷ cs) h =
    ground (arith, keys_by_change-later i (suc j) cs (omega arith), nat_beq_iff j i)

get-keys_by_change :
    (i j n : ℕ) (cs : List RawChange) (c : RawChange)
    → i ≡ j + n
    → get_elem? cs n ≡ some c
    → get i (keys_by_change j cs) ≡ unless_empty (endpoint_keys_from_change c)
unfolding keys_by_change get
get-keys_by_change i j n [] c h q = absurd cc
get-keys_by_change i j zero (d ∷ cs) c h q =
    ground (arith, keys_by_change-later i (suc j) cs (omega arith), nat_beq_iff j i)
get-keys_by_change i j (suc n) (d ∷ cs) c h q =
    ground (arith, get-keys_by_change i (suc j) n cs c (omega arith) q, nat_beq_iff j i)

-- The repos of a list of keys, by the cache.
abbrev cached : Dict EndpointKey (List String) → List EndpointKey → List String
cached repos ks = sorted (set_of (collect (λ k. get_or (get k repos) []) ks))

cached-nil :
    (repos : Dict EndpointKey (List String)) (ks : List EndpointKey)
    → [] ≡ ks
    → [] ≡ cached repos ks
unfolding sorted set_of
cached-nil repos [] h = refl
cached-nil repos (k ∷ ks) h = absurd cc

or_empty : (ks : List EndpointKey) → get_or (unless_empty ks) [] ≡ ks
or_empty [] = refl
or_empty (k ∷ ks) = refl

get-merge_repos :
    (repos : Dict EndpointKey (List String)) (i : ℕ) (keyed : Dict ℕ (List EndpointKey))
    → (ks : List EndpointKey) → get_or (get i keyed) [] ≡ ks
    → get_or (get i (merge_repos repos keyed)) [] ≡ cached repos ks
unfolding merge_repos get
get-merge_repos repos i [] ks h = cached-nil repos ks h
get-merge_repos repos i ((j, js) ∷ keyed) ks h = ground (arith, get-merge_repos repos i keyed ks)

-- The keys of one change are among the keys of all.
unique_keys_complete :
    (i : ℕ) (keyed : Dict ℕ (List EndpointKey)) (k : EndpointKey)
    → elem k (get_or (get i keyed) []) ≡ true
    → elem k (collect (λ p. p.1) keyed) ≡ true
unfolding get elem
unique_keys_complete i [] k h = absurd cc
unique_keys_complete i ((j, js) ∷ keyed) k h =
    ground (arith, elem-append k js (collect (λ p. p.1) keyed), unique_keys_complete i keyed k)

elem-cached :
    (rows : List InferredEndpoint) (all_keys ks : List EndpointKey) (repo : String)
    → ((k : EndpointKey) → elem k ks ≡ true → elem k all_keys ≡ true)
    → elem repo (cached (repos_by_key rows all_keys) ks) ≡ any (λ k. any (calls repo k) rows) ks
elem-cached rows all_keys ks repo h =
    let found : EndpointKey → List String = λ k. get_or (get k (repos_by_key rows all_keys)) [] in
    rw
      (
        elem-sorted repo (set_of (collect found ks)),
        elem-set_of repo (collect found ks),
        elem-collect repo found ks,
      )
      (any-congruent (λ k. elem repo (found k)) (λ k. any (calls repo k) rows) ks
        (λ k q. rw (get-repos_by_key rows all_keys k (h k q)) (elem-query_repos rows repo k)))

-- The repos that `affected_clients` finds for the change at a place of the list are those that
-- have a row of the catalogue with the method and path template of one of the change's keys.
pub affected_clients-join :
    (rows : List InferredEndpoint) (changes : List RawChange) (i : ℕ) (change : RawChange)
    (repo : String)
    → get_elem? changes i ≡ some change
    → elem repo (get_or (get i (affected_clients rows changes)) [])
      ≡ any (λ k. any (calls repo k) rows) (endpoint_keys_from_change change)
unfolding affected_clients unique_keys
affected_clients-join rows changes i change repo h =
    let keyed = keys_by_change 0 changes in
    let at : get_or (get i keyed) [] ≡ endpoint_keys_from_change change =
      rw (get-keys_by_change i 0 i changes change (omega arith) h)
        (or_empty (endpoint_keys_from_change change)) in
    rw
      (get-merge_repos (repos_by_key rows (set_of (collect (λ p. p.1) keyed))) i keyed
        (endpoint_keys_from_change change) at)
      (elem-cached rows (set_of (collect (λ p. p.1) keyed)) (endpoint_keys_from_change change) repo
        (λ k q.
          rw (elem-set_of k (collect (λ p. p.1) keyed)) (unique_keys_complete i keyed k (rw at q))))
