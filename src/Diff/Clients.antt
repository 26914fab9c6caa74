-- ===== src/Diff/Clients.antt =====
-- packages/guardian_diff/clients.py: the repos whose mined call sites a change touches. `rows` is
-- the table `inferred_endpoints`, as far as the query reads it, and the place of a change in the
-- list stands for `id(change)`.
pub mod Join
use living_api_contract_guar.Common.{
  ℕ, suc, String, Bool, true, false, Option, none, some, List, [], ◌∷◌, ◌++◌, map, collect, select,
  is_empty, ◌&&◌, ◌||◌, ◌==◌, get_or, string_key, pair_key, nat_key, if◌then◌else◌,
}
use living_api_contract_guar.Common.Sets.{elem, set_of, sorted}
use living_api_contract_guar.Common.Dict.{Dict, get}
use living_api_contract_guar.Common.Text.{◌<>◌, upper, has_prefix}
use living_api_contract_guar.Json.Value.{Value, str, as_str, as_list, get_value}
use living_api_contract_guar.Diff.Models.{RawChange}

abbrev pub EndpointKey : Type 0
EndpointKey = String × String

pub record InferredEndpoint : Type 0 where
  pub repo : String
  pub method : String
  pub path_template : String

-- `for m in methods: if isinstance(m, str): keys.append((m.upper(), path))`
unfoldable pub method_keys : String → List Value → List EndpointKey
unfolding upper
method_keys path [] = []
method_keys path (str m ∷ ms) = (upper m, path) ∷ method_keys path ms
method_keys path (_ ∷ ms) = method_keys path ms

-- The keys of an OpenAPI change, by what its detail holds for method, path and methods.
unfoldable pub path_keys : Option String → Option String → Option (List Value) → List EndpointKey
unfolding upper method_keys
path_keys (some method) (some path) methods = (upper method, path) ∷ []
path_keys none (some path) (some methods) = method_keys path methods
path_keys none (some path) none = []
path_keys method none methods = []

unfoldable pub rpc_keys : Option String → Option String → List EndpointKey
rpc_keys (some service) (some rpc_method) = ("POST", service <> "." <> rpc_method) ∷ []
rpc_keys (some service) none = []
rpc_keys none rpc_method = []

-- `_endpoint_keys_from_change`
unfoldable pub endpoint_keys_from_change : RawChange → List EndpointKey
unfolding path_keys rpc_keys get_value as_str as_list has_prefix
endpoint_keys_from_change change =
    path_keys (as_str (get_value "method" change.detail)) (as_str (get_value "path" change.detail))
      (as_list (get_value "methods" change.detail))
    ++ (if has_prefix "proto.rpc." change.kind || has_prefix "proto.service." change.kind
        then rpc_keys (as_str (get_value "service" change.detail))
            (as_str (get_value "method" change.detail))
        else [])

-- `keys_by_change`, from the place `i` of the list on
unfoldable pub keys_by_change : ℕ → List RawChange → Dict ℕ (List EndpointKey)
keys_by_change i [] = []
keys_by_change i (change ∷ changes) =
    let keys = endpoint_keys_from_change change in
    let rest = keys_by_change (suc i) changes in if is_empty keys then rest else (i, keys) ∷ rest

-- `unique_keys`
unfoldable pub unique_keys : Dict ℕ (List EndpointKey) → List EndpointKey
unique_keys keyed = set_of (collect (λ p. p.1) keyed)

-- `sorted({row[0] for row in rows})` for the rows that the query selects
unfoldable pub query_repos : List InferredEndpoint → EndpointKey → List String
query_repos rows (method, path) =
    sorted (
      set_of (map (λ r. r.repo) (select (λ r. r.method == method && r.path_template == path) rows)))

-- `repos_by_key`
unfoldable pub repos_by_key :
    List InferredEndpoint → List EndpointKey → Dict EndpointKey (List String)
repos_by_key rows ks = map (λ k. (k, query_repos rows k)) ks

-- the last loop of `affected_clients`
unfoldable pub merge_repos :
    Dict EndpointKey (List String) → Dict ℕ (List EndpointKey) → Dict ℕ (List String)
merge_repos repos keyed =
    map (λ p. (p.0, sorted (set_of (collect (λ k. get_or (get k repos) []) p.1)))) keyed

-- `affected_clients`
unfoldable pub affected_clients : List InferredEndpoint → List RawChange → Dict ℕ (List String)
affected_clients rows changes =
    let keyed = keys_by_change 0 changes in
    merge_repos (repos_by_key rows (unique_keys keyed)) keyed
