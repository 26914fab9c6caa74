-- ===== src/Mining/Tests.antt =====
-- Runs of packages/guardian_core/mining.
use living_api_contract_guar.Common.{
  ◌+◌, String, true, List, [], ◌∷◌, ◌≡◌, refl, string_key, length,
}
use living_api_contract_guar.Common.Text.{◌<>◌}
use living_api_contract_guar.Common.Sets.{distinct}
use living_api_contract_guar.Mining.PathNormalize.{normalize_template, abstract_static_segments}
use living_api_contract_guar.Mining.CallSites.{
  InferredCallSite, existing_hashes, persist_call_sites,
}
use living_api_contract_guar.Mining.CallSites.Rerun.{persist_call_sites-rerun}

abbrev site : String → InferredCallSite
site path = record {
  file = "app.py";
  line = 12;
  language = "python";
  client_library = "requests";
  method = "get";
  path_template = path;
  field_names = "b" ∷ "a" ∷ [];
}

abbrev sites : List InferredCallSite
sites = site "/users" ∷ site "/users" ∷ site "/orders" ∷ []

abbrev digest : String → String
digest s = "#" <> s

persist_call_sites-rerun_example :
    (let first = persist_call_sites digest "org/web" "c1" sites [] in
      let again = persist_call_sites digest "org/web" "c1" sites first.0 in
      (first.1.inserted + first.1.skipped ≡ length sites)
      × (distinct (existing_hashes digest "org/web" "c1" first.0) ≡ true)
      × (again.0 ≡ first.0)
      × (again.1.inserted ≡ 0)
      × (again.1.skipped ≡ length sites))
unfolding distinct existing_hashes
persist_call_sites-rerun_example = persist_call_sites-rerun digest "org/web" "c1" sites [] refl

one_template :
    normalize_template "https://api.test//users/\0P\0/?page=1" ("id" ∷ []) ≡ "/users/{id}"
unfolding normalize_template
one_template = refl

two_placeholders : normalize_template "/a/\0P\0/b/\0P\0" ("id" ∷ "id" ∷ []) ≡ "/a/{id}/b/{id2}"
unfolding normalize_template
two_placeholders = refl

numeric_segment : abstract_static_segments "/users/42/posts" ≡ "/users/{id}/posts"
unfolding abstract_static_segments
numeric_segment = refl
