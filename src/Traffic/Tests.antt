-- ===== src/Traffic/Tests.antt =====
-- Runs of packages/guardian_core/traffic.
mod Schemas
mod Ingesting
use living_api_contract_guar.Common.{
  String, true, none, some, List, [], ◌∷◌, ◌≡◌, refl, map, string_key,
}
use living_api_contract_guar.Common.Sets.{elem}
use living_api_contract_guar.Common.Text.{upper, split}
use living_api_contract_guar.Traffic.UrlMatch.{
  empty_node, name_to_brace, template_name, segments, add_methods, place, add_at, add_path, descend,
  template_at, match_path,
}
use living_api_contract_guar.Traffic.UrlMatch.Register.{add_all, match-add_path}
use living_api_contract_guar.Traffic.UrlMatch.Sound.{pattern_of, fits, IsAdded, match-fits}

abbrev routes : List (String × List String)
routes = ("/users/me", "GET" ∷ []) ∷ ("/users/{id}/posts", "GET" ∷ []) ∷ []

match-add_path_example :
    match_path (add_path "/users/{id}" ("get" ∷ []) (add_all routes empty_node)) "Get" "/users/{id}"
    ≡ some "/users/{id}"
unfolding elem upper
match-add_path_example = match-add_path routes "/users/{id}" "Get" ("get" ∷ []) refl

match-fits_example :
    IsAdded routes "/users/{id}/posts"
    × (fits (map pattern_of (segments "/users/{id}/posts")) (segments "/users/7/posts") ≡ true)
unfolding match_path segments add_path add_at place template_name name_to_brace add_methods descend
    template_at elem upper split
match-fits_example = match-fits routes "get" "/users/7/posts" "/users/{id}/posts" refl

-- The literal segment "me" hides the template that fits the whole path.
hidden_template : match_path (add_all routes empty_node) "get" "/users/me/posts" ≡ none
unfolding match_path segments add_path add_at place template_name name_to_brace add_methods descend
    template_at elem upper split
hidden_template = refl

fitting_template :
    fits (map pattern_of (segments "/users/{id}/posts")) (segments "/users/me/posts") ≡ true
unfolding segments split template_name name_to_brace pattern_of fits
fitting_template = refl
