-- ===== src/Diff/Tests/Contracts.antt =====
-- Witnesses for the contracts and their walkers.
use living_api_contract_guar.Common.{
  String, ◌<◌, true, false, none, some, List, [], ◌∷◌, ◌≡◌, refl, All, map, select, ◌==◌, ◌↔◌,
  string_key, any, get_or, nat_key, all, leb, ◌&&◌, if◌then◌else◌,
}
use living_api_contract_guar.Common.Sets.{elem, distinct}
use living_api_contract_guar.Common.Dict.{get, only_in}
use living_api_contract_guar.Common.Text.{lower, text_length, ◌<>◌}
use living_api_contract_guar.Json.Value.{
  null, str, texts, entries, fields_of, as_dict, get_value, items, truthy,
}
use living_api_contract_guar.Diff.Models.{RawChange, ChangeReport, openapi}
use living_api_contract_guar.Diff.OpenApi.Reading.{
  paths, operations, resolve_schema, request_body_schema, response_schema, iterate, required_names,
}
use living_api_contract_guar.Diff.OpenApi.Paths.{methods_of, walk_openapi}
use living_api_contract_guar.Diff.OpenApi.Readable.{readable}
use living_api_contract_guar.Diff.OpenApi.Events.{path_events}
use living_api_contract_guar.Diff.Proto.Descriptors.{ServiceDescriptor}
use living_api_contract_guar.Diff.Proto.Service.{diff_service}
use living_api_contract_guar.Diff.Proto.SilentService.{SameMethods, diff_service-silent}
use living_api_contract_guar.Diff.Proto.Message.{diff_message}
use living_api_contract_guar.Diff.Proto.Silent.{is_well_formed, IsSame, diff_message-silent}
use living_api_contract_guar.Diff.Clients.{endpoint_keys_from_change, affected_clients}
use living_api_contract_guar.Diff.Clients.Join.{calls, affected_clients-join}
use living_api_contract_guar.Diff.Contracts.{
  returned, raised, walk_error, report, dict, diff_contracts,
}
use living_api_contract_guar.Diff.Contracts.Rules.{IsClassified, diff_contracts-IsClassified}
use living_api_contract_guar.Diff.Contracts.Gate.{
  diff_contracts_self, diff_contracts-changes, diff_contracts_returns, path_removal_gate,
}
use living_api_contract_guar.Diff.Tests.Walks.{changes_of_removal, changes_of_nothing}
use living_api_contract_guar.Diff.Tests.Data.{
  environment, quote, number_name, pets, owners, user, user_reordered, removal, calls_to_pets,
}

pets-readable : readable pets ≡ true
unfolding paths operations as_dict get_value get entries fields_of iterate truthy required_names
    request_body_schema response_schema resolve_schema items elem lower
pets-readable = refl

owners-readable : readable owners ≡ true
unfolding paths operations as_dict get_value get entries fields_of iterate truthy required_names
    request_body_schema response_schema resolve_schema items elem lower
owners-readable = refl

-- The report of the removal of /pets.
abbrev removal_report :
    (r : ChangeReport) × (diff_contracts environment openapi
        (dict pets)
        (dict owners)
        none
        none
        false
      ≡ returned r)
removal_report = (
  _,
  diff_contracts-changes environment none none pets owners changes_of_removal.0
      changes_of_removal.1,
)

diff_contracts_returns_example :
    (walked : List RawChange) × (walk_openapi quote pets owners ≡ some walked)
    × (diff_contracts environment openapi (dict pets) (dict owners) none none false ≡ (
        if all (λ c. leb 1 (text_length c.location) && leb (text_length c.location) 2048) walked
        then returned (report environment openapi none none walked [])
        else raised walk_error))
diff_contracts_returns_example =
    diff_contracts_returns environment none none pets owners false pets-readable owners-readable

path_removal_gate_example : 0 < removal_report.0.summary.breaking
unfolding paths as_dict get_value get entries fields_of
path_removal_gate_example =
    path_removal_gate environment none pets owners "/pets" false removal_report.0 refl refl
      removal_report.1

diff_contracts-IsClassified_example : All IsClassified removal_report.0.changes
diff_contracts-IsClassified_example =
    diff_contracts-IsClassified environment none openapi (dict pets) (dict owners) false
      removal_report.0 removal_report.1

unchanged_report :
    (r : ChangeReport) × (diff_contracts environment openapi (dict pets) (dict pets) none none false
      ≡ returned r)
unchanged_report = (
  _,
  diff_contracts-changes environment none none pets pets changes_of_nothing.0 changes_of_nothing.1,
)

diff_contracts_self_example : unchanged_report.0.changes ≡ []
diff_contracts_self_example =
    diff_contracts_self environment none none openapi (dict pets) false unchanged_report.0
      unchanged_report.1

path_events_example :
    (select (λ c. c.kind == "openapi.path.removed") changes_of_removal.0
      ≡ map
          (λ path. record {
            kind = "openapi.path.removed";
            location = "/paths/" <> path;
            before = get_or (get path (paths pets)) null;
            after = null;
            detail =
                ("path", str path)
                ∷ ("methods", texts (methods_of (get_or (get path (paths pets)) null)))
                ∷ [];
          })
          (only_in (paths pets) (paths owners)))
    × (select (λ c. c.kind == "openapi.path.added") changes_of_removal.0
        ≡ map
            (λ path. record {
              kind = "openapi.path.added";
              location = "/paths/" <> path;
              before = null;
              after = get_or (get path (paths owners)) null;
              detail =
                  ("path", str path)
                  ∷ ("methods", texts (methods_of (get_or (get path (paths owners)) null)))
                  ∷ [];
            })
            (only_in (paths owners) (paths pets)))
path_events_example = path_events quote pets owners changes_of_removal.0 changes_of_removal.1

diff_message-silent_example :
    (diff_message number_name number_name "app.User" user user_reordered ≡ [])
    ↔ IsSame number_name number_name user user_reordered
unfolding is_well_formed distinct elem
diff_message-silent_example =
    diff_message-silent number_name number_name "app.User" user user_reordered refl refl

affected_clients-join_example :
    elem "shop" (get_or (get 0 (affected_clients calls_to_pets (removal ∷ []))) [])
    ≡ any (λ k. any (calls "shop" k) calls_to_pets) (endpoint_keys_from_change removal)
affected_clients-join_example =
    affected_clients-join calls_to_pets (removal ∷ []) 0 removal "shop" refl

abbrev lookup : String → ServiceDescriptor
lookup output = record {
  name = "Users";
  method = record { name = "Get"; input_type = ".app.Id"; output_type = output } ∷ [];
}

diff_service-silent_example :
    (diff_service "app.Users" (lookup ".app.User") (lookup ".app.Person") ≡ [])
    ↔ SameMethods (lookup ".app.User") (lookup ".app.Person")
diff_service-silent_example =
    diff_service-silent "app.Users" (lookup ".app.User") (lookup ".app.Person")
