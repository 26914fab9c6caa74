-- ===== src/Api/Tests.antt =====
-- Runs of the handlers of apps/api/routes.
use living_api_contract_guar.Common.{
  String, true, false, none, some, List, [], ◌∷◌, ◌++◌, ◌≡◌, refl, arith, string_key,
}
use living_api_contract_guar.Common.Text.{◌<>◌}
use living_api_contract_guar.Json.Value.{Value, str, obj, end}
use living_api_contract_guar.Api.Tables.{
  Registry, ContractUpload, ContractRead, Encoding, success, first,
}
use living_api_contract_guar.Api.Services.{upload_contract}
use living_api_contract_guar.Api.Services.Versions.{no_race, upload_contract_again}
use living_api_contract_guar.Api.CiRuns.{CiRun, CiRunCreate, has_key, upsert_ci_run}
use living_api_contract_guar.Api.CiRuns.Upsert.{Upserted, upsert_ci_run-rows}

abbrev dump : Value → String
dump (str s) = s
dump v = "{}"

abbrev encoding : Encoding
encoding = record { dumps = dump; b64decode = λ s. s; sha256 = λ s. "#" <> s; new_id = λ n. "id" }

abbrev registry : Registry
registry = record {
  services = record { id = "s1"; name = "users"; owner = "core"; created_at = 1 } ∷ [];
  contracts = [];
  versions = [];
  drawn = 0;
}

abbrev upload : ContractUpload
upload = record {
  name = "users.openapi";
  kind = "openapi";
  spec = some (obj end);
  spec_b64 = none;
  spec_metadata = obj end;
}

uploaded :
    (db : Registry) × (read : ContractRead) × (upload_contract encoding 5 no_race "s1" upload
        registry
      ≡ (db, success read))
unfolding upload_contract
uploaded = (_, _, refl)

upload_contract_again_example :
    (again : ContractRead) × (upload_contract encoding 9 no_race "s1" upload uploaded.0
      ≡ (uploaded.0, success again))
    × (again.version ≡ uploaded.1.version)
    × (again.created ≡ false)
upload_contract_again_example =
    upload_contract_again encoding 5 9 no_race "s1" upload registry uploaded.0 uploaded.1 uploaded.2

abbrev run : String → CiRun
run head_sha = record {
  id = "r1";
  repo = "org/api";
  pr_number = 7;
  head_sha = head_sha;
  base_sha = "0000000";
  conclusion = "failure";
  report_json = obj end;
  bypass_label_present = false;
  check_run_id = some 3;
  created_at = 1;
}

abbrev payload : CiRunCreate
payload = record {
  repo = "org/api";
  pr_number = 7;
  head_sha = "abcdef1";
  base_sha = "0000000";
  conclusion = "success";
  report_json = obj end;
  bypass_label_present = true;
  check_run_id = none;
}

abbrev runs : List CiRun
runs = run "1234567" ∷ run "abcdef1" ∷ []

upserted :
    (rows : List CiRun) × (row : CiRun) × (upsert_ci_run "r2" 5 payload runs []
      ≡ (rows, success row))
unfolding upsert_ci_run
upserted = (_, _, refl)

upsert_ci_run-rows_example :
    Upserted "r2" payload (runs ++ []) (first (has_key payload) runs) upserted.0 upserted.1
upsert_ci_run-rows_example =
    upsert_ci_run-rows "r2" 5 payload runs [] upserted.0 upserted.1 (omega arith) upserted.2
