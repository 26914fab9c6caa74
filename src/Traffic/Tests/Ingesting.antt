-- ===== src/Traffic/Tests/Ingesting.antt =====
-- Runs of the rows of packages/guardian_core/traffic/ingestor.py.
use living_api_contract_guar.Common.{
  String, true, Option, none, some, [], ◌∷◌, ◌≡◌, refl, string_key, pair_key, map, ◌==◌, nat_key,
  if◌then◌else◌,
}
use living_api_contract_guar.Common.Sets.{set_of}
use living_api_contract_guar.Json.Value.{Value, str, object, fields_of}
use living_api_contract_guar.Traffic.Tables.{Datetime, FieldUsage, Database}
use living_api_contract_guar.Traffic.Merge.{
  merge_within, merge_step, merge_dicts, merge_objects, merge_each, with_required,
}
use living_api_contract_guar.Traffic.Collect.{Tools}
use living_api_contract_guar.Traffic.Ingest.{IngestResult, ingest_traffic}
use living_api_contract_guar.Traffic.Ingest.Rerun.{without_count, ingest_traffic_again}
use living_api_contract_guar.Traffic.FieldUsages.{
  bulk_upsert_field_usages, conflicts, upsert_field_usage,
}
use living_api_contract_guar.Traffic.FieldUsages.Again.{untimed, bulk_upsert_again}

abbrev usage : Option String → FieldUsage
usage client_id = record {
  endpoint_id = "e1";
  field_path = "$.id";
  field_role = "request";
  client_id = client_id;
  ingest_batch_hash = "ab12";
  count = 4;
  last_seen_at = record { instant = 1; is_aware = true };
  json_types = ("string", 4) ∷ [];
}

bulk_upsert_again_example :
    map untimed (
      bulk_upsert_field_usages
        (usage (some "billing") ∷ [])
        (bulk_upsert_field_usages (usage (some "billing") ∷ []) []))
    ≡ map untimed (bulk_upsert_field_usages (usage (some "billing") ∷ []) [])
bulk_upsert_again_example =
    bulk_upsert_again (usage (some "billing") ∷ []) (usage (some "billing") ∷ []) [] refl refl

-- Without a client the row is inserted twice.
anonymous_twice :
    bulk_upsert_field_usages (usage none ∷ []) (bulk_upsert_field_usages (usage none ∷ []) [])
    ≡ usage none ∷ usage none ∷ []
unfolding bulk_upsert_field_usages upsert_field_usage conflicts
anonymous_twice = refl

abbrev logged : Value
logged =
    object
      (("path", str "/users.Users/List") ∷ ("request", object (("page", str "first") ∷ [])) ∷ [])

-- Every line of a log is that call; a text is its own hash.
abbrev tools : Tools
tools = record {
  decoders = record {
    loads = λ s. some logged;
    first_item = λ s. none;
    pages = λ fs. [];
    repr = λ v. "";
  };
  genson = λ samples. object (("type", str "object") ∷ []);
  sha256 = λ s. s;
  fromisoformat = λ s. none;
  isoformat = λ t. "2026-05-29T12:00:00+00:00";
  new_id = λ n. if n == 0 then "id0" else "id1";
}

abbrev noon : Datetime
noon = record { instant = 12; is_aware = true }

abbrev no_rows : Database
no_rows = record {
  batches = [];
  observed = [];
  usages = [];
  defacto = [];
  contracts = [];
  versions = [];
  drawn = 0;
}

first_run :
    (db : Database) × (r : IngestResult) × (ingest_traffic tools noon "s1" none
        (some "line")
        (some "billing")
        no_rows
      ≡ some (db, r))
unfolding ingest_traffic fields_of merge_within merge_step
first_run = (_, _, refl)

second_run :
    (db : Database) × (r : IngestResult) × (ingest_traffic tools noon "s1" none
        (some "line")
        none
        first_run.0
      ≡ some (db, r))
unfolding ingest_traffic fields_of merge_within merge_step first_run merge_dicts merge_objects
    merge_each set_of with_required
second_run = (_, _, refl)

ingest_traffic_again_example :
    (second_run.1.is_duplicate_batch ≡ true)
    × (second_run.1.batch_id ≡ first_run.1.batch_id)
    × (map without_count second_run.0.batches ≡ map without_count first_run.0.batches)
ingest_traffic_again_example =
    ingest_traffic_again tools noon noon "s1" none (some "line") (some "billing") none no_rows
      first_run.0 second_run.0 first_run.1 second_run.1 first_run.2 second_run.2
