-- ===== src/Traffic/Ingest.antt =====
-- packages/guardian_core/traffic/ingestor.py: `ingest_traffic` on the rows of the database.
pub mod Rerun
use living_api_contract_guar.Common.{
  ℕ, ◌+◌, String, Bool, true, false, not, Option, none, some, List, [], ◌∷◌, ◌++◌, select, any,
  length, ◌&&◌, ◌||◌, ◌==◌, string_key, is_some, get_or, if◌then◌else◌,
}
use living_api_contract_guar.Common.Dict.{Dict, get, keys}
use living_api_contract_guar.Common.Text.{◌<>◌}
use living_api_contract_guar.Json.Value.{Value, null, obj, entries, as_dict}
use living_api_contract_guar.Diff.Raising.{◌>>=◌}
use living_api_contract_guar.Api.Tables.{Contract, ContractVersion, first, newest_first}
use living_api_contract_guar.Traffic.UrlMatch.{Node, build_route_tree}
use living_api_contract_guar.Traffic.Records.{parse_har, parse_grpc_log}
use living_api_contract_guar.Traffic.Defacto.{build_defacto_contract}
use living_api_contract_guar.Traffic.Tables.{Datetime, IngestBatch, Database}
use living_api_contract_guar.Traffic.Endpoints.{
  NormalizedRecord, normalize_har, normalize_grpc, group_by_endpoint,
}
use living_api_contract_guar.Traffic.FieldUsages.{bulk_upsert_field_usages}
use living_api_contract_guar.Traffic.Collect.{Tools, collect_groups}

pub record IngestResult : Type 0 where
  pub batch_id : String
  pub batch_hash : String
  pub defacto_contract_id : String
  pub record_count : ℕ
  pub observed_endpoint_count : ℕ
  pub field_usage_row_count : ℕ
  pub matched_endpoint_count : ℕ
  pub is_duplicate_batch : Bool

-- `if data:` for bytes that may be None
abbrev pub is_given : Option String → Bool
is_given none = false
is_given (some s) = not (s == "")

module _ (tools : Tools) (now : Datetime) where
  -- `compute_batch_hash`
  unfoldable pub compute_batch_hash : Option String → Option String → String
  compute_batch_hash har grpc = tools.sha256 (
      (if is_given har then "HAR\n" <> get_or har "" else "")
      <> (if is_given grpc then "\nGRPC\n" <> get_or grpc "" else ""))

  abbrev is_openapi : List Contract → ContractVersion → Bool
  is_openapi contracts v = any (λ c. (c.id == v.contract_id) && (c.kind == "openapi")) contracts

  abbrev decoded_spec : List ContractVersion → Dict String Value
  decoded_spec [] = []
  decoded_spec (v ∷ vs) = as_dict (get_or (tools.decoders.loads v.canonical_blob) null)

  -- `_latest_openapi_spec`; no document is an empty one
  unfoldable pub latest_openapi_spec : String → Database → Dict String Value
  unfolding as_dict
  latest_openapi_spec service_id db = decoded_spec (
      newest_first (λ v. v.created_at)
        (select (λ v. (v.service_id == service_id) && is_openapi db.contracts v) db.versions))

  abbrev source_of : Bool → Bool → String
  source_of true true = "har+grpc"
  source_of true false = "har"
  source_of false grpc = "grpc"

  abbrev pub route_tree : Dict String Value → Option Node
  route_tree [] = none
  route_tree (entry ∷ spec) = some (build_route_tree (entry ∷ spec))

  abbrev pub is_batch : String → String → IngestBatch → Bool
  is_batch service_id batch_hash b = (b.service_id == service_id) && (b.batch_hash == batch_hash)

  abbrev pub batch_or_new :
      String
      → Option String
      → Option String
      → Option String
      → String
      → String
      → Option IngestBatch
      → IngestBatch
  batch_or_new service_id har grpc client_id batch_hash id (some existing) = existing
  batch_or_new service_id har grpc client_id batch_hash id none = record {
    id = id;
    service_id = service_id;
    batch_hash = batch_hash;
    source = source_of (is_given har) (is_given grpc);
    client_id = client_id;
    record_count = 0;
  }

  -- The write of `record_count`, which also adds a new batch.
  unfoldable pub save_batch : Bool → IngestBatch → ℕ → List IngestBatch → List IngestBatch
  save_batch is_duplicate batch added [] = record batch { record_count = added } ∷ []
  save_batch is_duplicate batch added (b ∷ batches) =
      let rest = save_batch is_duplicate batch added batches in
      if is_duplicate && is_batch batch.service_id batch.batch_hash b
      then record b { record_count = b.record_count + added } ∷ batches
      else b ∷ rest

  -- `list((spec or {}).get("paths", {}).keys())`
  abbrev keys_of : Option Value → Option (List String)
  keys_of none = some []
  keys_of (some (obj fs)) = some (keys (entries fs))
  keys_of (some v) = none

  abbrev pub static_paths : Dict String Value → Option (List String)
  static_paths spec = keys_of (get "paths" spec)

  -- The part of `ingest_traffic` from the parsed records on.
  unfoldable pub ingest_records :
      String
      → Option String
      → String
      → IngestBatch
      → Bool
      → Dict String Value
      → List NormalizedRecord
      → Database
      → Option (Database × IngestResult)
  unfolding collect_groups group_by_endpoint bulk_upsert_field_usages build_defacto_contract
      save_batch get keys entries
  ingest_records service_id client_id batch_hash batch is_duplicate spec normalized db = do
    collected ←
        collect_groups tools now service_id client_id batch_hash (group_by_endpoint normalized)
          (record {
            observed = db.observed;
            drawn = db.drawn + 1;
            usage_rows = [];
            summaries = [];
            matched_count = 0;
          })
    contract_json ← build_defacto_contract spec collected.summaries
    static ← static_paths spec
    some (
      record db {
        batches = save_batch is_duplicate batch (length normalized) db.batches;
        observed = collected.observed;
        usages = bulk_upsert_field_usages collected.usage_rows db.usages;
        defacto =
            db.defacto
            ++ (record {
              id = tools.new_id collected.drawn;
              service_id = service_id;
              ingest_batch_id = batch.id;
              contract_json = contract_json;
              endpoint_count = length static;
              observed_endpoint_count = length collected.summaries;
            }
                ∷ []);
        drawn = collected.drawn + 1;
      },
      record {
        batch_id = batch.id;
        batch_hash = batch_hash;
        defacto_contract_id = tools.new_id collected.drawn;
        record_count = length normalized;
        observed_endpoint_count = length collected.summaries;
        field_usage_row_count = length collected.usage_rows;
        matched_endpoint_count = collected.matched_count;
        is_duplicate_batch = is_duplicate;
      },
    )

  -- `ingest_traffic`
  unfoldable pub ingest_traffic :
      String
      → Option String
      → Option String
      → Option String
      → Database
      → Option (Database × IngestResult)
  unfolding compute_batch_hash latest_openapi_spec parse_har parse_grpc_log normalize_har
      normalize_grpc build_route_tree ingest_records
  ingest_traffic service_id har grpc client_id db =
      let batch_hash = compute_batch_hash har grpc in
      let existing = first (is_batch service_id batch_hash) db.batches in
      let batch =
        batch_or_new service_id har grpc client_id batch_hash (tools.new_id db.drawn) existing in
      let spec = latest_openapi_spec service_id db in
      if not (is_given har || is_given grpc) then none else do
        har_requests ← parse_har tools.decoders (get_or har "")
        ingest_records service_id client_id batch_hash batch (is_some existing) spec
            (normalize_har tools.fromisoformat now (route_tree spec) har_requests
              ++ normalize_grpc tools.fromisoformat now
                  (parse_grpc_log tools.decoders (get_or grpc "")))
            db
