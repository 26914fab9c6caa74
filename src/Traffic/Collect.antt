-- ===== src/Traffic/Collect.antt =====
-- packages/guardian_core/traffic/ingestor.py: the loop of `ingest_traffic` over the endpoints. genson,
-- SHA-256, the JSON and time formats and the drawn identifiers are parameters; the identifier of a row
-- that was there already is drawn and not used.
use living_api_contract_guar.Common.{
  ℕ, ◌+◌, String, not, Option, some, List, [], ◌∷◌, ◌++◌, map, select, any, length, string_key,
  if◌then◌else◌,
}
use living_api_contract_guar.Json.Value.{Value, is_null}
use living_api_contract_guar.Diff.Raising.{◌>>=◌}
use living_api_contract_guar.Traffic.Records.{Decoders}
use living_api_contract_guar.Traffic.Inference.{infer_schema}
use living_api_contract_guar.Traffic.Defacto.{ObservedSummary}
use living_api_contract_guar.Traffic.Tables.{Datetime, ObservedEndpoint, FieldUsage, max_timestamp}
use living_api_contract_guar.Traffic.Endpoints.{NormalizedRecord, Groups, upsert_observed_endpoint}
use living_api_contract_guar.Traffic.FieldUsages.{field_usage_rows}

pub record Tools : Type 0 where
  pub decoders : Decoders
  pub genson : List Value → Value
  pub sha256 : String → String
  pub fromisoformat : String → Option Datetime
  pub isoformat : Datetime → String
  pub new_id : ℕ → String

-- What the loop over the groups has collected.
pub record Collected : Type 0 where
  pub observed : List ObservedEndpoint
  pub drawn : ℕ
  pub usage_rows : List FieldUsage
  pub summaries : List ObservedSummary
  pub matched_count : ℕ

-- `max` over the times of the records, the first of equal ones
abbrev latest_of : Datetime → List NormalizedRecord → Datetime
latest_of best [] = best
latest_of best (r ∷ records) = latest_of (max_timestamp best r.timestamp) records

abbrev latest_time : Datetime → List NormalizedRecord → Datetime
latest_time now [] = now
latest_time now (r ∷ records) = latest_of r.timestamp records

module _ (tools : Tools) (now : Datetime) where
  abbrev samples_of : (NormalizedRecord → Value) → List NormalizedRecord → List Value
  samples_of body records = select (λ v. not (is_null v)) (map body records)

  -- What the loop collects from a group whose row is `found`.
  unfoldable pub collect_found :
      Option String
      → String
      → String
      → String
      → List NormalizedRecord
      → Collected
      → List ObservedEndpoint
      → ObservedEndpoint
      → Collected
  unfolding field_usage_rows
  collect_found client_id batch_hash method template records collected rows found =
      let matched_any = any (λ r. r.matched) records in
      record {
        observed = rows;
        drawn = collected.drawn + 1;
        usage_rows = collected.usage_rows ++ field_usage_rows found.id client_id batch_hash records;
        summaries =
            collected.summaries
            ++ (record {
              method = method;
              path_template = template;
              request_schema = found.request_schema;
              response_schema = found.response_schema;
              sample_count = found.sample_count;
              last_seen_at = tools.isoformat found.last_seen_at;
              matched = matched_any;
            }
                ∷ []);
        matched_count =
            if matched_any then collected.matched_count + 1 else collected.matched_count;
      }

  -- The body of the loop over the groups.
  unfoldable pub collect_group :
      String
      → Option String
      → String
      → String
      → String
      → List NormalizedRecord
      → Collected
      → Option Collected
  unfolding infer_schema upsert_observed_endpoint collect_found max_timestamp is_null
  collect_group service_id client_id batch_hash method template records collected = do
    req_schema ← infer_schema tools.genson (samples_of (λ r. r.request_body) records)
    resp_schema ← infer_schema tools.genson (samples_of (λ r. r.response_body) records)
    upserted ←
        upsert_observed_endpoint (tools.new_id collected.drawn)
          (record {
            service_id = service_id;
            method = method;
            path_template = template;
            request_schema = req_schema;
            response_schema = resp_schema;
            new_samples = length records;
            last_seen_at = latest_time now records;
          })
          collected.observed
    some
        (collect_found client_id batch_hash method template records collected upserted.0 upserted.1)

  unfoldable pub collect_groups :
      String → Option String → String → Groups → Collected → Option Collected
  unfolding collect_group
  collect_groups service_id client_id batch_hash [] collected = some collected
  collect_groups service_id client_id batch_hash ((key, records) ∷ groups) collected = do
    next ← collect_group service_id client_id batch_hash key.0 key.1 records collected
    collect_groups service_id client_id batch_hash groups next
