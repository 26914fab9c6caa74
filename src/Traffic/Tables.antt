-- ===== src/Traffic/Tables.antt =====
-- The times of packages/guardian_core/traffic/ingestor.py and the tables that it reads and writes.
-- A time has its instant in UTC, in microseconds, and whether it carries a time zone.
use living_api_contract_guar.Common.{
  ℕ, String, Bool, true, Option, none, some, List, ◌==◌, string_key, leb, if◌then◌else◌,
}
use living_api_contract_guar.Common.Dict.{Dict}
use living_api_contract_guar.Common.Text.{◌<>◌, ends_with, drop_last}
use living_api_contract_guar.Json.Value.{Value}
use living_api_contract_guar.Api.Tables.{Contract, ContractVersion}

pub record Datetime : Type 0 where
  pub instant : ℕ
  pub is_aware : Bool

pub record IngestBatch : Type 0 where
  pub id : String
  pub service_id : String
  pub batch_hash : String
  pub source : String
  pub client_id : Option String
  pub record_count : ℕ

pub record ObservedEndpoint : Type 0 where
  pub id : String
  pub service_id : String
  pub method : String
  pub path_template : String
  pub request_schema : Value
  pub response_schema : Value
  pub sample_count : ℕ
  pub last_seen_at : Datetime

pub record FieldUsage : Type 0 where
  pub endpoint_id : String
  pub field_path : String
  pub field_role : String
  pub client_id : Option String
  pub ingest_batch_hash : String
  pub count : ℕ
  pub last_seen_at : Datetime
  pub json_types : Dict String ℕ

pub record DefactoContract : Type 0 where
  pub id : String
  pub service_id : String
  pub ingest_batch_id : String
  pub contract_json : Dict String Value
  pub endpoint_count : ℕ
  pub observed_endpoint_count : ℕ

-- The n-th identifier that is drawn is `new_id n`.
pub record Database : Type 0 where
  pub batches : List IngestBatch
  pub observed : List ObservedEndpoint
  pub usages : List FieldUsage
  pub defacto : List DefactoContract
  pub contracts : List Contract
  pub versions : List ContractVersion
  pub drawn : ℕ

-- `_as_aware`: a naive time is read as UTC
abbrev pub as_aware : Datetime → Datetime
as_aware t = record t { is_aware = true }

-- `_max_timestamp`
unfoldable pub max_timestamp : Datetime → Datetime → Datetime
max_timestamp a b = if leb (as_aware b).instant (as_aware a).instant then a else b

module _ (fromisoformat : String → Option Datetime) (now : Datetime) where
  abbrev aware_or_now : Option Datetime → Datetime
  aware_or_now none = now
  aware_or_now (some t) = as_aware t

  abbrev with_offset : String → String
  with_offset raw = if ends_with 90 raw then drop_last raw <> "+00:00" else raw

  abbrev parsed : String → Datetime
  parsed raw = if raw == "" then now else aware_or_now (fromisoformat (with_offset raw))

  -- `_parse_timestamp`
  unfoldable pub parse_timestamp : Option String → Datetime
  unfolding ends_with drop_last
  parse_timestamp none = now
  parse_timestamp (some raw) = parsed raw
