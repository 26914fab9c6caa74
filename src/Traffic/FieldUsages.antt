-- ===== src/Traffic/FieldUsages.antt =====
-- packages/guardian_core/traffic/ingestor.py: the rows of `field_usages`. In SQL a NULL is equal to
-- nothing, so a row without a client never conflicts with another on the unique key.
pub mod Again
use living_api_contract_guar.Common.{
  ℕ, zero, suc, ◌+◌, String, Bool, true, false, not, Option, none, some, List, [], ◌∷◌, ◌++◌, map,
  ◌&&◌, ◌==◌, string_key, pair_key, get_or, if◌then◌else◌,
}
use living_api_contract_guar.Common.Dict.{Dict, get, put}
use living_api_contract_guar.Json.Value.{Value, is_null}
use living_api_contract_guar.Traffic.Inference.{walk_field_paths}
use living_api_contract_guar.Traffic.Tables.{Datetime, FieldUsage, max_timestamp}
use living_api_contract_guar.Traffic.Endpoints.{NormalizedRecord}

-- The values of `field_counts`; a key has the path and the role.
pub record FieldCount : Type 0 where
  pub count : ℕ
  pub json_types : Dict String ℕ
  pub last_seen_at : Datetime

abbrev pub FieldCounts : Type 0
FieldCounts = Dict (String × String) FieldCount

abbrev fresh_count : Datetime → FieldCount
fresh_count timestamp = record { count = 0; json_types = []; last_seen_at = timestamp }

unfoldable pub count_once : Datetime → String → FieldCount → FieldCount
unfolding get put max_timestamp
count_once timestamp jtype entry = record {
  count = entry.count + 1;
  json_types = put jtype (get_or (get jtype entry.json_types) 0 + 1) entry.json_types;
  last_seen_at = max_timestamp timestamp entry.last_seen_at;
}

-- The loop over the paths of a body.
unfoldable pub count_paths : Datetime → String → List (String × String) → FieldCounts → FieldCounts
unfolding get put count_once
count_paths timestamp role [] counts = counts
count_paths timestamp role ((path, jtype) ∷ paths) counts =
    let key : String × String = (path, role) in
    let entry = get_or (get key counts) (fresh_count timestamp) in
    count_paths timestamp role paths (put key (count_once timestamp jtype entry) counts)

unfoldable pub count_body : Datetime → String → Value → FieldCounts → FieldCounts
unfolding is_null walk_field_paths count_paths
count_body timestamp role body counts =
    if is_null body then counts else count_paths timestamp role (walk_field_paths body "$") counts

-- The loop over the records of an endpoint.
unfoldable pub count_fields : List NormalizedRecord → FieldCounts → FieldCounts
unfolding count_body
count_fields [] counts = counts
count_fields (rec ∷ records) counts = count_fields records (
    count_body rec.timestamp "response" rec.response_body
      (count_body rec.timestamp "request" rec.request_body counts))

abbrev usage_of : String → Option String → String → (String × String) × FieldCount → FieldUsage
usage_of endpoint_id client_id batch_hash (key, entry) = record {
  endpoint_id = endpoint_id;
  field_path = key.0;
  field_role = key.1;
  client_id = client_id;
  ingest_batch_hash = batch_hash;
  count = entry.count;
  last_seen_at = entry.last_seen_at;
  json_types = entry.json_types;
}

-- The rows of one endpoint.
unfoldable pub field_usage_rows :
    String → Option String → String → List NormalizedRecord → List FieldUsage
unfolding count_fields
field_usage_rows endpoint_id client_id batch_hash records =
    map (usage_of endpoint_id client_id batch_hash) (count_fields records [])

-- `=` of SQL on a column that may be NULL
abbrev sql_equal : Option String → Option String → Bool
sql_equal none d = false
sql_equal (some c) none = false
sql_equal (some c) (some d) = c == d

-- A conflict on `uq_field_usages_idempotency`.
unfoldable pub conflicts : FieldUsage → FieldUsage → Bool
conflicts new old =
    (old.endpoint_id == new.endpoint_id)
    && (old.field_path == new.field_path)
    && (old.field_role == new.field_role)
    && sql_equal old.client_id new.client_id
    && (old.ingest_batch_hash == new.ingest_batch_hash)

-- One row of the insertion, which on conflict refreshes `last_seen_at` alone.
unfoldable pub upsert_field_usage : FieldUsage → List FieldUsage → List FieldUsage
unfolding conflicts
upsert_field_usage new [] = new ∷ []
upsert_field_usage new (old ∷ rows) =
    let rest = upsert_field_usage new rows in
    if conflicts new old then record old { last_seen_at = new.last_seen_at } ∷ rows else old ∷ rest

-- `_bulk_upsert_field_usages`
unfoldable pub bulk_upsert_field_usages : List FieldUsage → List FieldUsage → List FieldUsage
unfolding upsert_field_usage
bulk_upsert_field_usages [] rows = rows
bulk_upsert_field_usages (new ∷ news) rows =
    bulk_upsert_field_usages news (upsert_field_usage new rows)
