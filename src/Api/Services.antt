-- ===== src/Api/Services.antt =====
-- apps/api/routes/services.py, with the tables that it reads and writes. `raced` holds the rows that
-- other requests commit between the handler's queries and its commit. A time is a number of
-- microseconds; the n-th identifier that is drawn is `new_id n`.
pub mod First
pub mod Versions
use living_api_contract_guar.Common.{
  ℕ, zero, suc, ◌+◌, String, Bool, true, false, not, Option, none, some, List, [], ◌∷◌, ◌++◌, map,
  select, any, ◌&&◌, ◌==◌, string_key, nat_key, leb, ltb, is_some, if◌then◌else◌,
}
use living_api_contract_guar.Json.Value.{Value}
use living_api_contract_guar.Api.Tables.{
  Answer, Contract, ContractRead, ContractUpload, ContractVersion, Encoding, Registry, Service,
  ServiceCreate, first, head, insert_newer, newest_first, success, not_found, conflict,
  unprocessable, raised,
}

-- `list_services`
unfoldable pub list_services : Registry → List Service
list_services db = newest_first (λ s. s.created_at) db.services

-- `db.get(Service, service_id)`
unfoldable pub find_service : String → Registry → Option Service
find_service service_id db = first (λ s. s.id == service_id) db.services

module _ (encoding : Encoding) (now : ℕ) where
  abbrev new_service : ServiceCreate → ℕ → Service
  new_service payload drawn = record {
    id = encoding.new_id drawn;
    name = payload.name;
    owner = payload.owner;
    created_at = now;
  }

  -- `create_service`; the name is unique
  unfoldable pub create_service : ServiceCreate → Registry → Registry × Answer Service
  create_service payload db =
      let row = new_service payload db.drawn in
      if any (λ s. s.name == payload.name) db.services
      then (db, conflict)
      else (record db { services = db.services ++ (row ∷ []); drawn = db.drawn + 1 }, success row)

abbrev found_service : Option Service → Answer Service
found_service none = not_found
found_service (some s) = success s

-- `get_service`
unfoldable pub get_service : String → Registry → Answer Service
unfolding find_service
get_service service_id db = found_service (find_service service_id db)

abbrev read_contract : String → Bool → Contract → ContractVersion → ContractRead
read_contract service_id created c v = record {
  id = c.id;
  service_id = service_id;
  name = c.name;
  kind = c.kind;
  version = v;
  created = created;
}

abbrev cons_read :
    String → Contract → Option ContractVersion → List ContractRead → List ContractRead
cons_read service_id c none result = result
cons_read service_id c (some latest) result = read_contract service_id false c latest ∷ result

-- The loop of `list_contracts`.
unfoldable pub read_each : String → List ContractVersion → List Contract → List ContractRead
read_each service_id versions [] = []
read_each service_id versions (c ∷ cs) =
    cons_read service_id c
      (head (newest_first (λ v. v.created_at) (select (λ v. v.contract_id == c.id) versions)))
      (read_each service_id versions cs)

abbrev contracts_of : String → Registry → Option Service → Answer (List ContractRead)
contracts_of service_id db none = not_found
contracts_of service_id db (some s) = success (
    read_each service_id db.versions
      (newest_first (λ c. c.created_at) (select (λ c. c.service_id == service_id) db.contracts)))

-- `list_contracts`
unfoldable pub list_contracts : String → Registry → Answer (List ContractRead)
unfolding find_service read_each
list_contracts service_id db = contracts_of service_id db (find_service service_id db)

module _ (encoding : Encoding) where
  -- guardian_core/hashing.py
  abbrev pub canonicalize_openapi : Value → String
  canonicalize_openapi spec = encoding.dumps spec

  abbrev pub canonicalize_proto : String → String
  canonicalize_proto raw = raw

  abbrev pub compute_version_hash : String → String
  compute_version_hash canonical_bytes = encoding.sha256 canonical_bytes

  abbrev openapi_bytes : Option Value → Option (String × String)
  openapi_bytes none = none
  openapi_bytes (some spec) = some (canonicalize_openapi spec, canonicalize_openapi spec)

  abbrev proto_bytes : Option String → Option (String × String)
  proto_bytes none = none
  proto_bytes (some spec_b64) =
      let raw = encoding.b64decode spec_b64 in some (raw, canonicalize_proto raw)

  -- `_materialize_spec_bytes`; `none` is the answer 422
  unfoldable pub materialize_spec_bytes : ContractUpload → Option (String × String)
  materialize_spec_bytes payload =
      if payload.kind == "openapi" then openapi_bytes payload.spec else proto_bytes payload.spec_b64

abbrev pub is_version : String → String → ContractVersion → Bool
is_version service_id version_hash v =
    (v.service_id == service_id) && (v.version_hash == version_hash)

-- the query for the same version of the service
unfoldable pub find_version : String → String → List ContractVersion → Option ContractVersion
find_version service_id version_hash versions = first (is_version service_id version_hash) versions

abbrev is_contract : String → String → Contract → Bool
is_contract service_id name c = (c.service_id == service_id) && (c.name == name)

module _ (encoding : Encoding) (now : ℕ) (raced : Registry) where
  abbrev new_contract : String → ContractUpload → ℕ → Contract
  new_contract service_id payload drawn = record {
    id = encoding.new_id drawn;
    service_id = service_id;
    name = payload.name;
    kind = payload.kind;
    created_at = now;
  }

  abbrev new_version : String → Contract → ContractUpload → String → String → ℕ → ContractVersion
  new_version service_id contract payload raw_bytes canonical_bytes drawn = record {
    id = encoding.new_id drawn;
    contract_id = contract.id;
    service_id = service_id;
    version_hash = compute_version_hash encoding canonical_bytes;
    raw_blob = raw_bytes;
    canonical_blob = canonical_bytes;
    spec_metadata = payload.spec_metadata;
    created_at = now;
  }

  -- The rows that stand in the database when the handler commits.
  abbrev pub with_raced : Registry → Registry
  with_raced db = record db {
    services = db.services ++ raced.services;
    contracts = db.contracts ++ raced.contracts;
    versions = db.versions ++ raced.versions;
  }

  -- The commit of the version: the unique key on the service and the hash may refuse it, and the
  -- rollback then drops a new contract too, which `db` does not have yet.
  unfoldable pub commit_version :
      String
      → Contract
      → List Contract
      → ContractUpload
      → String
      → String
      → ℕ
      → Registry
      → Registry × Answer ContractRead
  unfolding find_version
  commit_version service_id contract added payload raw_bytes canonical_bytes drawn db =
      let version = new_version service_id contract payload raw_bytes canonical_bytes drawn in
      if is_some (find_version service_id version.version_hash db.versions)
      then (db, conflict)
      else (
        record db {
          contracts = db.contracts ++ added;
          versions = db.versions ++ (version ∷ []);
          drawn = drawn + 1;
        },
        success (read_contract service_id true contract version),
      )

  -- A new contract is flushed outside the `try`, so a raced contract of that name raises.
  unfoldable pub upload_to :
      String
      → ContractUpload
      → String
      → String
      → Option Contract
      → Registry
      → Registry × Answer ContractRead
  unfolding commit_version
  upload_to service_id payload raw_bytes canonical_bytes (some contract) db =
      if contract.kind == payload.kind
      then commit_version service_id contract [] payload raw_bytes canonical_bytes db.drawn
          (with_raced db)
      else (with_raced db, conflict)
  upload_to service_id payload raw_bytes canonical_bytes none db =
      let contract = new_contract service_id payload db.drawn in
      if any (is_contract service_id payload.name) raced.contracts
      then (with_raced db, raised)
      else commit_version service_id contract (contract ∷ []) payload raw_bytes canonical_bytes
          (db.drawn + 1) (with_raced db)

  -- `assert contract is not None`
  abbrev read_existing : String → ContractVersion → Option Contract → Answer ContractRead
  read_existing service_id v none = raised
  read_existing service_id v (some contract) = success (read_contract service_id false contract v)

  unfoldable pub upload_unless :
      String
      → ContractUpload
      → String
      → String
      → Option ContractVersion
      → Registry
      → Registry × Answer ContractRead
  unfolding upload_to
  upload_unless service_id payload raw_bytes canonical_bytes (some existing) db = (
    with_raced db,
    read_existing service_id existing (first (λ c. c.id == existing.contract_id) db.contracts),
  )
  upload_unless service_id payload raw_bytes canonical_bytes none db =
      upload_to service_id payload raw_bytes canonical_bytes
        (first (is_contract service_id payload.name) db.contracts) db

  abbrev upload_bytes :
      String → ContractUpload → Option (String × String) → Registry → Registry × Answer ContractRead
  upload_bytes service_id payload none db = (with_raced db, unprocessable)
  upload_bytes service_id payload (some bytes) db =
      upload_unless service_id payload bytes.0 bytes.1
        (find_version service_id (compute_version_hash encoding bytes.1) db.versions) db

  abbrev upload_found :
      String → ContractUpload → Option Service → Registry → Registry × Answer ContractRead
  upload_found service_id payload none db = (with_raced db, not_found)
  upload_found service_id payload (some service) db =
      upload_bytes service_id payload (materialize_spec_bytes encoding payload) db

  -- `upload_contract`
  unfoldable pub upload_contract :
      String → ContractUpload → Registry → Registry × Answer ContractRead
  unfolding find_service find_version materialize_spec_bytes upload_unless
  upload_contract service_id payload db =
      upload_found service_id payload (find_service service_id db) db
