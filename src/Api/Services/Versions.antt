-- ===== src/Api/Services/Versions.antt =====
-- `upload_contract` for a specification that it has stored.
use mathlib.Core.List.{append-nil}
use living_api_contract_guar.Common.{
  ℕ, ◌+◌, String, Bool, true, false, Option, none, some, List, [], ◌∷◌, ◌++◌, any, ◌==◌, ◌≡◌, refl,
  string_key, nat_key, is_some, beq_refl, and_both, if◌then◌else◌,
}
use living_api_contract_guar.Api.Tables.{
  Service, Contract, ContractVersion, Registry, ContractUpload, ContractRead, Encoding, Answer,
  success, first, conflict,
}
use living_api_contract_guar.Api.Services.{
  find_service, materialize_spec_bytes, compute_version_hash, find_version, is_version, is_contract,
  with_raced, read_contract, read_existing, new_version, new_contract, commit_version, upload_to,
  upload_unless, upload_bytes, upload_found, upload_contract,
}
use living_api_contract_guar.Api.Services.First.{
  first-append_left, first-exists, first-exists_snoc, first-snoc, none_of,
}

abbrev pub no_race : Registry
no_race = record { services = []; contracts = []; versions = []; drawn = 0 }

with_raced-no_race :
    (encoding : Encoding) (now : ℕ) (db : Registry) → with_raced encoding now no_race db ≡ db
with_raced-no_race encoding now db =
    rw (append-nil db.services, append-nil db.contracts, append-nil db.versions) refl

abbrev answered : Registry → Answer ContractRead → Registry × Answer ContractRead
answered db answer = (db, answer)

abbrev chosen :
    Bool
    → Registry × Answer ContractRead
    → Registry × Answer ContractRead
    → Registry × Answer ContractRead
chosen b p q = if b then p else q

-- What stands in the database after an upload that succeeded.
record Stored (encoding : Encoding) (service_id : String) (payload : ContractUpload) (db : Registry)
    (read : ContractRead) : Type 0 where
  service : Service
  bytes : String × String
  contract : Contract
  served : find_service service_id db ≡ some service
  given : materialize_spec_bytes encoding payload ≡ some bytes
  version :
      find_version service_id (compute_version_hash encoding bytes.1) db.versions
      ≡ some read.version
  owned : first (λ c. c.id == read.version.contract_id) db.contracts ≡ some contract

upload-Stored :
    (encoding : Encoding) (now : ℕ) (service_id : String) (payload : ContractUpload)
    → (db : Registry) (read : ContractRead) → Stored encoding service_id payload db read
    → (again : ContractRead) × (upload_contract encoding now no_race service_id payload db
        ≡ (db, success again))
      × (again.version ≡ read.version)
      × (again.created ≡ false)
unfolding upload_contract upload_unless
upload-Stored encoding now service_id payload db read stored = (
  read_contract service_id false stored.contract read.version,
  rw (stored.served, stored.given, stored.version, stored.owned, with_raced-no_race encoding now db)
      refl,
  refl,
  refl,
)

module _ (encoding : Encoding) (now : ℕ) (raced : Registry) (service_id : String)
    (payload : ContractUpload) (db db2 : Registry) (read : ContractRead) where
  abbrev before_commit : Registry
  before_commit = with_raced encoding now raced db

  commit_by :
      (b : Bool) (service : Service) (bytes : String × String) (contract : Contract)
      → (added : List Contract) (drawn : ℕ)
      → (let version =
            new_version encoding now raced service_id contract payload bytes.0 bytes.1 drawn in
          is_some (find_version service_id version.version_hash before_commit.versions) ≡ b
          → find_service service_id db ≡ some service
          → materialize_spec_bytes encoding payload ≡ some bytes
          → (c : Contract)
          → first (λ d. d.id == contract.id) (before_commit.contracts ++ added) ≡ some c
          → chosen b
              (before_commit, conflict)
              (
                record before_commit {
                  contracts = before_commit.contracts ++ added;
                  versions = before_commit.versions ++ (version ∷ []);
                  drawn = drawn + 1;
                },
                success (read_contract service_id true contract version),
              )
            ≡ (db2, success read)
          → Stored encoding service_id payload db2 read)
  unfolding find_version find_service
  commit_by true service bytes contract added drawn e h q c r t = absurd cc
  commit_by false service bytes contract added drawn e h q c r t =
      let version =
        new_version encoding now raced service_id contract payload bytes.0 bytes.1 drawn in
      let state : record before_commit {
        contracts = before_commit.contracts ++ added;
        versions = before_commit.versions ++ (version ∷ []);
        drawn = drawn + 1;
      }
          ≡ db2 =
        cc t in
      let answer : read_contract service_id true contract version ≡ read = cc t in
      rw (← state, ← answer)
        (record {
          service = service;
          bytes = bytes;
          contract = c;
          served = first-append_left (λ s. s.id == service_id) db.services raced.services service h;
          given = q;
          version =
              first-snoc (is_version service_id version.version_hash) before_commit.versions version
                (and_both _ _ (beq_refl service_id) (beq_refl version.version_hash)) (none_of _ e);
          owned = r;
        })

  -- An answer of either of two ways of going on.
  branch :
      (b : Bool) (p q : Registry × Answer ContractRead)
      → (p ≡ (db2, success read) → Stored encoding service_id payload db2 read)
      → (q ≡ (db2, success read) → Stored encoding service_id payload db2 read)
      → (if b then p else q) ≡ (db2, success read)
      → Stored encoding service_id payload db2 read
  branch true p q f g h = f h
  branch false p q f g h = g h

  module _ (service : Service) (bytes : String × String)
      (h : find_service service_id db ≡ some service)
      (q : materialize_spec_bytes encoding payload ≡ some bytes) where
    upload_to-Stored :
        (o : Option Contract)
        → first (is_contract service_id payload.name) db.contracts ≡ o
        → upload_to encoding now raced service_id payload bytes.0 bytes.1 o db ≡ (db2, success read)
        → Stored encoding service_id payload db2 read
    unfolding upload_to commit_version
    upload_to-Stored (some contract) e t =
        let owner =
          first-exists (is_contract service_id payload.name) (λ d. d.id == contract.id) db.contracts
            contract e (beq_refl contract.id) in
        let owned =
          first-append_left (λ d. d.id == contract.id) (before_commit.contracts) [] owner.0
            (first-append_left (λ d. d.id == contract.id) db.contracts raced.contracts owner.0
              owner.1) in
        branch (contract.kind == payload.kind) _ _
          (commit_by _ service bytes contract [] db.drawn refl h q owner.0 owned) (λ r. absurd cc) t
    upload_to-Stored none e t =
        let contract = new_contract encoding now raced service_id payload db.drawn in
        let owner =
          first-exists_snoc (λ d. d.id == contract.id) before_commit.contracts contract
            (beq_refl contract.id) in
        branch (any (is_contract service_id payload.name) raced.contracts) _ _ (λ r. absurd cc)
          (commit_by _ service bytes contract (contract ∷ []) (db.drawn + 1) refl h q owner.0
            owner.1)
          t

    upload_unless-Stored :
        (o : Option ContractVersion)
        → find_version service_id (compute_version_hash encoding bytes.1) db.versions ≡ o
        → upload_unless encoding now raced service_id payload bytes.0 bytes.1 o db
          ≡ (db2, success read)
        → Stored encoding service_id payload db2 read
    unfolding upload_unless find_version find_service
    upload_unless-Stored none e t =
        upload_to-Stored (first (is_contract service_id payload.name) db.contracts) refl t
    upload_unless-Stored (some existing) e t =
        read_existing-Stored (first (λ c. c.id == existing.contract_id) db.contracts) refl t
      where
        read_existing-Stored :
            (o : Option Contract)
            → first (λ c. c.id == existing.contract_id) db.contracts ≡ o
            → answered before_commit (read_existing encoding now raced service_id existing o)
              ≡ (db2, success read)
            → Stored encoding service_id payload db2 read
        read_existing-Stored none r s = absurd cc
        read_existing-Stored (some contract) r s =
            let state : before_commit ≡ db2 = cc s in
            let answer : read_contract service_id false contract existing ≡ read = cc s in
            rw (← state, ← answer)
              (record {
                service = service;
                bytes = bytes;
                contract = contract;
                served =
                    first-append_left (λ s. s.id == service_id) db.services raced.services service
                      h;
                given = q;
                version =
                    first-append_left
                      (is_version service_id (compute_version_hash encoding bytes.1)) db.versions
                      raced.versions existing e;
                owned =
                    first-append_left (λ c. c.id == existing.contract_id) db.contracts
                      raced.contracts contract r;
              })

  upload_bytes-Stored :
      (service : Service) (o : Option (String × String))
      → find_service service_id db ≡ some service
      → materialize_spec_bytes encoding payload ≡ o
      → upload_bytes encoding now raced service_id payload o db ≡ (db2, success read)
      → Stored encoding service_id payload db2 read
  unfolding find_version upload_unless
  upload_bytes-Stored service none h q t = absurd cc
  upload_bytes-Stored service (some bytes) h q t =
      upload_unless-Stored service bytes h q
        (find_version service_id (compute_version_hash encoding bytes.1) db.versions) refl t

  upload_found-Stored :
      (o : Option Service)
      → find_service service_id db ≡ o
      → upload_found encoding now raced service_id payload o db ≡ (db2, success read)
      → Stored encoding service_id payload db2 read
  upload_found-Stored none h t = absurd cc
  upload_found-Stored (some service) h t =
      upload_bytes-Stored service (materialize_spec_bytes encoding payload) h refl t

-- Once `upload_contract` has succeeded, whatever other requests committed meanwhile, a later upload
-- of the same payload to the same service on the rows it left, with no other request between,
-- answers with the same version as not created, and changes no row.
pub upload_contract_again :
    (encoding : Encoding) (now later : ℕ) (raced : Registry) (service_id : String)
    → (payload : ContractUpload) (db db2 : Registry) (read : ContractRead)
    → upload_contract encoding now raced service_id payload db ≡ (db2, success read)
    → (again : ContractRead) × (upload_contract encoding later no_race service_id payload db2
        ≡ (db2, success again))
      × (again.version ≡ read.version)
      × (again.created ≡ false)
unfolding upload_contract
upload_contract_again encoding now later raced service_id payload db db2 read h =
    upload-Stored encoding later service_id payload db2 read (
      upload_found-Stored encoding now raced service_id payload db db2 read
        (find_service service_id db) refl h)
