-- ===== src/Traffic/Ingest/Rerun.antt =====
-- `ingest_traffic` of a batch that was ingested before.
use text.Mathlib.TextEquality.{eq_iff}
use living_api_contract_guar.Common.{
  ℕ, ◌+◌, String, Bool, true, false, not, Option, none, some, List, [], ◌∷◌, ◌++◌, ◌≡◌, refl, sym,
  ◌∙◌, ap, arith, map, length, ◌&&◌, ◌||◌, ◌==◌, string_key, is_some, get_or, and_left, and_right,
  and_both, beq_refl, if◌then◌else◌,
}
use living_api_contract_guar.Common.Dict.{Dict}
use living_api_contract_guar.Json.Value.{Value}
use living_api_contract_guar.Diff.Raising.{bind-some}
use living_api_contract_guar.Api.Tables.{first}
use living_api_contract_guar.Traffic.Tables.{Datetime, IngestBatch, Database}
use living_api_contract_guar.Traffic.Endpoints.{
  NormalizedRecord, normalize_har, normalize_grpc, group_by_endpoint,
}
use living_api_contract_guar.Traffic.Defacto.{build_defacto_contract}
use living_api_contract_guar.Traffic.Records.{parse_har, parse_grpc_log}
use living_api_contract_guar.Traffic.Collect.{Tools, collect_groups}
use living_api_contract_guar.Traffic.Ingest.{
  IngestResult, is_given, is_batch, batch_or_new, save_batch, compute_batch_hash, ingest_records,
  ingest_traffic, static_paths, route_tree, latest_openapi_spec,
}

-- The columns of a batch but for its count.
abbrev pub without_count : IngestBatch → IngestBatch
without_count b = record b { record_count = 0 }

abbrev batches_in : Option (Database × IngestResult) → List IngestBatch
batches_in none = []
batches_in (some (db, r)) = db.batches

abbrev result_in : IngestResult → Option (Database × IngestResult) → IngestResult
result_in other none = other
result_in other (some (db, r)) = r

module _ (tools : Tools) (now : Datetime) where
  -- What a run that returns has done to the batches.
  Recorded : String → String → IngestBatch → Bool → Database → Database → IngestResult → Type 0
  Recorded service_id batch_hash batch is_duplicate db db2 r =
      (added : ℕ) × (db2.batches ≡ save_batch tools now is_duplicate batch added db.batches)
      × (r.batch_id ≡ batch.id)
      × (r.is_duplicate_batch ≡ is_duplicate)

  records-Recorded :
      (service_id : String) (client_id : Option String) (batch_hash : String) (batch : IngestBatch)
      (is_duplicate : Bool) (spec : Dict String Value) (normalized : List NormalizedRecord)
      (db db2 : Database) (r : IngestResult)
      → ingest_records tools now service_id client_id batch_hash batch is_duplicate spec normalized
          db
        ≡ some (db2, r)
      → Recorded service_id batch_hash batch is_duplicate db db2 r
  unfolding ingest_records Recorded
  records-Recorded service_id client_id batch_hash batch is_duplicate spec normalized db db2 r h =
      let collected =
        bind-some
          (collect_groups tools now service_id client_id batch_hash (group_by_endpoint normalized)
            (record {
              observed = db.observed;
              drawn = db.drawn + 1;
              usage_rows = [];
              summaries = [];
              matched_count = 0;
            }))
          _ (db2, r) h in
      let contract =
        bind-some (build_defacto_contract spec collected.0.summaries) _ (db2, r) collected.2 in
      let ending = (bind-some (static_paths tools now spec) _ (db2, r) contract.2).2 in
      (
        length normalized,
        sym (ap batches_in ending),
        sym (ap (λ o. (result_in r o).batch_id) ending),
        sym (ap (λ o. (result_in r o).is_duplicate_batch) ending),
      )

  ran :
      (b : Bool) (o : Option (Database × IngestResult)) (p : Database × IngestResult)
      → (if not b then none else o) ≡ some p
      → o ≡ some p
  ran true o p h = h
  ran false o p h = absurd cc

  -- The batch of a run, and what it does to the batches.
  traffic-Recorded :
      (service_id : String) (har grpc client_id : Option String) (db db2 : Database)
      (r : IngestResult)
      → ingest_traffic tools now service_id har grpc client_id db ≡ some (db2, r)
      → (let hash = compute_batch_hash tools now har grpc in
          let existing = first (is_batch tools now service_id hash) db.batches in
          Recorded service_id hash
            (batch_or_new tools now service_id har grpc client_id hash
              (tools.new_id db.drawn)
              existing)
            (is_some existing)
            db
            db2
            r)
  unfolding ingest_traffic
  traffic-Recorded service_id har grpc client_id db db2 r h =
      let requests =
        bind-some (parse_har tools.decoders (get_or har "")) _ (db2, r)
          (ran (is_given har || is_given grpc) _ (db2, r) h) in
      let spec = latest_openapi_spec tools now service_id db in
      records-Recorded service_id client_id _ _ _ spec
        (normalize_har tools.fromisoformat now (route_tree tools now spec) requests.0
          ++ normalize_grpc tools.fromisoformat now
              (parse_grpc_log tools.decoders (get_or grpc "")))
        db db2 r requests.2

first-holds : {A : Type 0} (p : A → Bool) (xs : List A) (a : A) → first p xs ≡ some a → p a ≡ true
first-holds p [] a h = absurd cc
first-holds p (x ∷ xs) a h = holds_by (p x) refl h (first-holds p xs a)
  where
    holds_by :
        (b : Bool)
        → p x ≡ b
        → (if b then some x else first p xs) ≡ some a
        → (first p xs ≡ some a → p a ≡ true)
        → p a ≡ true
    holds_by true e q rest = let same : x ≡ a = cc in rw (← same) e
    holds_by false e q rest = rest q

-- The batches of the service with the hash.
module _ (tools : Tools) (now : Datetime) (service_id batch_hash : String) where
  -- A write of a new batch is found under its hash.
  new-found :
      (batch : IngestBatch) (added : ℕ) (bs : List IngestBatch)
      → first (is_batch tools now service_id batch_hash) bs ≡ none
      → is_batch tools now service_id batch_hash batch ≡ true
      → (e : IngestBatch) × (first
            (is_batch tools now service_id batch_hash)
            (save_batch tools now false batch added bs)
          ≡ some e)
        × (e.id ≡ batch.id)
  unfolding save_batch
  new-found batch added [] h q = (record batch { record_count = added }, rw q refl, refl)
  new-found batch added (b ∷ bs) h q = ground (arith, new-found batch added bs)

  -- A write of a known batch changes a count.
  Counted : Bool → IngestBatch → List IngestBatch → List IngestBatch → Type 0
  Counted is_duplicate batch bs saved =
      (e : IngestBatch) × (first (is_batch tools now service_id batch_hash) saved ≡ some e)
      × (e.id ≡ batch.id)
      × (is_duplicate ≡ true → map without_count saved ≡ map without_count bs)

  known-Counted :
      (batch e : IngestBatch) (added : ℕ) (bs : List IngestBatch)
      → batch.service_id ≡ service_id
      → batch.batch_hash ≡ batch_hash
      → first (is_batch tools now service_id batch_hash) bs ≡ some e
      → e.id ≡ batch.id
      → Counted true batch bs (save_batch tools now true batch added bs)
  unfolding save_batch Counted
  known-Counted batch e added [] s q h i = absurd cc
  known-Counted batch e added (b ∷ bs) s q h i =
      counted_by (is_batch tools now service_id batch_hash b) _ refl
        (ap (λ t. (b.service_id == t) && (b.batch_hash == batch.batch_hash)) s
          ∙ ap (λ t. (b.service_id == service_id) && (b.batch_hash == t)) q)
        h (λ z. known-Counted batch e added bs s q z i)
    where
      counted_by :
          (k c : Bool)
          → is_batch tools now service_id batch_hash b ≡ k
          → c ≡ k
          → (if k then some b else first (is_batch tools now service_id batch_hash) bs) ≡ some e
          → (first (is_batch tools now service_id batch_hash) bs ≡ some e
              → Counted true batch bs (save_batch tools now true batch added bs))
          → Counted true batch (b ∷ bs) (
              if c
              then record b { record_count = b.record_count + added } ∷ bs
              else b ∷ save_batch tools now true batch added bs)
      counted_by true true x y z rest =
          let same : b ≡ e = cc in
          (
            record b { record_count = b.record_count + added },
            rw x refl,
            ap (λ t. t.id) same ∙ i,
            λ t. refl,
          )
      counted_by false false x y z rest =
          let (f, found, same, counts) = rest z in
          (f, rw x found, same, λ t. ap (λ r. without_count b ∷ r) (counts t))
      counted_by true false x y z rest = absurd cc
      counted_by false true x y z rest = absurd cc

  run-Counted :
      (har grpc client_id : Option String) (id : String) (added : ℕ) (bs : List IngestBatch)
      (o : Option IngestBatch)
      → first (is_batch tools now service_id batch_hash) bs ≡ o
      → (let batch = batch_or_new tools now service_id har grpc client_id batch_hash id o in
          Counted (is_some o) batch bs (save_batch tools now (is_some o) batch added bs))
  unfolding Counted
  run-Counted har grpc client_id id added bs none h =
      let batch = batch_or_new tools now service_id har grpc client_id batch_hash id none in
      let (e, found, same) =
        new-found batch added bs h (and_both _ _ (beq_refl service_id) (beq_refl batch_hash)) in
      (e, found, same, λ t. absurd cc)
  run-Counted har grpc client_id id added bs (some e) h =
      let own = first-holds (is_batch tools now service_id batch_hash) bs e h in
      known-Counted e e added bs ((eq_iff e.service_id service_id).0 (and_left _ _ own))
        ((eq_iff e.batch_hash batch_hash).0 (and_right _ _ own)) h refl

-- A run for a batch that is there.
again_by :
    (tools : Tools) (now : Datetime) (service_id hash id : String)
    (har grpc client_id : Option String) (db db2 : Database) (r : IngestResult) (e : IngestBatch)
    (o : Option IngestBatch)
    → first (is_batch tools now service_id hash) db.batches ≡ o
    → o ≡ some e
    → Recorded tools now service_id hash
        (batch_or_new tools now service_id har grpc client_id hash id o)
        (is_some o)
        db
        db2
        r
    → (r.is_duplicate_batch ≡ true)
      × (r.batch_id ≡ e.id)
      × (map without_count db2.batches ≡ map without_count db.batches)
unfolding Recorded Counted
again_by tools now service_id hash id har grpc client_id db db2 r e none h s run = absurd cc
again_by tools now service_id hash id har grpc client_id db db2 r e (some f) h s run =
    let (added, saved, own, fresh) = run in
    let same : f ≡ e = cc in
    let counted =
      run-Counted tools now service_id hash har grpc client_id id added db.batches (some f) h in
    (fresh, own ∙ ap (λ b. b.id) same, ap (map without_count) saved ∙ counted.3 refl)

-- Once `ingest_traffic` has returned for a service and some bytes, a later run for the same service
-- and bytes on the rows that it left, at any time and for any client, that returns says that the
-- batch is a duplicate, answers with the id of the first run's batch, adds no batch, and changes
-- none but in its count of records.
pub ingest_traffic_again :
    (tools : Tools) (now later : Datetime) (service_id : String)
    (har grpc client_id client_id2 : Option String) (db db2 db3 : Database) (r r2 : IngestResult)
    → ingest_traffic tools now service_id har grpc client_id db ≡ some (db2, r)
    → ingest_traffic tools later service_id har grpc client_id2 db2 ≡ some (db3, r2)
    → (r2.is_duplicate_batch ≡ true)
      × (r2.batch_id ≡ r.batch_id)
      × (map without_count db3.batches ≡ map without_count db2.batches)
unfolding Recorded Counted compute_batch_hash
ingest_traffic_again tools now later service_id har grpc client_id client_id2 db db2 db3 r r2 h q =
    let hash = compute_batch_hash tools now har grpc in
    let (added, saved, id, fresh) =
      traffic-Recorded tools now service_id har grpc client_id db db2 r h in
    let (e, found, same, counts) =
      run-Counted tools now service_id hash har grpc client_id (tools.new_id db.drawn) added
        db.batches _ refl in
    let stands : first (is_batch tools later service_id hash) db2.batches ≡ some e =
      ap (first (is_batch tools now service_id hash)) saved ∙ found in
    let (duplicate, kept, batches) =
      again_by tools later service_id hash (tools.new_id db2.drawn) har grpc client_id2 db2 db3 r2 e
        (first (is_batch tools later service_id hash) db2.batches) refl stands
        (traffic-Recorded tools later service_id har grpc client_id2 db2 db3 r2 q) in
    (duplicate, kept ∙ same ∙ sym id, batches)
