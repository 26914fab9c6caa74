-- ===== src/Mining/CallSites.antt =====
-- packages/guardian_core/mining: the call sites of models.py and `persist_call_sites` of
-- repo_scanner.py. `sha256` gives the hexadecimal SHA-256 of a text.
pub mod Rerun
use living_api_contract_guar.Common.{
  ℕ, zero, suc, ◌+◌, String, Bool, true, false, List, [], ◌∷◌, ◌++◌, map, select, ◌&&◌, ◌||◌, ◌==◌,
  string_key, if◌then◌else◌, any,
}
use living_api_contract_guar.Common.Sets.{elem, sorted}
use living_api_contract_guar.Common.Text.{◌<>◌, upper, join, decimal}

pub record InferredCallSite : Type 0 where
  pub file : String
  pub line : ℕ
  pub language : String
  pub client_library : String
  pub method : String
  pub path_template : String
  pub field_names : List String

-- a row of `inferred_endpoints`; `fields` holds the names under the key "names"
pub record InferredRow : Type 0 where
  pub repo : String
  pub commit_sha : String
  pub file : String
  pub line : ℕ
  pub language : String
  pub client_library : String
  pub method : String
  pub path_template : String
  pub field_names : List String
  pub content_hash : String

pub record PersistenceResult : Type 0 where
  pub repo : String
  pub commit_sha : String
  pub inserted : ℕ
  pub skipped : ℕ
  pub total : ℕ

module _ (sha256 : String → String) where
  -- `content_hash`
  unfoldable pub content_hash : InferredCallSite → String
  unfolding upper join sorted decimal
  content_hash site = sha256 (
      join "|" (
        site.file
        ∷ decimal site.line
        ∷ site.language
        ∷ site.client_library
        ∷ upper site.method
        ∷ site.path_template
        ∷ join "," (sorted site.field_names)
        ∷ []))

  unfoldable pub row_of : String → String → InferredCallSite → InferredRow
  unfolding upper content_hash
  row_of repo commit_sha site = record {
    repo = repo;
    commit_sha = commit_sha;
    file = site.file;
    line = site.line;
    language = site.language;
    client_library = site.client_library;
    method = upper site.method;
    path_template = site.path_template;
    field_names = site.field_names;
    content_hash = content_hash site;
  }

  -- `existing`
  unfoldable pub existing_hashes : String → String → List InferredRow → List String
  existing_hashes repo commit_sha rows =
      map (λ r. r.content_hash)
        (select (λ r. (r.repo == repo) && (r.commit_sha == commit_sha)) rows)

  -- The loop, with the rows that it adds and the number of the sites that it skips.
  unfoldable pub persist_from :
      String → String → List String → List String → List InferredCallSite → List InferredRow × ℕ
  unfolding content_hash row_of elem
  persist_from repo commit_sha existing seen_in_batch [] = ([], 0)
  persist_from repo commit_sha existing seen_in_batch (site ∷ sites) =
      let digest = content_hash site in
      let skip = persist_from repo commit_sha existing seen_in_batch sites in
      let insert = persist_from repo commit_sha existing (digest ∷ seen_in_batch) sites in
      if elem digest existing || elem digest seen_in_batch
      then (skip.0, skip.1 + 1)
      else (row_of repo commit_sha site ∷ insert.0, insert.1)

  abbrev pub count : List InferredRow → ℕ
  count [] = 0
  count (r ∷ rs) = suc (count rs)

  -- `persist_call_sites`
  unfoldable pub persist_call_sites :
      String
      → String
      → List InferredCallSite
      → List InferredRow
      → List InferredRow × PersistenceResult
  unfolding existing_hashes persist_from
  persist_call_sites repo commit_sha sites rows =
      let (added, skipped) =
        persist_from repo commit_sha (existing_hashes repo commit_sha rows) [] sites in
      (
        rows ++ added,
        record {
          repo = repo;
          commit_sha = commit_sha;
          inserted = count added;
          skipped = skipped;
          total = count added + skipped;
        },
      )
