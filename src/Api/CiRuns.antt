-- ===== src/Api/CiRuns.antt =====
-- apps/api/routes/ci.py, over the rows of `ci_runs`. A commit that the unique key on the repo, the
-- pull request and the head SHA refuses answers 409; `raced` holds the rows that other requests
-- commit between the handler's query and its commit.
pub mod Upsert
use living_api_contract_guar.Common.{
  ℕ, String, Bool, true, false, Option, none, some, List, [], ◌∷◌, ◌++◌, select, ◌&&◌, ◌==◌,
  string_key, nat_key, is_some, get_or, if◌then◌else◌,
}
use living_api_contract_guar.Common.Text.{◌<>◌}
use living_api_contract_guar.Json.Value.{Value}
use living_api_contract_guar.Api.Tables.{
  Answer, success, first, head, newest_first, not_found, conflict,
}

pub record CiRun : Type 0 where
  pub id : String
  pub repo : String
  pub pr_number : ℕ
  pub head_sha : String
  pub base_sha : String
  pub conclusion : String
  pub report_json : Value
  pub bypass_label_present : Bool
  pub check_run_id : Option ℕ
  pub created_at : ℕ

pub record CiRunCreate : Type 0 where
  pub repo : String
  pub pr_number : ℕ
  pub head_sha : String
  pub base_sha : String
  pub conclusion : String
  pub report_json : Value
  pub bypass_label_present : Bool
  pub check_run_id : Option ℕ

abbrev pub has_key : CiRunCreate → CiRun → Bool
has_key payload row =
    (row.repo == payload.repo)
    && (row.pr_number == payload.pr_number)
    && (row.head_sha == payload.head_sha)

-- `payload.check_run_id` if it is not None
abbrev kept_id : Option ℕ → Option ℕ → Option ℕ
kept_id none old = old
kept_id (some n) old = some n

-- The row after the writes of the first branch.
unfoldable pub rewrite_run : CiRunCreate → CiRun → CiRun
rewrite_run payload existing = record existing {
  base_sha = payload.base_sha;
  conclusion = payload.conclusion;
  report_json = payload.report_json;
  bypass_label_present = payload.bypass_label_present;
  check_run_id = kept_id payload.check_run_id existing.check_run_id;
}

-- The update of the row that the query found, which is the first with the key.
unfoldable pub update_run : CiRunCreate → List CiRun → List CiRun
unfolding rewrite_run
update_run payload [] = []
update_run payload (row ∷ rows) =
    let rest = update_run payload rows in
    if has_key payload row then rewrite_run payload row ∷ rows else row ∷ rest

module _ (new_id : String) (now : ℕ) where
  unfoldable pub new_run : CiRunCreate → CiRun
  new_run payload = record {
    id = new_id;
    repo = payload.repo;
    pr_number = payload.pr_number;
    head_sha = payload.head_sha;
    base_sha = payload.base_sha;
    conclusion = payload.conclusion;
    report_json = payload.report_json;
    bypass_label_present = payload.bypass_label_present;
    check_run_id = payload.check_run_id;
    created_at = now;
  }

  unfoldable pub upsert_found :
      CiRunCreate → Option CiRun → List CiRun → List CiRun → List CiRun × Answer CiRun
  unfolding rewrite_run update_run new_run
  upsert_found payload (some existing) rows raced =
      (update_run payload rows ++ raced, success (rewrite_run payload existing))
  upsert_found payload none rows raced =
      if is_some (first (has_key payload) raced)
      then (rows ++ raced, conflict)
      else (rows ++ (raced ++ (new_run payload ∷ [])), success (new_run payload))

  -- `upsert_ci_run`
  unfoldable pub upsert_ci_run : CiRunCreate → List CiRun → List CiRun → List CiRun × Answer CiRun
  unfolding upsert_found
  upsert_ci_run payload rows raced = upsert_found payload (first (has_key payload) rows) rows raced

abbrev run_or_404 : Option CiRun → Answer CiRun
run_or_404 none = not_found
run_or_404 (some row) = success row

-- `get_latest_ci_run`
unfoldable pub get_latest_ci_run : String → String → ℕ → List CiRun → Answer CiRun
get_latest_ci_run repo_owner repo_name pr_number rows = run_or_404 (
    head (
      newest_first (λ r. r.created_at)
        (select (λ r. (r.repo == (repo_owner <> "/" <> repo_name)) && (r.pr_number == pr_number))
          rows)))
