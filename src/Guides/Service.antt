-- ===== src/Guides/Service.antt =====
-- packages/guardian_guides/service.py: the cache and the retries of `GuideService`. The language
-- model has a state of its own, which each call of `complete` may change. The context of a guide is
-- what `_build_context` collected; a prompt depends on it and on its flag `strict`. `raced` holds
-- the rows that other requests commit while the guide is written.
pub mod Retries
pub mod Cache
use living_api_contract_guar.Common.{
  ℕ, zero, suc, ◌+◌, String, Bool, true, false, Option, none, some, List, [], ◌∷◌, ◌++◌, any,
  is_some, ◌==◌, string_key, if◌then◌else◌,
}
use living_api_contract_guar.Common.Text.{◌<>◌}
use living_api_contract_guar.Guides.Syntax.{
  Parsers, SnippetParseError, Validation, failed, valid, validate_markdown_snippets,
}

abbrev pub prompt_version : String
prompt_version = "v1"

abbrev pub retry_limit : ℕ
retry_limit = 2

pub record Guide : Type 0 where
  pub diff_id : String
  pub client_id : String
  pub version : String
  pub model : String
  pub prompt_hash : String
  pub markdown : String
  pub retries : ℕ

pub record GuideRequest : Type 0 where
  pub diff_id : String
  pub client_id : String
  pub model : String

pub record GuideResult : Type 0 where
  pub row : Guide
  pub served_from_cache : Bool

pub record GuideGenerationError : Type 0 where
  pub retries : ℕ
  pub last_markdown : String
  pub reason : String

-- What stands outside: the model, the prompt templates, SHA-256 and the parsers. `complete` answers
-- `none` when it raises, as LiteLLMProvider does on a response without a text.
pub record Tools : Type 1 where
  pub Llm : Type 0
  pub Context : Type 0
  pub complete : Llm → String → String → Llm × Option String
  pub render : Context → Bool → String
  pub sha256 : String → String
  pub parsers : Parsers

pub data Written : Type 0 where
  gave_up : GuideGenerationError → Written
  wrote : String → ℕ → Written
  broke : Written

pub data Generated : Type 0 where
  raised : GuideGenerationError → Generated
  guide : GuideResult → Generated
  provider_raised : Generated

module _ (tools : Tools) where
  -- `build_cache_key`
  unfoldable pub build_cache_key : GuideRequest → String
  build_cache_key request =
      tools.sha256 (
        request.diff_id <> "|" <> request.client_id <> "|" <> prompt_version <> "|"
        <> request.model)

  -- How an attempt ends: with the text, or with a retry for the reason of its failure.
  unfoldable pub next_attempt :
      tools.Llm → String → ℕ → Validation → (String → tools.Llm × Written) → tools.Llm × Written
  next_attempt llm markdown attempts (failed e) retry = retry e.reason
  next_attempt llm markdown attempts (valid report) retry = (llm, wrote markdown attempts)

  -- What follows a call of `complete`; nothing catches what it raises.
  unfoldable pub after_complete :
      tools.Llm → Option String → (String → tools.Llm × Written) → tools.Llm × Written
  after_complete llm none go_on = (llm, broke)
  after_complete llm (some markdown) go_on = go_on markdown

  -- The loop of `_run_with_retries`, with the number of attempts that are left.
  unfoldable pub retry_from :
      tools.Context → String → Bool → ℕ → ℕ → String → String → tools.Llm → tools.Llm × Written
  unfolding validate_markdown_snippets
  retry_from context model strict zero attempts last_markdown last_reason llm = (
    llm,
    gave_up (record { retries = attempts; last_markdown = last_markdown; reason = last_reason }),
  )
  retry_from context model strict (suc left) attempts last_markdown last_reason llm =
      let (llm2, answer) = tools.complete llm model (tools.render context strict) in
      after_complete llm2 answer (λ markdown.
        next_attempt llm2 markdown attempts (validate_markdown_snippets tools.parsers markdown)
          (λ reason. retry_from context model true left (attempts + 1) markdown reason llm2))

  -- `_run_with_retries`; `attempts <= RETRY_LIMIT` holds for the first three attempts
  unfoldable pub run_with_retries : tools.Context → String → tools.Llm → tools.Llm × Written
  run_with_retries context model llm =
      retry_from context model false (suc retry_limit) 0 "" "no attempts made" llm

  -- `_lookup_cache`
  unfoldable pub lookup_cache : String → List Guide → Option Guide
  lookup_cache key [] = none
  lookup_cache key (g ∷ gs) =
      let rest = lookup_cache key gs in if g.prompt_hash == key then some g else rest

  abbrev pub new_guide : GuideRequest → String → ℕ → Guide
  new_guide request markdown retries = record {
    diff_id = request.diff_id;
    client_id = request.client_id;
    version = prompt_version;
    model = request.model;
    prompt_hash = build_cache_key request;
    markdown = markdown;
    retries = retries;
  }

  -- The insertion of the row: the unique key on `prompt_hash` refuses it when a request raced.
  unfoldable pub commit_guide : List Guide → Guide → Option Guide → List Guide × Guide
  commit_guide rows row none = (rows ++ (row ∷ []), row)
  commit_guide rows row (some existing) = (rows, existing)

  unfoldable pub store_written :
      GuideRequest → List Guide → tools.Llm × Written → tools.Llm × List Guide × Generated
  store_written request rows (llm, gave_up e) = (llm, rows, raised e)
  store_written request rows (llm, broke) = (llm, rows, provider_raised)
  store_written request rows (llm, wrote markdown retries) =
      let (stored, row) =
        commit_guide rows (new_guide request markdown retries)
          (lookup_cache (build_cache_key request) rows) in
      (llm, stored, guide (record { row = row; served_from_cache = false }))

  unfoldable pub generate_unless :
      Option Guide
      → tools.Context
      → GuideRequest
      → List Guide
      → List Guide
      → tools.Llm
      → tools.Llm × List Guide × Generated
  generate_unless (some cached) context request rows raced llm =
      (llm, rows, guide (record { row = cached; served_from_cache = true }))
  generate_unless none context request rows raced llm =
      store_written request (rows ++ raced) (run_with_retries context request.model llm)

  -- `GuideService.generate`
  unfoldable pub generate :
      tools.Context
      → GuideRequest
      → List Guide
      → List Guide
      → tools.Llm
      → tools.Llm × List Guide × Generated
  generate context request rows raced llm =
      generate_unless (lookup_cache (build_cache_key request) rows) context request rows raced llm
