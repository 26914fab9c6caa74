-- ===== src/Guides/Tests.antt =====
-- Runs of packages/guardian_guides: a language model that answers from a list, and a parser that
-- refuses one text.
use living_api_contract_guar.Common.{
  String, true, false, Option, none, some, List, [], ◌∷◌, ◌≡◌, refl, ◌==◌, string_key,
}
use living_api_contract_guar.Common.Dict.{get}
use living_api_contract_guar.Common.Text.{lower}
use living_api_contract_guar.Guides.Syntax.{
  tree, no_tree, Parsers, extract_code_blocks, parser_for, check_block, next_block, validate_from,
  validate_markdown_snippets,
}
use living_api_contract_guar.Guides.Syntax.Blocks.{Agrees, validate_markdown_snippets-Agrees}
use living_api_contract_guar.Guides.Service.{
  Guide, GuideRequest, Tools, guide, run_with_retries, generate, build_cache_key, next_attempt,
  retry_from, after_complete, lookup_cache, commit_guide, store_written, generate_unless,
}
use living_api_contract_guar.Guides.Service.Retries.{Ends, run_with_retries-Ends}
use living_api_contract_guar.Guides.Service.Cache.{generate_cached}

abbrev parsers : Parsers
parsers = record {
  find_fences = λ markdown. (some "py", markdown) ∷ [];
  get_parser = λ language. some (λ body. tree (body == "def") "module" no_tree);
}

abbrev answer : List String → List String × Option String
answer [] = ([], none)
answer (a ∷ answers) = (answers, some a)

abbrev tools : Tools
tools = record {
  Llm = List String;
  Context = String;
  complete = λ llm model prompt. answer llm;
  render = λ context strict. context;
  sha256 = λ s. s;
  parsers = parsers;
}

abbrev request : GuideRequest
request = record { diff_id = "d"; client_id = "c"; model = "m" }

abbrev stored : Guide
stored = record {
  diff_id = "d";
  client_id = "c";
  version = "v1";
  model = "m";
  prompt_hash = "d|c|v1|m";
  markdown = "x = 1";
  retries = 1;
}

validate_markdown_snippets-Agrees_example :
    Agrees parsers 0 0
      (extract_code_blocks parsers "x = 1")
      (validate_markdown_snippets parsers "x = 1")
validate_markdown_snippets-Agrees_example = validate_markdown_snippets-Agrees parsers "x = 1"

run_with_retries-Ends_example :
    Ends tools "context" "m" 3 0 false
      ("def" ∷ "x = 1" ∷ [])
      (run_with_retries tools "context" "m" ("def" ∷ "x = 1" ∷ []))
run_with_retries-Ends_example = run_with_retries-Ends tools "context" "m" ("def" ∷ "x = 1" ∷ [])

first_run :
    generate tools "context" request [] [] ("def" ∷ "x = 1" ∷ [])
    ≡ ([], stored ∷ [], guide (record { row = stored; served_from_cache = false }))
unfolding generate generate_unless store_written run_with_retries retry_from after_complete
    next_attempt validate_markdown_snippets validate_from next_block check_block parser_for
    extract_code_blocks lower get lookup_cache commit_guide build_cache_key
first_run = refl

generate_cached_example :
    generate tools "later" request (stored ∷ []) [] ("unused" ∷ [])
    ≡ ("unused" ∷ [], stored ∷ [], guide (record { row = stored; served_from_cache = true }))
generate_cached_example =
    generate_cached tools "context" "later" request [] [] [] (stored ∷ []) ("def" ∷ "x = 1" ∷ []) []
      ("unused" ∷ []) (record { row = stored; served_from_cache = false }) first_run
