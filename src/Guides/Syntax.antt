-- ===== src/Guides/Syntax.antt =====
-- packages/guardian_guides/syntax.py. Parameters: `find_fences` gives the fenced blocks that the
-- regular expression finds, each with its language group and body, and `get_parser` the parser of
-- tree-sitter for a language, if it can be loaded.
pub mod Blocks
use living_api_contract_guar.Common.{
  ℕ, suc, ◌+◌, String, Bool, true, false, Option, none, some, List, [], ◌∷◌, map, length, ◌==◌,
  string_key, get_or, if◌then◌else◌,
}
use living_api_contract_guar.Common.Text.{lower}
use living_api_contract_guar.Common.Dict.{Dict, get}

-- A node of a tree-sitter tree: its own `has_error`, its type and its children.
mutual
  pub data Tree : Type 0 where
    tree : Bool → String → Trees → Tree

  pub data Trees : Type 0 where
    no_tree : Trees
    more : Tree → Trees → Trees

pub record CodeBlock : Type 0 where
  pub language : String
  pub body : String

pub record SnippetReport : Type 0 where
  pub total_blocks : ℕ
  pub validated_blocks : ℕ
  pub skipped_blocks : ℕ

pub record SnippetParseError : Type 0 where
  pub language : String
  pub snippet : String
  pub reason : String

pub data Validation : Type 0 where
  failed : SnippetParseError → Validation
  valid : SnippetReport → Validation

-- `_LANG_ALIASES`
abbrev pub lang_aliases : Dict String String
lang_aliases =
    ("py", "python")
    ∷ ("python", "python")
    ∷ ("python3", "python")
    ∷ ("js", "javascript")
    ∷ ("javascript", "javascript")
    ∷ ("node", "javascript")
    ∷ ("ts", "typescript")
    ∷ ("typescript", "typescript")
    ∷ ("tsx", "tsx")
    ∷ ("jsx", "javascript")
    ∷ []

abbrev mutual
  -- `_has_error`
  pub has_error : Tree → Bool
  has_error (tree flag kind children) =
      let below = any_error children in
      if flag then true else if kind == "ERROR" then true else below

  pub any_error : Trees → Bool
  any_error no_tree = false
  any_error (more t ts) = let rest = any_error ts in if has_error t then true else rest

pub record Parsers : Type 0 where
  pub find_fences : String → List (Option String × String)
  pub get_parser : String → Option (String → Tree)

module _ (parsers : Parsers) where
  -- `extract_code_blocks`; a language group has no blanks to strip
  unfoldable pub extract_code_blocks : String → List CodeBlock
  unfolding lower
  extract_code_blocks markdown =
      map (λ m. record { language = lower (get_or m.0 ""); body = m.1 })
        (parsers.find_fences markdown)

  abbrev pub parser_at : Option String → Option (String → Tree)
  parser_at none = none
  parser_at (some canonical) = parsers.get_parser canonical

  -- `_parser_for`
  unfoldable pub parser_for : String → Option (String → Tree)
  parser_for language = parser_at (get language lang_aliases)

  -- What the loop does with one block: it is skipped, or its parse has an error or not.
  abbrev pub verdict_on : CodeBlock → Option (String → Tree) → Option Bool
  verdict_on block none = none
  verdict_on block (some parse) = some (has_error (parse block.body))

  unfoldable pub check_block : CodeBlock → Option Bool
  check_block block = verdict_on block (parser_for block.language)

  abbrev pub parse_failure : CodeBlock → SnippetParseError
  parse_failure block = record {
    language = block.language;
    snippet = block.body;
    reason = "tree-sitter reported a parse error";
  }

  -- How the loop goes on after a block, given what it does when the block is skipped or parsed.
  unfoldable pub next_block : CodeBlock → Option Bool → Validation → Validation → Validation
  next_block block none skip next = skip
  next_block block (some true) skip next = failed (parse_failure block)
  next_block block (some false) skip next = next

  -- the loop of `validate_markdown_snippets`
  unfoldable pub validate_from : ℕ → ℕ → ℕ → List CodeBlock → Validation
  validate_from total validated skipped [] =
      valid
        (record { total_blocks = total; validated_blocks = validated; skipped_blocks = skipped })
  validate_from total validated skipped (block ∷ blocks) =
      let skip = validate_from total validated (skipped + 1) blocks in
      let next = validate_from total (validated + 1) skipped blocks in
      next_block block (check_block block) skip next

  -- `validate_markdown_snippets`
  unfoldable pub validate_markdown_snippets : String → Validation
  validate_markdown_snippets markdown =
      validate_from (length (extract_code_blocks markdown)) 0 0 (extract_code_blocks markdown)
