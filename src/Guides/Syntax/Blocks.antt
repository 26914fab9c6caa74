-- ===== src/Guides/Syntax/Blocks.antt =====
-- What `validate_markdown_snippets` accepts.
use living_api_contract_guar.Common.{
  ℕ, ◌+◌, String, Bool, true, false, Option, none, some, List, [], ◌∷◌, ◌≡◌, refl, arith, length,
  any, if◌then◌else◌,
}
use living_api_contract_guar.Guides.Syntax.{
  CodeBlock, Validation, failed, valid, Parsers, extract_code_blocks, check_block, next_block,
  validate_from, validate_markdown_snippets,
}

abbrev pub is_broken : Option Bool → Bool
is_broken (some true) = true
is_broken _ = false

abbrev pub count_where : (CodeBlock → Bool) → List CodeBlock → ℕ
count_where p [] = 0
count_where p (b ∷ bs) = (if p b then 1 else 0) + count_where p bs

abbrev pub is_skipped : Option Bool → Bool
is_skipped none = true
is_skipped _ = false

module _ (parsers : Parsers) where
  abbrev pub broken : CodeBlock → Bool
  broken b = is_broken (check_block parsers b)

  abbrev pub skipped : CodeBlock → Bool
  skipped b = is_skipped (check_block parsers b)

  -- A failure goes with a broken block, a report with none and with its counts.
  abbrev pub Agrees : ℕ → ℕ → List CodeBlock → Validation → Type 0
  Agrees v s blocks (failed e) = any broken blocks ≡ true
  Agrees v s blocks (valid r) =
      (any broken blocks ≡ false)
      × (r.skipped_blocks ≡ s + count_where skipped blocks)
      × (r.validated_blocks + r.skipped_blocks ≡ v + s + length blocks)

  next_block-Agrees :
      (v s : ℕ) (b : CodeBlock) (blocks : List CodeBlock) (o : Option Bool) (skip next : Validation)
      → check_block parsers b ≡ o
      → Agrees v (s + 1) blocks skip
      → Agrees (v + 1) s blocks next
      → Agrees v s (b ∷ blocks) (next_block parsers b o skip next)
  unfolding next_block
  next_block-Agrees v s b blocks none (failed e) next q h k = ground (arith, q, h)
  next_block-Agrees v s b blocks none (valid r) next q h k = ground (arith, q, h)
  next_block-Agrees v s b blocks (some true) skip next q h k = ground (arith, q)
  next_block-Agrees v s b blocks (some false) skip (failed e) q h k = ground (arith, q, k)
  next_block-Agrees v s b blocks (some false) skip (valid r) q h k = ground (arith, q, k)

  validate_from-Agrees :
      (total v s : ℕ) (blocks : List CodeBlock)
      → Agrees v s blocks (validate_from parsers total v s blocks)
  unfolding validate_from
  validate_from-Agrees total v s [] = (refl, omega arith, omega arith)
  validate_from-Agrees total v s (b ∷ blocks) =
      next_block-Agrees v s b blocks (check_block parsers b)
        (validate_from parsers total v (s + 1) blocks)
        (validate_from parsers total (v + 1) s blocks) refl
        (validate_from-Agrees total v (s + 1) blocks) (validate_from-Agrees total (v + 1) s blocks)

  -- `validate_markdown_snippets` raises SnippetParseError only when some block in a known language
  -- has a parse error, and reports only when none has; the report then counts as skipped the blocks
  -- without a parser, and its validated and skipped blocks are all the blocks.
  pub validate_markdown_snippets-Agrees :
      (markdown : String)
      → Agrees 0 0
          (extract_code_blocks parsers markdown)
          (validate_markdown_snippets parsers markdown)
  unfolding validate_markdown_snippets
  validate_markdown_snippets-Agrees markdown =
      validate_from-Agrees (length (extract_code_blocks parsers markdown)) 0 0
        (extract_code_blocks parsers markdown)
