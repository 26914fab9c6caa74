-- ===== src/Guides/Service/Retries.antt =====
-- How often the language model is asked, and what is returned.
use living_api_contract_guar.Common.{
  ℕ, zero, suc, ◌+◌, ◌≤◌, String, Bool, true, false, Option, none, some, ◌≡◌, refl, arith, any,
}
use living_api_contract_guar.Guides.Syntax.{
  Validation, failed, valid, extract_code_blocks, validate_markdown_snippets,
}
use living_api_contract_guar.Guides.Syntax.Blocks.{
  broken, Agrees, validate_markdown_snippets-Agrees,
}
use living_api_contract_guar.Guides.Service.{
  Tools, Written, gave_up, wrote, broke, after_complete, next_attempt, retry_from, run_with_retries,
}

module _ (tools : Tools) (context : tools.Context) (model : String) where
  -- The state of the model after n calls, of which the first has the prompt `strict` and the
  -- others the strict one.
  abbrev pub asked : ℕ → Bool → tools.Llm → tools.Llm
  asked zero strict llm = llm
  asked (suc n) strict llm = asked n true (tools.complete llm model (tools.render context strict)).0

  -- What call n + 1 answers.
  abbrev pub answer_of : ℕ → Bool → tools.Llm → Option String
  answer_of zero strict llm = (tools.complete llm model (tools.render context strict)).1
  answer_of (suc n) strict llm =
      answer_of n true (tools.complete llm model (tools.render context strict)).0

  -- With `left` attempts to go and `attempts` made, a text comes out free of broken blocks after at
  -- most `left` more calls; or the loop gives up with a broken one after exactly `left`; or one of
  -- at most `left` more calls raises.
  abbrev pub Ends : ℕ → ℕ → Bool → tools.Llm → tools.Llm × Written → Type 0
  Ends left attempts strict llm (llm2, wrote markdown n) =
      (any (broken tools.parsers) (extract_code_blocks tools.parsers markdown) ≡ false)
      × ((m : ℕ) × (n ≡ attempts + m)
          × (suc m ≤ left)
          × (llm2 ≡ asked (suc m) strict llm)
          × (answer_of m strict llm ≡ some markdown))
  Ends left attempts strict llm (llm2, gave_up e) =
      (any (broken tools.parsers) (extract_code_blocks tools.parsers e.last_markdown) ≡ true)
      × (e.retries ≡ attempts + left)
      × (llm2 ≡ asked left strict llm)
  Ends left attempts strict llm (llm2, broke) =
      (m : ℕ) × (suc m ≤ left) × (llm2 ≡ asked (suc m) strict llm) × (answer_of m strict llm ≡ none)

  -- One attempt, from what the rest of the loop does after it.
  shift-Ends :
      (left attempts : ℕ) (strict : Bool) (llm : tools.Llm) (out : tools.Llm × Written)
      → Ends left (attempts + 1) true (tools.complete llm model (tools.render context strict)).0 out
      → Ends (suc left) attempts strict llm out
  shift-Ends left attempts strict llm (llm2, wrote markdown n) h =
      let (m, q, le, calls, said) = h.1 in
      (h.0, (suc m, omega (arith, q), omega (arith, le), calls, said))
  shift-Ends left attempts strict llm (llm2, gave_up e) h = (h.0, omega (arith, h.1), h.2)
  shift-Ends left attempts strict llm (llm2, broke) h =
      let (m, le, calls, said) = h in (suc m, omega (arith, le), calls, said)

  next-Ends :
      (left attempts : ℕ) (strict : Bool) (llm : tools.Llm) (markdown : String) (v : Validation)
      (retry : String → tools.Llm × Written)
      → answer_of 0 strict llm ≡ some markdown
      → Agrees tools.parsers 0 0 (extract_code_blocks tools.parsers markdown) v
      → (any (broken tools.parsers) (extract_code_blocks tools.parsers markdown) ≡ true
          → (reason : String)
          → Ends left
              (attempts + 1)
              true
              (tools.complete llm model (tools.render context strict)).0
              (retry reason))
      → Ends (suc left) attempts strict llm (
          next_attempt tools
            (tools.complete llm model (tools.render context strict)).0
            markdown
            attempts
            v
            retry)
  unfolding next_attempt
  next-Ends left attempts strict llm markdown (failed e) retry a h ih =
      shift-Ends left attempts strict llm (retry e.reason) (ih h e.reason)
  next-Ends left attempts strict llm markdown (valid r) retry a h ih =
      (h.0, (0, omega arith, omega arith, refl, a))

  call-Ends :
      (left attempts : ℕ) (strict : Bool) (llm : tools.Llm) (o : Option String)
      (go_on : String → tools.Llm × Written)
      → answer_of 0 strict llm ≡ o
      → ((markdown : String)
          → answer_of 0 strict llm ≡ some markdown
          → Ends (suc left) attempts strict llm (go_on markdown))
      → Ends
          (suc left)
          attempts
          strict
          llm
          (after_complete tools (tools.complete llm model (tools.render context strict)).0 o go_on)
  unfolding after_complete
  call-Ends left attempts strict llm none go_on a ih = (0, omega arith, refl, a)
  call-Ends left attempts strict llm (some markdown) go_on a ih = ih markdown a

  step-Ends :
      (left attempts : ℕ) (strict : Bool) (last reason : String) (llm : tools.Llm)
      → ((markdown r : String)
          → any (broken tools.parsers) (extract_code_blocks tools.parsers markdown) ≡ true
          → Ends left
              (attempts + 1)
              true
              (tools.complete llm model (tools.render context strict)).0
              (retry_from tools context model true left
                (attempts + 1)
                markdown
                r
                (tools.complete llm model (tools.render context strict)).0))
      → Ends
          (suc left)
          attempts
          strict
          llm
          (retry_from tools context model strict (suc left) attempts last reason llm)
  unfolding retry_from
  step-Ends left attempts strict last reason llm ih =
      let llm2 = (tools.complete llm model (tools.render context strict)).0 in
      call-Ends left attempts strict llm (answer_of 0 strict llm) _ refl (λ markdown a.
        next-Ends left attempts strict llm markdown
          (validate_markdown_snippets tools.parsers markdown)
          (λ r. retry_from tools context model true left (attempts + 1) markdown r llm2) a
          (validate_markdown_snippets-Agrees tools.parsers markdown) (λ q r. ih markdown r q))

  later-Ends :
      (left attempts : ℕ) (strict : Bool) (last reason : String) (llm : tools.Llm)
      → any (broken tools.parsers) (extract_code_blocks tools.parsers last) ≡ true
      → Ends left attempts strict llm
          (retry_from tools context model strict left attempts last reason llm)
  unfolding retry_from
  later-Ends zero attempts strict last reason llm h = (h, omega arith, refl)
  later-Ends (suc left) attempts strict last reason llm h =
      step-Ends left attempts strict last reason llm (λ markdown r q.
        later-Ends left (attempts + 1) true markdown r
          (tools.complete llm model (tools.render context strict)).0 q)

  -- `_run_with_retries` ends in one of three ways: with the text of the last call, in which no block
  -- of a known language has a parse error, after n failed attempts with n at most 2, and n + 1
  -- calls of the language model; with GuideGenerationError after 3 attempts and 3 calls, whose
  -- `last_markdown` has one; or with what the last of at most 3 calls raised. All calls but the first have the
  -- strict prompt.
  pub run_with_retries-Ends :
      (llm : tools.Llm) → Ends 3 0 false llm (run_with_retries tools context model llm)
  unfolding run_with_retries
  run_with_retries-Ends llm = step-Ends 2 0 false "" "no attempts made" llm (λ markdown r q.
      later-Ends 2 1 true markdown r (tools.complete llm model (tools.render context false)).0 q)
