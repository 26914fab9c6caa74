-- ===== src/Guides/Service/Cache.antt =====
-- `generate` of service.py, for a request that was answered before.
use text.Mathlib.TextEquality.{eq_iff}
use living_api_contract_guar.Common.{
  String, true, Option, none, some, List, [], ◌∷◌, ◌++◌, ◌≡◌, refl, arith, string_key,
}
use living_api_contract_guar.Guides.Service.{
  Guide, GuideRequest, GuideResult, Tools, Written, gave_up, wrote, broke, guide, build_cache_key,
  run_with_retries, lookup_cache, new_guide, commit_guide, store_written, generate_unless, generate,
}

module _ (tools : Tools) where
  lookup-snoc :
      (key : String) (rows : List Guide) (g : Guide)
      → lookup_cache tools key rows ≡ none
      → g.prompt_hash ≡ key
      → lookup_cache tools key (rows ++ (g ∷ [])) ≡ some g
  unfolding lookup_cache
  lookup-snoc key [] g h q = ground (arith, eq_iff g.prompt_hash key)
  lookup-snoc key (r ∷ rows) g h q =
      ground (arith, lookup-snoc key rows g, eq_iff r.prompt_hash key)

  commit-lookup :
      (key : String) (rows : List Guide) (g : Guide) (o : Option Guide)
      → lookup_cache tools key rows ≡ o
      → g.prompt_hash ≡ key
      → lookup_cache tools key (commit_guide tools rows g o).0
        ≡ some (commit_guide tools rows g o).1
  unfolding commit_guide
  commit-lookup key rows g none h q = lookup-snoc key rows g h q
  commit-lookup key rows g (some e) h q = h

  store-lookup :
      (request : GuideRequest) (rows rows2 : List Guide) (written : tools.Llm × Written)
      (llm2 : tools.Llm) (r : GuideResult)
      → store_written tools request rows written ≡ (llm2, rows2, guide r)
      → lookup_cache tools (build_cache_key tools request) rows2 ≡ some r.row
  unfolding store_written
  store-lookup request rows rows2 (llm, gave_up e) llm2 r q = absurd cc
  store-lookup request rows rows2 (llm, broke) llm2 r q = absurd cc
  store-lookup request rows rows2 (llm, wrote markdown n) llm2 r q =
      let found =
        commit-lookup (build_cache_key tools request) rows (new_guide tools request markdown n)
          (lookup_cache tools (build_cache_key tools request) rows) refl refl in
      ground (arith, found, q)

  generate-lookup :
      (o : Option Guide) (context : tools.Context) (request : GuideRequest)
      (rows raced rows2 : List Guide) (llm llm2 : tools.Llm) (r : GuideResult)
      → lookup_cache tools (build_cache_key tools request) rows ≡ o
      → generate_unless tools o context request rows raced llm ≡ (llm2, rows2, guide r)
      → lookup_cache tools (build_cache_key tools request) rows2 ≡ some r.row
  unfolding generate_unless
  generate-lookup none context request rows raced rows2 llm llm2 r h q =
      store-lookup request (rows ++ raced) rows2 (run_with_retries tools context request.model llm)
        llm2 r q
  generate-lookup (some cached) context request rows raced rows2 llm llm2 r h q =
      ground (arith, h, q)

  -- Once `generate` has returned a guide for a request, a later `generate` for the same request on
  -- the rows it left serves that guide from the cache: it asks the language model nothing and
  -- changes no row.
  pub generate_cached :
      (context later : tools.Context) (request : GuideRequest)
      (rows raced raced2 rows2 : List Guide) (llm llm2 llm3 : tools.Llm) (r : GuideResult)
      → generate tools context request rows raced llm ≡ (llm2, rows2, guide r)
      → generate tools later request rows2 raced2 llm3
        ≡ (llm3, rows2, guide (record { row = r.row; served_from_cache = true }))
  unfolding generate generate_unless
  generate_cached context later request rows raced raced2 rows2 llm llm2 llm3 r q =
      rw
        (generate-lookup (lookup_cache tools (build_cache_key tools request) rows) context request
          rows raced rows2 llm llm2 r refl q)
        refl
