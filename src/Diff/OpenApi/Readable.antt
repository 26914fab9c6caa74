-- ===== src/Diff/OpenApi/Readable.antt =====
-- The documents that `diff_openapi` of openapi.py can read, and what it returns for them.
use living_api_contract_guar.Common.{
  String, Bool, true, Option, none, some, List, [], ◌∷◌, ◌≡◌, refl, arith, all, ◌&&◌, get_or,
  if◌then◌else◌, string_key, is_some, Option-cases, inl, inr, Bool-cases, ◌==◌,
}
use mathlib.Core.Bool.{false≢true}
use text.Mathlib.TextEquality.{eq_iff}
use living_api_contract_guar.Common.Dict.{Dict, get, in_both}
use living_api_contract_guar.Common.Text.{◌<>◌}
use living_api_contract_guar.Json.Value.{Value, null, as_dict, get_value}
use living_api_contract_guar.Diff.Models.{RawChange}
use living_api_contract_guar.Diff.Raising.{◌then◌, yield_each}
use living_api_contract_guar.Diff.OpenApi.Reading.{
  required_names, paths, operations, params_by_key, request_body_schema, response_schema, iterate,
}
use living_api_contract_guar.Diff.OpenApi.Schema.{Side, request_body, response, diff_schema}
use living_api_contract_guar.Diff.OpenApi.Operation.{
  op_location, unless_both_empty, walk_params, walk_body, response_kept, walk_responses,
  walk_operation,
}
use living_api_contract_guar.Diff.OpenApi.Paths.{
  Operations, operation_at, walk_path_item, path_kept, walk_paths, walk_openapi,
}

-- A schema's `required` is a list of hashable values, or text, a dict, or falsy.
abbrev pub readable_schema : Dict String Value → Bool
readable_schema schema = is_some (required_names schema)

abbrev pub readable_responses : Dict String Value → Dict String Value → Dict String Value → Bool
readable_responses spec op [] = true
readable_responses spec op ((code, block) ∷ responses) =
    readable_schema (response_schema spec op code) && readable_responses spec op responses

-- The parameters can be iterated, and the schemas of the bodies are readable.
abbrev pub readable_operation : Dict String Value → Dict String Value → Bool
readable_operation spec op =
    is_some (iterate (get_value "parameters" op))
    && readable_schema (request_body_schema spec op)
    && readable_responses spec op (as_dict (get_value "responses" op))

abbrev pub readable_operations : Dict String Value → Operations → Bool
readable_operations spec ops = all (λ p. readable_operation spec p.1) ops

abbrev readable_item : Dict String Value → Value → Bool
readable_item spec item = readable_operations spec (operations (as_dict item))

-- Every operation of the document is readable.
abbrev pub readable : Dict String Value → Bool
readable spec = all (λ p. readable_item spec p.1) (paths spec)

-- A walker that raises nothing.
abbrev Returns : Option (List RawChange) → Type 0
Returns m = is_some m ≡ true

is_some-some : (m : Option (List RawChange)) → Returns m → (cs : List RawChange) × (m ≡ some cs)
is_some-some none h = absurd (false≢true h)
is_some-some (some cs) h = (cs, refl)

then-Returns : (m n : Option (List RawChange)) → Returns m → Returns n → Returns (m then n)
then-Returns m n h k = ground arith

yield_each-Returns :
    (f : String → Option (List RawChange)) (xs : List String)
    → ((x : String) → Returns (f x))
    → Returns (yield_each f xs)
unfolding yield_each
yield_each-Returns f [] h = refl
yield_each-Returns f (x ∷ xs) h =
    then-Returns (f x) (yield_each f xs) (h x) (yield_each-Returns f xs h)

module _ (repr : Value → String) where
  diff_schema-Returns :
      (side : Side) (l : String) (before after : Dict String Value)
      → readable_schema before ≡ true
      → readable_schema after ≡ true
      → Returns (diff_schema repr side l before after)
  unfolding diff_schema
  diff_schema-Returns side l before after h k = ground arith

  unless_both_empty-Returns :
      (before after : Dict String Value) (m : Option (List RawChange))
      → Returns m
      → Returns (unless_both_empty before after m)
  unless_both_empty-Returns [] [] m h = refl
  unless_both_empty-Returns [] (e ∷ after) m h = h
  unless_both_empty-Returns (e ∷ before) after m h = h

  schema_step-Returns :
      (side : Side) (l : String) (before after : Dict String Value)
      → readable_schema before ≡ true
      → readable_schema after ≡ true
      → Returns (unless_both_empty before after (diff_schema repr side l before after))
  schema_step-Returns side l before after h k =
      unless_both_empty-Returns before after (diff_schema repr side l before after)
        (diff_schema-Returns side l before after h k)

response_at :
    (spec op responses : Dict String Value) (code : String) (block : Value)
    → readable_responses spec op responses ≡ true
    → get code responses ≡ some block
    → readable_schema (response_schema spec op code) ≡ true
unfolding get
response_at spec op [] code block h e = cc
response_at spec op ((c, b) ∷ rest) code block h e =
    ground (arith, eq_iff c code, response_at spec op rest code block)

no_response_at :
    (spec op : Dict String Value) (code : String)
    → get code (as_dict (get_value "responses" op)) ≡ none
    → readable_schema (response_schema spec op code) ≡ true
unfolding response_schema required_names
no_response_at spec op code e = rw e refl

any_response :
    (spec op : Dict String Value) (code : String)
    → readable_operation spec op ≡ true
    → readable_schema (response_schema spec op code) ≡ true
any_response spec op code h = elim (Option-cases (get code (as_dict (get_value "responses" op)))) [
  | inl e ↦ no_response_at spec op code e
  | inr (block, e) ↦
      response_at spec op (as_dict (get_value "responses" op)) code block (ground arith) e
]

no_operation : (spec : Dict String Value) → readable_operation spec [] ≡ true
unfolding required_names request_body_schema as_dict get_value iterate
no_operation spec = refl

-- A test that holds of every value of a dict, and of the default, holds of what is read.
all-get_or :
    {V : Type 0} (ok : V → Bool) (d : V) (k : String) (xs : Dict String V)
    → ok d ≡ true
    → all (λ p. ok p.1) xs ≡ true
    → ok (get_or (get k xs) d) ≡ true
unfolding get
all-get_or ok d k [] h a = h
all-get_or ok d k ((j, v) ∷ xs) h a = elim (Bool-cases (j == k)) [
  | inl e ↦ rw e (ground arith)
  | inr e ↦ rw e (all-get_or ok d k xs h (ground arith))
]

any_operation :
    (spec : Dict String Value) (ops : Operations) (method : String)
    → readable_operations spec ops ≡ true
    → readable_operation spec (operation_at method ops) ≡ true
any_operation spec ops method h =
    all-get_or (readable_operation spec) [] method ops (no_operation spec) h

any_item :
    (spec : Dict String Value) (path : String)
    → readable spec ≡ true
    → readable_item spec (get_value path (paths spec)) ≡ true
unfolding get_value operations as_dict
any_item spec path h = all-get_or (readable_item spec) null path (paths spec) refl h

module _ (repr : Value → String) (before_spec after_spec : Dict String Value) (path method : String)
    (before_op after_op : Dict String Value)
    (before_ok : readable_operation before_spec before_op ≡ true)
    (after_ok : readable_operation after_spec after_op ≡ true) where
  walk_params-Returns :
      Returns (walk_params repr before_spec after_spec path method before_op after_op)
  unfolding walk_params params_by_key
  walk_params-Returns = ground arith

  walk_body-Returns : Returns (walk_body repr before_spec after_spec path method before_op after_op)
  unfolding walk_body
  walk_body-Returns =
      then-Returns _ _
        (schema_step-Returns repr request_body (op_location path method <> "/requestBody")
          (request_body_schema before_spec before_op) (request_body_schema after_spec after_op)
          (ground arith) (ground arith))
        refl

  response_kept-Returns :
      (code : String)
      → Returns (response_kept repr before_spec after_spec path method before_op after_op code)
  unfolding response_kept
  response_kept-Returns code =
      schema_step-Returns repr response (op_location path method <> "/responses/" <> code)
        (response_schema before_spec before_op code) (response_schema after_spec after_op code)
        (any_response before_spec before_op code before_ok)
        (any_response after_spec after_op code after_ok)

  walk_responses-Returns :
      Returns (walk_responses repr before_spec after_spec path method before_op after_op)
  unfolding walk_responses
  walk_responses-Returns = ground (
    arith,
    yield_each-Returns (response_kept repr before_spec after_spec path method before_op after_op)
        (in_both (as_dict (get_value "responses" before_op))
          (as_dict (get_value "responses" after_op)))
        response_kept-Returns,
  )

  walk_operation-Returns :
      Returns (walk_operation repr before_spec after_spec path method before_op after_op)
  unfolding walk_operation
  walk_operation-Returns =
      let params = walk_params repr before_spec after_spec path method before_op after_op in
      let body = walk_body repr before_spec after_spec path method before_op after_op in
      let responses = walk_responses repr before_spec after_spec path method before_op after_op in
      then-Returns params (body then responses) walk_params-Returns
        (then-Returns body responses walk_body-Returns walk_responses-Returns)

module _ (repr : Value → String) (before_spec after_spec : Dict String Value)
    (before_ok : readable before_spec ≡ true) (after_ok : readable after_spec ≡ true) where
  path_kept-Returns : (path : String) → Returns (path_kept repr before_spec after_spec path)
  unfolding path_kept walk_path_item
  path_kept-Returns path =
      let before_ops : Operations = operations (as_dict (get_value path (paths before_spec))) in
      let after_ops : Operations = operations (as_dict (get_value path (paths after_spec))) in
      ground (
        arith,
        yield_each-Returns
            (λ method.
              walk_operation repr before_spec after_spec path method
                (operation_at method before_ops) (operation_at method after_ops))
            (in_both before_ops after_ops)
            (λ method.
              walk_operation-Returns repr before_spec after_spec path method
                (operation_at method before_ops) (operation_at method after_ops)
                (any_operation before_spec before_ops method (any_item before_spec path before_ok))
                (any_operation after_spec after_ops method (any_item after_spec path after_ok))),
      )

  walk_paths-Returns : Returns (walk_paths repr before_spec after_spec)
  unfolding walk_paths
  walk_paths-Returns = ground (
    arith,
    yield_each-Returns (path_kept repr before_spec after_spec)
        (in_both (paths before_spec) (paths after_spec)) path_kept-Returns,
  )

  -- On two readable documents the walkers raise no TypeError: they build a list of changes.
  pub walk_openapi_returns :
      (cs : List RawChange) × (walk_openapi repr before_spec after_spec ≡ some cs)
  unfolding walk_openapi
  walk_openapi_returns =
      is_some-some (walk_openapi repr before_spec after_spec) (ground (arith, walk_paths-Returns))
