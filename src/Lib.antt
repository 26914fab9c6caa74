-- ===== src/Lib.antt =====
-- A model of the Living API Contract Guardian: what it reports about two versions of an API
-- contract, how it retires an endpoint, and what it learns of an API from traffic and from code.
--
-- A contract is an OpenAPI document or a protobuf descriptor set. `diff_contracts` compares two of
-- them, gives each change a verdict by a rule set, and counts the verdicts; the CI gate reads the
-- count of breaking changes. A deprecation campaign then follows the usage of an endpoint through
-- the states draft, active, decaying, ready_to_remove and completed, and opens reminder pull
-- requests. Ingested traffic is matched to the paths of the document by a trie, grouped by endpoint,
-- and turned into schemas, counts of fields and a de-facto contract. Call sites mined from client
-- repositories are stored once per commit; the diff joins them to its changes. The routes store
-- services, contract versions and CI runs. A language model writes the migration guides, whose code
-- blocks must parse.
--
--   Common     tests, lists, Python's dicts and sets, `sorted`, and text
--   Json       decoded JSON and Python's equality on it
--   Diff       packages/guardian_diff
--     Models, Ruleset, DefaultRules    models.py, ruleset.py, rules/default.yml
--     OpenApi                          openapi.py: the readers of a document, the schema walker,
--                                      the operation walker, and the walkers of paths
--     Proto                            proto.py: descriptors, messages, services
--     Clients                          clients.py: the join with mined call sites
--     Engine, Contracts                engine.py: the report, and `diff_contracts`
--   Campaigns  packages/guardian_campaigns, apps/api/routes/campaigns.py
--     StateMachine, Decay, Jobs        state_machine.py, decay.py, jobs.py
--     SendReminder, GithubPr           the job that opens a pull request; github_pr.py
--     Routes                           the routes that fire a trigger and evaluate inline
--   Traffic    packages/guardian_core/traffic
--     UrlMatch, Observed               url_match.py: `RouteTree`, `normalize_observed_path`
--     Merge, Branches, Inference,      _merge.py, schema_inference.py, defacto.py
--     Defacto
--     Records                          har_parser.py, grpc_parser.py
--     Tables, Endpoints, FieldUsages,  ingestor.py: its rows and times, the upserts, and
--     Collect, Ingest                  `ingest_traffic`
--   Mining     packages/guardian_core/mining
--     PathNormalize, CallSites         path_normalize.py; models.py and repo_scanner.py
--   Api        apps/api/routes
--     Tables, Services, CiRuns         services.py with guardian_core/hashing.py, ci.py
--   Guides     packages/guardian_guides
--     Syntax, Service                  syntax.py, and the cache and retries of service.py
--
-- A generator is the list of what it yields. A dict is an association list in insertion order and
-- a set a list without repetition; the walkers sort the keys they visit, as the source does. An
-- exception is a value: `none` for what a walker raises or a MachineError, a constructor of
-- `Outcome` or `Reply` for a call that can fail in several ways. Mutated objects (the state machine,
-- the database rows, the trie) are passed and returned. The functions recurse on lists, on texts or
-- on the trie; the retry loop of a guide counts the attempts that are left, of which the limit
-- allows three. `merge_json_schemas` has as fuel the depth of its first schema, which every call
-- lessens, and the loop over double slashes the length of the text, which every round shortens.
-- What another request commits between a handler's queries and its commit is an argument.
--
-- Parameters stand for code that is not of the repository: fnmatch.fnmatchcase, `repr`, SHA-1 and
-- SHA-256, the protobuf parser and its names of enums, the Spectral linter, floating-point
-- arithmetic, the clocks, GitHub, the language model, the fences that a regular expression finds,
-- the tree-sitter parsers, and the package `transitions`, of which the documented choice of a
-- transition is assumed. The context of a guide, its prompt and the patch of a reminder are
-- arguments too. So are genson, the JSON decoders, the pages of haralyzer, base64, the time formats
-- and the drawn identifiers.
-- Not modelled are the length limits of pydantic but those of RawChange, log output, the YAML
-- loaders, the table declarations, the command line, the visitors that mine call sites, and, so far,
-- the walk over the files of a repository, the context of a guide and the CI rendering.
pub mod Common
pub mod Json
pub mod Diff
pub mod Campaigns
pub mod Mining
pub mod Traffic
pub mod Api
pub mod Guides
