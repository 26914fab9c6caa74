-- ===== src/Traffic/UrlMatch.antt =====
-- packages/guardian_core/traffic/url_match.py: the trie of OpenAPI paths. A node holds its
-- children by mutable reference and no two nodes share one, so `add_path` rebuilds the spine.
pub mod Register
pub mod Sound
use Prim.Native.Char.{Char, code}
use Prim.Native.String.{String, [], ◌∷◌}
use living_api_contract_guar.Common.{
  ℕ, Bool, true, false, not, Option, none, some, List, [], ◌∷◌, map, select, ◌&&◌, ◌||◌, ◌==◌,
  string_key, nat_beq, is_some, if◌then◌else◌,
}
use living_api_contract_guar.Common.Sets.{elem}
use living_api_contract_guar.Common.Dict.{Dict}
use living_api_contract_guar.Common.Text.{upper, lower, split}
use living_api_contract_guar.Json.Value.{Value, as_dict, get_value, entries}

-- `_Node`; `absent` is a missing template child.
mutual
  pub data Node : Type 0 where
    node : Children → Child → Option String → List String → Option String → Node

  pub data Children : Type 0 where
    no_children : Children
    child : String → Node → Children → Children

  pub data Child : Type 0 where
    absent : Child
    present : Node → Child

abbrev pub empty_node : Node
empty_node = node no_children absent none [] none

-- The rest of a segment after "{" and what it has read: the name up to the first "}", which must
-- end the segment (`$` also matches before a final newline).
unfoldable pub name_to_brace : String → Option String
name_to_brace [] = none
name_to_brace (c ∷ s) =
    let rest = name_to_brace s in
    if nat_beq (code c) 125
    then if s == "" || s == "\n" then some "" else none
    else elim rest [ none ↦ none | some name ↦ some (c ∷ name) ]

abbrev if_not_empty : Option String → Option String
if_not_empty none = none
if_not_empty (some name) = if name == "" then none else some name

-- `_TEMPLATE_RE.match(seg)`, giving group 1
unfoldable pub template_name : String → Option String
unfolding name_to_brace
template_name [] = none
template_name (c ∷ s) = if nat_beq (code c) 123 then if_not_empty (name_to_brace s) else none

-- `[s for s in path.split("/") if s]`
unfoldable pub segments : String → List String
unfolding split
segments path = select (λ s. not (s == "")) (split 47 path)

-- `set.add(method.upper())` for each method
unfoldable pub add_methods : List String → List String → List String
unfolding elem upper
add_methods terminals [] = terminals
add_methods terminals (m ∷ ms) =
    add_methods (if elem (upper m) terminals then terminals else upper m ∷ terminals) ms

abbrev pub get_child : String → Children → Option Node
get_child seg no_children = none
get_child seg (child s n cs) = let rest = get_child seg cs in if s == seg then some n else rest

-- `children[seg] = child`
abbrev pub put_child : String → Node → Children → Children
put_child seg n no_children = child seg n no_children
put_child seg n (child s m cs) =
    let rest = put_child seg n cs in if s == seg then child s n cs else child s m rest

-- `children.setdefault(seg, _Node())`
abbrev pub child_or_new : Option Node → Node
child_or_new none = empty_node
child_or_new (some n) = n

-- the template child, made with its name if it is missing
abbrev pub template_or_new : String → Child → Node
template_or_new name absent = node no_children absent (some name) [] none
template_or_new name (present n) = n

-- One step of the loop of `add_path`: `f` is what the loop does at the child for the segment.
unfoldable pub place : String → Option String → (Node → Node) → Node → Node
place seg none f (node cs tc tn terminals pt) =
    node (put_child seg (f (child_or_new (get_child seg cs))) cs) tc tn terminals pt
place seg (some name) f (node cs tc tn terminals pt) =
    node cs (present (f (template_or_new name tc))) tn terminals pt

-- the loop of `add_path`, and the writes at its last node
unfoldable pub add_at : String → List String → List String → Node → Node
unfolding add_methods place
add_at path methods [] (node cs tc tn terminals pt) =
    node cs tc tn (add_methods terminals methods) (some path)
add_at path methods (seg ∷ segs) n =
    place seg (template_name seg) (λ m. add_at path methods segs m) n

-- `RouteTree.add_path`
unfoldable pub add_path : String → List String → Node → Node
unfolding segments
add_path path methods root = add_at path methods (segments path) root

abbrev pub next_node : Option Node → Child → Option Node
next_node (some n) tc = some n
next_node none absent = none
next_node none (present n) = some n

-- the loop of `match`
unfoldable pub descend : List String → Node → Option Node
descend [] n = some n
descend (seg ∷ segs) (node cs tc tn terminals pt) = elim (next_node (get_child seg cs) tc) [
  | none ↦ none
  | some n ↦ descend segs n
]

-- the end of `match`
unfoldable pub template_at : String → Option Node → Option String
unfolding elem
template_at method none = none
template_at method (some (node cs tc tn terminals none)) = none
template_at method (some (node cs tc tn terminals (some path))) =
    if elem method terminals then some path else none

-- `RouteTree.match`
unfoldable pub match_path : Node → String → String → Option String
match_path root method path = template_at (upper method) (descend (segments path) root)

abbrev http_methods : List String
http_methods = "get" ∷ "post" ∷ "put" ∷ "patch" ∷ "delete" ∷ "head" ∷ "options" ∷ "trace" ∷ []

unfoldable pub method_keys : Dict String Value → List String
unfolding elem lower
method_keys [] = []
method_keys ((k, v) ∷ ops) =
    let rest = method_keys ops in if elem (lower k) http_methods then k ∷ rest else rest

abbrev or_get : List String → List String
or_get [] = "GET" ∷ []
or_get (m ∷ ms) = m ∷ ms

-- the loop of `build_route_tree`
unfoldable pub add_paths : Node → Dict String Value → Node
unfolding as_dict method_keys
add_paths root [] = root
add_paths root ((path, ops) ∷ paths) =
    add_paths (add_path path (or_get (method_keys (as_dict ops))) root) paths

-- `build_route_tree`
unfoldable pub build_route_tree : Dict String Value → Node
unfolding as_dict get_value
build_route_tree openapi_spec = add_paths empty_node (as_dict (get_value "paths" openapi_spec))
