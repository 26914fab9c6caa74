-- ===== src/Traffic/UrlMatch/Register.antt =====
-- `RouteTree.match` of url_match.py on a path that was just added.
use text.Mathlib.TextEquality.{eq_iff}
use living_api_contract_guar.Common.{
  String, Bool, true, not, Option, none, some, List, [], ◌∷◌, ◌≡◌, refl, arith, map, ◌&&◌, ◌||◌,
  ◌==◌, string_key, beq_refl, is_some, if◌then◌else◌,
}
use living_api_contract_guar.Common.Sets.{elem}
use living_api_contract_guar.Common.Text.{upper}
use living_api_contract_guar.Traffic.UrlMatch.{
  Node, node, Children, no_children, child, Child, absent, present, empty_node, template_name,
  segments, add_methods, get_child, put_child, child_or_new, template_or_new, place, add_at,
  add_path, descend, template_at, match_path,
}

-- No key of the children is a template segment, in the whole trie.
unfoldable mutual
  pub has_literal_keys : Node → Bool
  has_literal_keys (node cs tc tn terminals pt) = all_literal cs && child_literal tc

  pub all_literal : Children → Bool
  all_literal no_children = true
  all_literal (child s n cs) =
      not (is_some (template_name s)) && has_literal_keys n && all_literal cs

  pub child_literal : Child → Bool
  child_literal absent = true
  child_literal (present n) = has_literal_keys n

get-put_child :
    (seg x : String) (n : Node) (cs : Children)
    → get_child x (put_child seg n cs) ≡ (if seg == x then some n else get_child x cs)
get-put_child seg x n no_children = ground arith
get-put_child seg x n (child s m cs) =
    ground (arith, get-put_child seg x n cs, eq_iff s seg, eq_iff seg x, eq_iff s x)

all_literal-get :
    (seg : String) (cs : Children) (n : Node)
    → all_literal cs ≡ true
    → get_child seg cs ≡ some n
    → (has_literal_keys n ≡ true) × (template_name seg ≡ none)
unfolding all_literal
all_literal-get seg no_children n h q = absurd cc
all_literal-get seg (child s m cs) n h q = ground (arith, eq_iff s seg, all_literal-get seg cs n)

elem-add_methods :
    (terminals ms : List String) (m : String)
    → elem m (add_methods terminals ms) ≡ (elem m terminals || elem m (map upper ms))
unfolding add_methods elem
elem-add_methods terminals [] m = ground arith
elem-add_methods terminals (k ∷ ms) m = ground (
  arith,
  elem-add_methods terminals ms m,
  elem-add_methods (upper k ∷ terminals) ms m,
  eq_iff (upper k) m,
)

new-literal :
    (o : Option Node) (cs : Children) (seg : String)
    → all_literal cs ≡ true
    → get_child seg cs ≡ o
    → has_literal_keys (child_or_new o) ≡ true
unfolding has_literal_keys
new-literal none cs seg h q = refl
new-literal (some n) cs seg h q = (all_literal-get seg cs n h q).0

template-literal :
    (name : String) (tc : Child)
    → child_literal tc ≡ true
    → has_literal_keys (template_or_new name tc) ≡ true
unfolding has_literal_keys
template-literal name absent h = refl
template-literal name (present n) h = h

-- A template segment is no key.
template-get :
    (seg name : String) (cs : Children) (o : Option Node)
    → all_literal cs ≡ true
    → template_name seg ≡ some name
    → get_child seg cs ≡ o
    → o ≡ none
template-get seg name cs none h q r = refl
template-get seg name cs (some n) h q r = absurd (cc (all_literal-get seg cs n h r).1)

descend-child :
    (seg : String) (segs : List String) (c : Node) (cs : Children) (tc : Child) (tn : Option String)
    (terminals : List String) (pt : Option String)
    → get_child seg cs ≡ some c
    → descend (seg ∷ segs) (node cs tc tn terminals pt) ≡ descend segs c
unfolding descend
descend-child seg segs c cs tc tn terminals pt q = rw (descend, q) refl

descend-template :
    (seg : String) (segs : List String) (c : Node) (cs : Children) (tn : Option String)
    (terminals : List String) (pt : Option String)
    → get_child seg cs ≡ none
    → descend (seg ∷ segs) (node cs (present c) tn terminals pt) ≡ descend segs c
unfolding descend
descend-template seg segs c cs tn terminals pt q = rw (descend, q) refl

-- One step down, when the rest is found at any node that may stand there.
place-found :
    (path m seg : String) (segs : List String) (o : Option String) (f : Node → Node) (n : Node)
    → ((c : Node) → has_literal_keys c ≡ true → template_at m (descend segs (f c)) ≡ some path)
    → has_literal_keys n ≡ true
    → template_name seg ≡ o
    → template_at m (descend (seg ∷ segs) (place seg o f n)) ≡ some path
unfolding place has_literal_keys
place-found path m seg segs none f (node cs tc tn terminals pt) ih k q =
    let new = child_or_new (get_child seg cs) in
    let at : get_child seg (put_child seg (f new) cs) ≡ some (f new) =
      rw (get-put_child seg seg (f new) cs, beq_refl seg) refl in
    rw (descend-child seg segs (f new) (put_child seg (f new) cs) tc tn terminals pt at)
      (ih new (new-literal (get_child seg cs) cs seg (ground arith) refl))
place-found path m seg segs (some name) f (node cs tc tn terminals pt) ih k q =
    let new = template_or_new name tc in
    rw
      (descend-template seg segs (f new) cs tn terminals pt
        (template-get seg name cs (get_child seg cs) (ground arith) q refl))
      (ih new (template-literal name tc (ground arith)))

add_at-found :
    (path : String) (ms : List String) (m : String) (segs : List String) (n : Node)
    → elem m (map upper ms) ≡ true
    → has_literal_keys n ≡ true
    → template_at m (descend segs (add_at path ms segs n)) ≡ some path
unfolding add_at descend template_at
add_at-found path ms m [] (node cs tc tn terminals pt) h k =
    ground (arith, elem-add_methods terminals ms m, h)
add_at-found path ms m (seg ∷ segs) n h k =
    place-found path m seg segs (template_name seg) (add_at path ms segs) n
      (λ c q. add_at-found path ms m segs c h q) k refl

-- Adding a path keeps the keys literal.
put-literal :
    (seg : String) (n : Node) (cs : Children)
    → template_name seg ≡ none
    → has_literal_keys n ≡ true
    → all_literal cs ≡ true
    → all_literal (put_child seg n cs) ≡ true
unfolding has_literal_keys
put-literal seg n no_children q h k = ground arith
put-literal seg n (child s m cs) q h k = ground (arith, put-literal seg n cs, eq_iff s seg)

place-literal :
    (seg : String) (o : Option String) (f : Node → Node) (n : Node)
    → ((c : Node) → has_literal_keys c ≡ true → has_literal_keys (f c) ≡ true)
    → has_literal_keys n ≡ true
    → template_name seg ≡ o
    → has_literal_keys (place seg o f n) ≡ true
unfolding place has_literal_keys
place-literal seg none f (node cs tc tn terminals pt) ih k q =
    let new = child_or_new (get_child seg cs) in
    ground (
      arith,
      put-literal seg (f new) cs q,
      ih new (new-literal (get_child seg cs) cs seg (ground arith) refl),
    )
place-literal seg (some name) f (node cs tc tn terminals pt) ih k q =
    ground (arith, ih (template_or_new name tc) (template-literal name tc (ground arith)))

add_at-literal :
    (path : String) (ms segs : List String) (n : Node)
    → has_literal_keys n ≡ true
    → has_literal_keys (add_at path ms segs n) ≡ true
unfolding add_at has_literal_keys
add_at-literal path ms [] (node cs tc tn terminals pt) h = h
add_at-literal path ms (seg ∷ segs) n h =
    place-literal seg (template_name seg) (add_at path ms segs) n
      (λ c q. add_at-literal path ms segs c q) h refl

-- The paths that have been added, from the first on.
abbrev pub add_all : List (String × List String) → Node → Node
add_all [] root = root
add_all ((path, methods) ∷ added) root = add_all added (add_path path methods root)

add_all-literal :
    (added : List (String × List String)) (root : Node)
    → has_literal_keys root ≡ true
    → has_literal_keys (add_all added root) ≡ true
unfolding add_path
add_all-literal [] root h = h
add_all-literal ((path, ms) ∷ added) root h =
    add_all-literal added (add_path path ms root) (add_at-literal path ms (segments path) root h)

-- Whatever paths were added before, a path that is added to the tree is found by `match` under
-- its own text and each of its methods, in any letter case.
pub match-add_path :
    (added : List (String × List String)) (path method : String) (methods : List String)
    → elem (upper method) (map upper methods) ≡ true
    → match_path (add_path path methods (add_all added empty_node)) method path ≡ some path
unfolding match_path add_path has_literal_keys
match-add_path added path method methods h =
    add_at-found path methods (upper method) (segments path) (add_all added empty_node) h
      (add_all-literal added empty_node refl)
