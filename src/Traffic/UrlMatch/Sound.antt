-- ===== src/Traffic/UrlMatch/Sound.antt =====
-- What `RouteTree.match` of url_match.py returns, against the segments of both paths.
use text.Mathlib.TextEquality.{eq_iff}
use mathlib.Core.List.{append_assoc, append-nil}
use living_api_contract_guar.Common.{
  String, Bool, true, false, Option, none, some, List, [], ◌∷◌, ◌++◌, ◌≡◌, refl, sym, ◌∙◌, arith,
  map, ◌&&◌, ◌==◌, string_key, beq_refl, All, Some, Bool-cases, inl, inr,
}
use living_api_contract_guar.Common.Text.{upper}
use living_api_contract_guar.Traffic.UrlMatch.{
  Node, node, Children, no_children, child, Child, absent, present, empty_node, template_name,
  segments, get_child, put_child, child_or_new, template_or_new, place, add_at, add_path, next_node,
  descend, template_at, match_path,
}
use living_api_contract_guar.Traffic.UrlMatch.Register.{add_all}

pub data Pattern : Type 0 where
  literal : String → Pattern
  any_segment : Pattern

abbrev pattern_from : String → Option String → Pattern
pattern_from seg none = literal seg
pattern_from seg (some name) = any_segment

-- A template segment fits every segment, another segment itself only.
unfoldable pub pattern_of : String → Pattern
unfolding template_name
pattern_of seg = pattern_from seg (template_name seg)

unfoldable pub fits : List Pattern → List String → Bool
fits [] [] = true
fits [] (s ∷ ss) = false
fits (p ∷ ps) [] = false
fits (literal l ∷ ps) (s ∷ ss) = (l == s) && fits ps ss
fits (any_segment ∷ ps) (s ∷ ss) = fits ps ss

-- The template stored at a node spells the way to it, and is one of the paths `P`.
module _ (P : String → Type 0) where
  abbrev Spells : List Pattern → Option String → Type 0
  Spells way none = Unit
  Spells way (some path) = (map pattern_of (segments path) ≡ way) × P path

  unfoldable mutual
    pub Placed : List Pattern → Node → Type 0
    Placed way (node cs tc tn terminals pt) = Spells way pt × AllPlaced way cs × ChildPlaced way tc

    pub AllPlaced : List Pattern → Children → Type 0
    AllPlaced way no_children = Unit
    AllPlaced way (child s n cs) = Placed (way ++ (literal s ∷ [])) n × AllPlaced way cs

    pub ChildPlaced : List Pattern → Child → Type 0
    ChildPlaced way absent = Unit
    ChildPlaced way (present n) = Placed (way ++ (any_segment ∷ [])) n

  get-Placed :
      (way : List Pattern) (seg : String) (cs : Children) (n : Node)
      → AllPlaced way cs
      → get_child seg cs ≡ some n
      → Placed (way ++ (literal seg ∷ [])) n
  unfolding Placed
  get-Placed way seg no_children n h q = absurd cc
  get-Placed way seg (child s m cs) n h q = elim (Bool-cases (s == seg)) [
    | inl e ↦
        let w : s ≡ seg = (eq_iff s seg).0 e in
        let v : m ≡ n = ground (arith, q, e) in rw (← w, ← v) h.0
    | inr e ↦ get-Placed way seg cs n h.1 (ground (arith, q, e))
  ]

  put-Placed :
      (way : List Pattern) (seg : String) (n : Node) (cs : Children)
      → AllPlaced way cs
      → Placed (way ++ (literal seg ∷ [])) n
      → AllPlaced way (put_child seg n cs)
  unfolding Placed
  put-Placed way seg n no_children h k = (k, tt)
  put-Placed way seg n (child s m cs) h k = elim (Bool-cases (s == seg)) [
    | inl e ↦
        let w : s ≡ seg = (eq_iff s seg).0 e in
        let at : Placed (way ++ (literal s ∷ [])) n = rw w k in rw e (at, h.1)
    | inr e ↦ rw e (h.0, put-Placed way seg n cs h.1 k)
  ]

  new-Placed :
      (way : List Pattern) (seg : String) (cs : Children) (o : Option Node)
      → AllPlaced way cs
      → get_child seg cs ≡ o
      → Placed (way ++ (literal seg ∷ [])) (child_or_new o)
  unfolding Placed
  new-Placed way seg cs none h q = (tt, tt, tt)
  new-Placed way seg cs (some n) h q = get-Placed way seg cs n h q

  template-Placed :
      (way : List Pattern) (name : String) (tc : Child)
      → ChildPlaced way tc
      → Placed (way ++ (any_segment ∷ [])) (template_or_new name tc)
  unfolding Placed
  template-Placed way name absent h = (tt, tt, tt)
  template-Placed way name (present n) h = h

  place-Placed :
      (way : List Pattern) (seg : String) (o : Option String) (f : Node → Node) (n : Node)
      → ((c : Node)
          → Placed (way ++ (pattern_from seg o ∷ [])) c
          → Placed (way ++ (pattern_from seg o ∷ [])) (f c))
      → Placed way n
      → Placed way (place seg o f n)
  unfolding place Placed
  place-Placed way seg none f (node cs tc tn terminals pt) ih h =
      let new = child_or_new (get_child seg cs) in
      (
        h.0,
        put-Placed way seg (f new) cs h.1
            (ih new (new-Placed way seg cs (get_child seg cs) h.1 refl)),
        h.2,
      )
  place-Placed way seg (some name) f (node cs tc tn terminals pt) ih h =
      (h.0, h.1, ih (template_or_new name tc) (template-Placed way name tc h.2))

  add_at-Placed :
      (path : String) (ms segs : List String) (way : List Pattern) (n : Node)
      → P path
      → map pattern_of (segments path) ≡ way ++ map pattern_of segs
      → Placed way n
      → Placed way (add_at path ms segs n)
  unfolding add_at Placed pattern_of
  add_at-Placed path ms [] way (node cs tc tn terminals pt) p q h =
      ((q ∙ append-nil way, p), h.1, h.2)
  add_at-Placed path ms (seg ∷ segs) way n p q h =
      place-Placed way seg (template_name seg) (add_at path ms segs) n
        (λ c k.
          add_at-Placed path ms segs (way ++ (pattern_of seg ∷ [])) c p
            (q ∙ sym (append_assoc way (pattern_of seg ∷ []) (map pattern_of segs))) k)
        h

  add_all-Placed :
      (added : List (String × List String)) (root : Node)
      → All (λ a. P a.0) added
      → Placed [] root
      → Placed [] (add_all added root)
  unfolding add_path
  add_all-Placed [] root h k = k
  add_all-Placed ((path, ms) ∷ added) root h k =
      add_all-Placed added (add_path path ms root) h.1
        (add_at-Placed path ms (segments path) [] root h.0 refl k)

  -- Where the walk of `match` ends, it has followed a way that fits.
  abbrev Reached : List Pattern → List String → Node → Type 0
  Reached way segs n = (more : List Pattern) × Placed (way ++ more) n × (fits more segs ≡ true)

  step-Reached :
      (way : List Pattern) (p : Pattern) (seg : String) (segs : List String) (n : Node)
      → fits (p ∷ []) (seg ∷ []) ≡ true
      → Reached (way ++ (p ∷ [])) segs n
      → Reached way (seg ∷ segs) n
  unfolding fits
  step-Reached way p seg segs n h (more, placed, q) =
      (p ∷ more, rw (← append_assoc way (p ∷ []) more) placed, ground arith)

  next-Reached :
      (seg : String) (segs : List String) (way : List Pattern) (cs : Children) (tc : Child)
      (n2 : Node) (o : Option Node)
      → ((p : Pattern) (c : Node)
          → Placed (way ++ (p ∷ [])) c
          → descend segs c ≡ some n2
          → Reached (way ++ (p ∷ [])) segs n2)
      → AllPlaced way cs
      → ChildPlaced way tc
      → get_child seg cs ≡ o
      → (elim (next_node o tc) [ none ↦ none | some n ↦ descend segs n ]) ≡ some n2
      → Reached way (seg ∷ segs) n2
  unfolding Placed fits
  next-Reached seg segs way cs tc n2 (some c) ih h k r q =
      step-Reached way (literal seg) seg segs n2 (rw (beq_refl seg) refl)
        (ih (literal seg) c (get-Placed way seg cs c h r) q)
  next-Reached seg segs way cs absent n2 none ih h k r q = absurd cc
  next-Reached seg segs way cs (present c) n2 none ih h k r q =
      step-Reached way any_segment seg segs n2 refl (ih any_segment c k q)

  descend-Reached :
      (segs : List String) (way : List Pattern) (n n2 : Node)
      → Placed way n
      → descend segs n ≡ some n2
      → Reached way segs n2
  unfolding descend fits Placed
  descend-Reached [] way n n2 h q =
      let same : n ≡ n2 = cc in ([], rw (append-nil way, ← same) h, refl)
  descend-Reached (seg ∷ segs) way (node cs tc tn terminals pt) n2 h q =
      next-Reached seg segs way cs tc n2 (get_child seg cs)
        (λ p c k e. descend-Reached segs (way ++ (p ∷ [])) c n2 k e) h.1 h.2 refl q

  template_at-Spells :
      (method path : String) (way : List Pattern) (n : Node)
      → Placed way n
      → template_at method (some n) ≡ some path
      → (map pattern_of (segments path) ≡ way) × P path
  unfolding template_at Placed
  template_at-Spells method path way (node cs tc tn terminals none) h q = absurd cc
  template_at-Spells method path way (node cs tc tn terminals (some other)) h q =
      let same : other ≡ path = ground (arith, q) in rw (← same) h.0

  found-fits :
      (method path observed : String) (root : Node) (o : Option Node)
      → Placed [] root
      → descend (segments observed) root ≡ o
      → template_at method o ≡ some path
      → P path × (fits (map pattern_of (segments path)) (segments observed) ≡ true)
  unfolding template_at
  found-fits method path observed root none h q e = absurd cc
  found-fits method path observed root (some n) h q e =
      let (more, placed, fit) = descend-Reached (segments observed) [] root n h q in
      let (spells, p) = template_at-Spells method path more n placed e in (p, rw spells fit)

-- The path is one of those added.
abbrev pub IsAdded : List (String × List String) → String → Type 0
IsAdded added path = Some (λ a. a.0 ≡ path) added

All-IsAdded :
    (P : String → Type 0) (added : List (String × List String))
    → ((path : String) → IsAdded added path → P path)
    → All (λ a. P a.0) added
All-IsAdded P [] h = tt
All-IsAdded P ((path, ms) ∷ added) h = (h path (inl refl), All-IsAdded P added (λ p k. h p (inr k)))

-- A template that `match` returns for an observed path is one of the paths added to the tree, and
-- the observed path has as many segments, each equal to the template's or facing a `{…}` segment.
pub match-fits :
    (added : List (String × List String)) (method observed path : String)
    → match_path (add_all added empty_node) method observed ≡ some path
    → IsAdded added path × (fits (map pattern_of (segments path)) (segments observed) ≡ true)
unfolding match_path Placed
match-fits added method observed path e =
    let root = add_all added empty_node in
    found-fits (IsAdded added) (upper method) path observed root (descend (segments observed) root)
      (add_all-Placed (IsAdded added) added empty_node
        (All-IsAdded (IsAdded added) added (λ p k. k)) (tt, tt, tt))
      refl e
