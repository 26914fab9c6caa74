-- ===== src/Mining/PathNormalize.antt =====
-- packages/guardian_core/mining/path_normalize.py. The digits of `\d` are those of ASCII, and a URL
-- has a host that `urlsplit` accepts.
use Prim.Native.Char.{Char, code}
use Prim.Native.String.{String, [], ◌∷◌}
use living_api_contract_guar.Common.{
  ℕ, zero, suc, ◌+◌, Bool, true, false, not, Option, none, some, List, [], ◌∷◌, map, ◌&&◌, ◌||◌,
  ◌==◌, string_key, nat_beq, leb, get_or, if◌then◌else◌,
}
use living_api_contract_guar.Common.Dict.{Dict, get, put}
use living_api_contract_guar.Common.Text.{
  text_length, ◌<>◌, split, before, after, contains, has_prefix, ends_with, drop_last, after_prefix,
  join, decimal,
}

-- `urlsplit` of the standard library, for its path and query: the blanks that it drops
unfoldable pub drop_leading : String → String
drop_leading [] = ""
drop_leading (c ∷ s) = let rest = drop_leading s in if leb (code c) 32 then rest else c ∷ s

unfoldable pub drop_breaks : String → String
drop_breaks [] = ""
drop_breaks (c ∷ s) =
    let rest = drop_breaks s in
    if nat_beq (code c) 9 || nat_beq (code c) 10 || nat_beq (code c) 13 then rest else c ∷ rest

abbrev is_between : ℕ → ℕ → Char → Bool
is_between low high c = leb low (code c) && leb (code c) high

abbrev is_letter : Char → Bool
is_letter c = is_between 97 122 c || is_between 65 90 c

abbrev is_digit : Char → Bool
is_digit c = is_between 48 57 c

abbrev is_scheme_char : Char → Bool
is_scheme_char c =
    is_letter c || is_digit c || nat_beq (code c) 43 || nat_beq (code c) 45 || nat_beq (code c) 46

-- What follows the colon of a scheme.
unfoldable pub after_colon : String → Option String
after_colon [] = none
after_colon (c ∷ s) =
    let rest = after_colon s in
    if nat_beq (code c) 58 then some s else if is_scheme_char c then rest else none

unfoldable pub without_scheme : String → String
unfolding after_colon
without_scheme [] = ""
without_scheme (c ∷ s) = if is_letter c then get_or (after_colon (c ∷ s)) (c ∷ s) else c ∷ s

unfoldable pub drop_host : String → String
drop_host [] = ""
drop_host (c ∷ s) =
    let rest = drop_host s in
    if nat_beq (code c) 47 || nat_beq (code c) 63 || nat_beq (code c) 35 then c ∷ s else rest

abbrev without_host : String → Option String → String
without_host url none = url
without_host url (some rest) = drop_host rest

-- The path and the query.
unfoldable pub urlsplit : String → String × String
unfolding drop_leading drop_breaks without_scheme drop_host after_prefix before after
urlsplit url =
    let rest = without_scheme (drop_breaks (drop_leading url)) in
    let path_on = before 35 (without_host rest (after_prefix "//" rest)) in
    (before 63 path_on, after 63 path_on)

-- `parts.path or "/"`
abbrev pub path_or_root : String → String
path_or_root path = if path == "" then "/" else path

-- `_strip_scheme`
unfoldable pub strip_scheme : String → String
unfolding contains urlsplit
strip_scheme url =
    let parts = urlsplit url in
    let suffix = path_or_root parts.0 in
    if not (contains "://" url)
    then url
    else if parts.1 == ""
    then suffix
    else suffix <> "?" <> parts.1

abbrev label_next : String → Option ℕ → Dict String ℕ → String × Dict String ℕ
label_next name none seen = (name, put name 1 seen)
label_next name (some n) seen = (name <> decimal (n + 1), put name (n + 1) seen)

abbrev name_or_param : String → String
name_or_param raw = if raw == "" then "param" else raw

-- the loop of `_label_placeholders`
unfoldable pub label_from : Dict String ℕ → List String → List String
unfolding get put decimal
label_from seen [] = []
label_from seen (raw ∷ placeholders) =
    let name = name_or_param raw in
    let (label, seen2) = label_next name (get name seen) seen in
    label ∷ label_from seen2 placeholders

-- `_label_placeholders`
unfoldable pub label_placeholders : List String → List String
unfolding label_from
label_placeholders placeholders = label_from [] placeholders

-- `_PLACEHOLDER`
abbrev pub placeholder_sentinel : String
placeholder_sentinel = "\0P\0"

abbrev grow : Char → List String → List String
grow c [] = (c ∷ []) ∷ []
grow c (part ∷ parts) = (c ∷ part) ∷ parts

-- `path.split(_PLACEHOLDER)`, with the number of characters of the sentinel still to be skipped
unfoldable pub split_slots : ℕ → String → List String
unfolding has_prefix
split_slots n [] = "" ∷ []
split_slots (suc n) (c ∷ s) = split_slots n s
split_slots zero (c ∷ s) =
    let found = split_slots 2 s in
    let rest = split_slots zero s in
    if has_prefix placeholder_sentinel (c ∷ s) then "" ∷ found else grow c rest

-- the loop over `zip(labeled, parts[1:])`
unfoldable pub splice : List String → List String → String
splice [] segments = ""
splice (name ∷ labeled) [] = ""
splice (name ∷ labeled) (segment ∷ segments) =
    "{" <> name <> "}" <> segment <> splice labeled segments

abbrev pub spliced : List String → List String → String
spliced labeled [] = ""
spliced labeled (part ∷ parts) = part <> splice labeled parts

-- `rendered.replace("//", "/")`
unfoldable pub halve_slashes : String → String
halve_slashes [] = ""
halve_slashes (c ∷ []) = c ∷ []
halve_slashes (c ∷ d ∷ s) =
    let after_both = halve_slashes s in
    let after_first = halve_slashes (d ∷ s) in
    if nat_beq (code c) 47 && nat_beq (code d) 47 then c ∷ after_both else c ∷ after_first

-- `while "//" in rendered`, each round of which shortens the text
unfoldable pub collapse_within : ℕ → String → String
unfolding contains halve_slashes
collapse_within zero rendered = rendered
collapse_within (suc n) rendered =
    let rest = collapse_within n (halve_slashes rendered) in
    if contains "//" rendered then rest else rendered

unfoldable pub collapse_slashes : String → String
unfolding collapse_within
collapse_slashes rendered = collapse_within (text_length rendered) rendered

unfoldable pub drop_final_slash : String → String
unfolding ends_with drop_last
drop_final_slash rendered =
    if leb 2 (text_length rendered) && ends_with 47 rendered then drop_last rendered else rendered

-- `path if path.startswith("/") else "/" + path`
unfoldable pub rooted : String → String
unfolding has_prefix
rooted path = if has_prefix "/" path then path else "/" <> path

-- `normalize_template`
unfoldable pub normalize_template : String → List String → String
unfolding strip_scheme before label_placeholders split_slots splice collapse_slashes
    drop_final_slash rooted
normalize_template raw placeholders =
    let path = rooted (path_or_root (before 63 (strip_scheme raw))) in
    drop_final_slash
      (collapse_slashes (spliced (label_placeholders placeholders) (split_slots 0 path)))

-- The text before a final newline, where `$` also matches.
abbrev before_break : String → String
before_break s = if ends_with 10 s then drop_last s else s

abbrev all_chars : (Char → Bool) → String → Bool
all_chars p [] = true
all_chars p (c ∷ s) = p c && all_chars p s

-- `_NUMERIC_RE.match`
unfoldable pub is_numeric : String → Bool
unfolding ends_with drop_last
is_numeric s = let run = before_break s in not (run == "") && all_chars is_digit run

abbrev is_hex : Char → Bool
is_hex c = is_digit c || is_between 97 102 c || is_between 65 70 c

abbrev is_hex_run : ℕ → String → Bool
is_hex_run n s = nat_beq (text_length s) n && all_chars is_hex s

abbrev are_hex_runs : List ℕ → List String → Bool
are_hex_runs [] [] = true
are_hex_runs [] (s ∷ ss) = false
are_hex_runs (n ∷ ns) [] = false
are_hex_runs (n ∷ ns) (s ∷ ss) = is_hex_run n s && are_hex_runs ns ss

-- `_UUID_RE.match`
unfoldable pub is_uuid : String → Bool
unfolding split ends_with drop_last
is_uuid s = are_hex_runs (8 ∷ 4 ∷ 4 ∷ 4 ∷ 12 ∷ []) (split 45 (before_break s))

abbrev pub abstract_segment : String → String
abstract_segment seg = if is_numeric seg || is_uuid seg then "{id}" else seg

-- `abstract_static_segments`
unfoldable pub abstract_static_segments : String → String
unfolding split join is_numeric is_uuid
abstract_static_segments template = join "/" (map abstract_segment (split 47 template))
