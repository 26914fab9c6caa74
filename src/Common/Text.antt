-- ===== src/Common/Text.antt =====
-- Operations of Python's `str` that the program uses. Letters beyond ASCII keep their case.
use Prim.Native.Char.{Char, code}
use Prim.Native.Nat.{ℕ, zero, suc, ◌-◌, ◌/◌, ◌%◌}
use Prim.Native.String
use Prim.Native.String.{String, [], ◌∷◌, char_at}
use mathlib.Core.Bool.{◌&&◌, ◌||◌, Bool, true, false}
use mathlib.Core.Option.{Option, none, some}
use mathlib.Core.List.{List, [], ◌∷◌}
use text.Mathlib.Text.{◌==◌}
use living_api_contract_guar.Common.Tests.{leb, ltb, nat_beq, if◌then◌else◌}

-- `s + t`, and the parts of an f-string
infixr 65 ◌<>◌
abbrev pub ◌<>◌ : String → String → String
s <> t = String.◌++◌ s t

-- `len(s)`
abbrev pub text_length : String → ℕ
text_length [] = 0
text_length (c ∷ s) = suc (text_length s)

upper_char : Char → Char
upper_char c =
    if leb b'a' (code c) && leb (code c) b'z'
    then char_at "ABCDEFGHIJKLMNOPQRSTUVWXYZ" (code c - 97)
    else c

lower_char : Char → Char
lower_char c =
    if leb b'A' (code c) && leb (code c) b'Z'
    then char_at "abcdefghijklmnopqrstuvwxyz" (code c - 65)
    else c

-- `s.upper()`
unfoldable pub upper : String → String
unfolding upper_char
upper [] = ""
upper (c ∷ s) = upper_char c ∷ upper s

-- `s.lower()`
unfoldable pub lower : String → String
unfolding lower_char
lower [] = ""
lower (c ∷ s) = lower_char c ∷ lower s

-- `list(s)`: the characters as texts of length one
unfoldable pub letters : String → List String
letters [] = []
letters (c ∷ s) = (c ∷ []) ∷ letters s

prepend : Char → List String → List String
prepend c [] = (c ∷ []) ∷ []
prepend c (part ∷ parts) = (c ∷ part) ∷ parts

-- `s.split(chr(sep))`; the result is never empty
unfoldable pub split : ℕ → String → List String
unfolding prepend
split sep [] = "" ∷ []
split sep (c ∷ s) =
    let rest = split sep s in if nat_beq (code c) sep then "" ∷ rest else prepend c rest

-- `s.split(chr(sep), 1)[0]`
unfoldable pub before : ℕ → String → String
before sep [] = ""
before sep (c ∷ s) = let rest = before sep s in if nat_beq (code c) sep then "" else c ∷ rest

unfoldable pub has_prefix : String → String → Bool
has_prefix [] s = true
has_prefix (c ∷ p) [] = false
has_prefix (c ∷ p) (d ∷ s) =
    let rest = has_prefix p s in if nat_beq (code c) (code d) then rest else false

-- `part in s`
unfoldable pub contains : String → String → Bool
unfolding has_prefix
contains part [] = part == ""
contains part (c ∷ s) = let rest = contains part s in if has_prefix part (c ∷ s) then true else rest

-- `sep.join(parts)`
unfoldable pub join : String → List String → String
join sep [] = ""
join sep (part ∷ []) = part
join sep (part ∷ more ∷ parts) = part <> sep <> join sep (more ∷ parts)

-- `s.split(chr(sep), 1)[1]`, or "" without the separator
unfoldable pub after : ℕ → String → String
after sep [] = ""
after sep (c ∷ s) = let rest = after sep s in if nat_beq (code c) sep then s else rest

-- `s.endswith(suffix)` for a suffix of one character
unfoldable pub ends_with : ℕ → String → Bool
ends_with last [] = false
ends_with last (c ∷ []) = nat_beq (code c) last
ends_with last (c ∷ d ∷ s) = ends_with last (d ∷ s)

-- `s[:-1]`
unfoldable pub drop_last : String → String
drop_last [] = ""
drop_last (c ∷ []) = ""
drop_last (c ∷ d ∷ s) = c ∷ drop_last (d ∷ s)

-- The rest of a text after a prefix.
unfoldable pub after_prefix : String → String → Option String
after_prefix [] s = some s
after_prefix (c ∷ p) [] = none
after_prefix (c ∷ p) (d ∷ s) =
    let rest = after_prefix p s in if nat_beq (code c) (code d) then rest else none

digit : ℕ → Char
digit n = char_at "0123456789" n

digits_of : ℕ → ℕ → String → String
unfolding digit
digits_of zero n out = out
digits_of (suc fuel) n out =
    let more = digits_of fuel (n / 10) (digit (n % 10) ∷ out) in
    if ltb n 10 then digit n ∷ out else more

-- `str(n)`
unfoldable pub decimal : ℕ → String
unfolding digits_of
decimal n = digits_of (suc n) n ""

-- The characters at which `s.splitlines()` ends a line.
is_line_break : ℕ → Bool
is_line_break n =
    leb 10 n && leb n 13 || leb 28 n && leb n 30 || nat_beq n 133 || leb 8232 n && leb n 8233

-- `s.splitlines()`
unfoldable pub splitlines : String → List String
unfolding prepend is_line_break
splitlines [] = []
splitlines (c ∷ []) = if is_line_break (code c) then "" ∷ [] else (c ∷ []) ∷ []
splitlines (c ∷ d ∷ s) =
    let after_both = splitlines s in
    let rest = splitlines (d ∷ s) in
    if nat_beq (code c) 13 && nat_beq (code d) 10
    then "" ∷ after_both
    else if is_line_break (code c)
    then "" ∷ rest
    else prepend c rest

-- White space of ASCII, which is what `s.strip()` drops there.
is_blank : Char → Bool
is_blank c =
    nat_beq (code c) 32 || leb 9 (code c) && leb (code c) 13 || leb 28 (code c) && leb (code c) 31

unfoldable pub lstrip : String → String
unfolding is_blank
lstrip [] = ""
lstrip (c ∷ s) = let rest = lstrip s in if is_blank c then rest else c ∷ s

unfoldable pub rstrip : String → String
unfolding is_blank
rstrip [] = ""
rstrip (c ∷ s) = let rest = rstrip s in if is_blank c && (rest == "") then "" else c ∷ rest

-- `s.strip()`
unfoldable pub strip : String → String
unfolding lstrip rstrip
strip s = rstrip (lstrip s)
