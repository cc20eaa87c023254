-- ===== src/Edit/Brackets/Strip.antt =====
-- `stripLiteralsForBracket` of malong/write-edit.js and what it calls. A position in the text is the
-- text from there on; the output is kept in reverse, as `regexMayStart` reads it from its end.
use liu_he.Base.{
  ℕ, zero, suc, Bool, true, false, not, ◌&&◌, ◌||◌, Option, none, some, List, [], ◌∷◌, any, leb,
  ◌==◌, if◌then◌else◌, length,
}
use liu_he.Base.Text.{Text, codes, newline, backslash, apostrophe, ◌===◌, drop_while, take_while}
use mathlib.Core.List.{reverse}

-- `lang`, as far as this file tells languages apart
pub data Lang : Type 0 where
  py rb bash other : Lang

abbrev pub hash_is_comment : Lang → Bool
hash_is_comment py = true
hash_is_comment rb = true
hash_is_comment _ = false

abbrev member : ℕ → Text → Bool
member c s = any (λ d. c == d) s

abbrev regex_allowed_after : Text
regex_allowed_after = codes "(,=:[!&|?{};+-*%<>^~"

abbrev pub regex_keywords : List Text
regex_keywords =
    codes "return"
    ∷ codes "typeof"
    ∷ codes "case"
    ∷ codes "in"
    ∷ codes "of"
    ∷ codes "new"
    ∷ codes "delete"
    ∷ codes "void"
    ∷ codes "instanceof"
    ∷ codes "do"
    ∷ codes "else"
    ∷ codes "yield"
    ∷ codes "await"
    ∷ codes "throw"
    ∷ []

abbrev pub id_char : ℕ → Bool
id_char c =
    leb b'a' c && leb c b'z'
    || leb b'A' c && leb c b'Z'
    || leb b'0' c && leb c b'9'
    || c == b'_'
    || c == b'$'

abbrev is_blank : ℕ → Bool
is_blank c = c == b' ' || c == newline || c == 9 || c == 13

may_follow : Text → Bool
may_follow [] = true
may_follow (c ∷ before) =
    if id_char c
    then any (λ k. k === reverse (take_while id_char (c ∷ before))) regex_keywords
    else member c regex_allowed_after

unfoldable pub regex_may_start : Text → Bool
unfolding may_follow
regex_may_start out = may_follow (drop_while is_blank out)

-- Behind the opening `/`: the text behind the closing one, if the literal ends on its line. The second
-- flag says that the last code unit was a backslash.
unfoldable pub scan_regex : Bool → Bool → Text → Option Text
scan_regex in_class escaped [] = none
scan_regex in_class true (c ∷ s) = scan_regex in_class false s
scan_regex in_class false (c ∷ s) =
    let rest =
      scan_regex (if c == b'[' then true else if c == b']' then false else in_class)
        (c == backslash) s in
    if c == newline
    then none
    else if c == backslash
    then rest
    else if c == b'/' && not in_class
    then some s
    else rest

-- behind an opening quote: the text behind the closing one
unfoldable pub skip_string : ℕ → Bool → Text → Text
skip_string quote escaped [] = []
skip_string quote true (c ∷ s) = skip_string quote false s
skip_string quote false (c ∷ s) =
    let rest = skip_string quote (c == backslash) s in
    if c == backslash then rest else if c == quote then s else rest

unfoldable pub skip_line : Text → Text
skip_line [] = []
skip_line (c ∷ s) = let rest = skip_line s in if c == newline then c ∷ s else rest

unfoldable pub skip_block : Text → Text
skip_block [] = []
skip_block (c ∷ []) = []
skip_block (c ∷ d ∷ s) = let rest = skip_block (d ∷ s) in if c == b'*' && d == b'/' then s else rest

abbrev pub is_quote : ℕ → Bool
is_quote c = c == b'"' || c == apostrophe || c == b'`'

abbrev pub head_is : ℕ → Text → Bool
head_is d [] = false
head_is d (c ∷ s) = c == d

abbrev pub skip_one : Text → Text
skip_one [] = []
skip_one (c ∷ s) = s

abbrev pub regex_or_char : ℕ → Text → Option Text → ℕ × Text
regex_or_char c s none = (c, s)
regex_or_char c s (some rest) = (b' ', rest)

-- one round of the loop: what goes to the output, and the text from the new position on
unfoldable pub lex_step : Bool → Text → ℕ → Text → ℕ × Text
lex_step hash out c s =
    if is_quote c
    then (b' ', skip_string c false s)
    else if c == b'/' && head_is b'/' s
    then (b' ', skip_line s)
    else if c == b'/' && head_is b'*' s
    then (b' ', skip_block (skip_one s))
    else if c == b'#' && hash
    then (b' ', skip_line s)
    else if c == b'/' && regex_may_start out
    then regex_or_char c s (scan_regex false false s)
    else (c, s)

-- `none` if the fuel runs out
unfoldable pub strip_loop : ℕ → Bool → Text → Text → Option Text
strip_loop fuel hash out [] = some (reverse out)
strip_loop zero hash out (c ∷ s) = none
strip_loop (suc fuel) hash out (c ∷ s) =
    let (d, rest) = lex_step hash out c s in strip_loop fuel hash (d ∷ out) rest

-- each round moves the position on, so as many rounds as code units are enough
unfoldable pub strip_literals : Lang → Text → Option Text
unfolding strip_loop lex_step skip_string skip_line skip_block regex_may_start scan_regex
strip_literals lang text = strip_loop (length text) (hash_is_comment lang) [] text
