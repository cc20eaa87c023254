-- ===== src/Strings.antt =====
-- malong/string-utils.js: the string literals of a line, for the checks that search a line by patterns.
-- Each loop moves an index, which here is a pass over the line; an escape is a flag for the character
-- behind it.
pub mod Literals
use liu_he.Base.{
  ℕ, zero, suc, ◌+◌, ◌-◌, Bool, true, false, ◌&&◌, ◌||◌, Option, none, some, List, [], ◌∷◌, any,
  leb, ltb, ◌==◌, if◌then◌else◌,
}
use liu_he.Base.Text.{Text, backslash, apostrophe}

abbrev pub quotation : ℕ
quotation = 34

abbrev pub backtick : ℕ
backtick = 96

abbrev pub is_quote : ℕ → Bool
is_quote c = c == apostrophe || c == quotation || c == backtick

-- outside of literals, in one with its quote and its start, or behind a backslash in it
pub data Place : Type 0 where
  outside : Place
  inside : ℕ → ℕ → Place
  escaped : ℕ → ℕ → Place

-- `collectStringRanges`, from an index on
unfoldable pub ranges_from : Place → ℕ → Text → List (ℕ × ℕ)
ranges_from place i [] = []
ranges_from outside i (c ∷ s) =
    let entered = ranges_from (inside c i) (suc i) s in
    let rest = ranges_from outside (suc i) s in if is_quote c then entered else rest
ranges_from (escaped q start) i (c ∷ s) = ranges_from (inside q start) (suc i) s
ranges_from (inside q start) i (c ∷ s) =
    let behind = ranges_from (escaped q start) (suc i) s in
    let left = ranges_from outside (suc i) s in
    let more = ranges_from (inside q start) (suc i) s in
    if c == backslash then behind else if c == q then (start, suc i) ∷ left else more

unfoldable pub collect_string_ranges : Text → List (ℕ × ℕ)
collect_string_ranges line = ranges_from outside 0 line

abbrev is_within : ℕ → ℕ × ℕ → Bool
is_within i (start, end) = leb start i && ltb i end

unfoldable pub is_in_string : Text → ℕ → Bool
is_in_string line i = any (is_within i) (collect_string_ranges line)

-- where `stripStrings` is: in the text, in a literal, behind a backslash in it, behind the dollar sign of
-- an expression, or in an expression of a template, with its open braces, in a literal of it, or behind
-- a backslash there
pub data Strip : Type 0 where
  in_text : Strip
  in_literal : ℕ → Strip
  in_escape : ℕ → Strip
  at_brace : Strip
  in_expression : ℕ → Strip
  in_inner : ℕ → ℕ → Strip
  in_inner_escape : ℕ → ℕ → Strip

abbrev starts_expression : ℕ → ℕ → Text → Bool
starts_expression q c [] = false
starts_expression q c (d ∷ _) = q == backtick && c == b'$' && d == b'{'

-- the place behind a brace of an expression; the last one ends it
abbrev pub after_close : ℕ → Strip
after_close zero = in_literal backtick
after_close (suc zero) = in_literal backtick
after_close (suc (suc n)) = in_expression (suc n)

abbrev pub next_in_expression : ℕ → ℕ → Strip
next_in_expression depth c =
    if c == quotation || c == apostrophe
    then in_inner depth c
    else if c == b'{'
    then in_expression (suc depth)
    else if c == b'}'
    then after_close depth
    else in_expression depth

abbrev pub next_in_inner : ℕ → ℕ → ℕ → Strip
next_in_inner depth q c =
    if c == backslash
    then in_inner_escape depth q
    else if c == q
    then in_expression depth
    else in_inner depth q

abbrev pub next_in_literal : ℕ → ℕ → Text → Strip
next_in_literal q c s =
    if c == backslash
    then in_escape q
    else if c == q
    then in_text
    else if starts_expression q c s
    then at_brace
    else in_literal q

abbrev pub keep_in_literal : ℕ → ℕ → Text → List ℕ → List ℕ
keep_in_literal q c s rest =
    if c == backslash
    then rest
    else if c == q
    then rest
    else if starts_expression q c s
    then c ∷ rest
    else rest

unfoldable pub strip_from : Strip → Text → Text
strip_from place [] = []
strip_from in_text (c ∷ s) =
    let entered = strip_from (in_literal c) s in
    let rest = strip_from in_text s in if is_quote c then entered else c ∷ rest
strip_from (in_literal q) (c ∷ s) = keep_in_literal q c s (strip_from (next_in_literal q c s) s)
strip_from (in_escape q) (c ∷ s) = strip_from (in_literal q) s
strip_from at_brace (c ∷ s) = c ∷ strip_from (in_expression 1) s
strip_from (in_expression depth) (c ∷ s) = c ∷ strip_from (next_in_expression depth c) s
strip_from (in_inner depth q) (c ∷ s) = c ∷ strip_from (next_in_inner depth q c) s
strip_from (in_inner_escape depth q) (c ∷ s) = c ∷ strip_from (in_inner depth q) s

unfoldable pub strip_strings : Text → Text
strip_strings line = strip_from in_text line
