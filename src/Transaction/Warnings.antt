-- ===== src/Transaction/Warnings.antt =====
-- `bracketWarnings` of malong/tools/tool-edit-transaction/transaction-store.js: one pass over a text
-- that leaves out strings and comments and reports brackets without a partner.
use liu_he.Base.{
  ℕ, zero, suc, ◌+◌, Bool, true, false, ◌||◌, ◌&&◌, Option, none, some, List, [], ◌∷◌, ◌++◌, ◌==◌,
  if◌then◌else◌,
}
use liu_he.Base.Text.{Text, newline, backslash, apostrophe}
use liu_he.Edit.Brackets.{is_open, is_close}
use liu_he.Edit.Brackets.Strip.{Lang, hash_is_comment, is_quote, head_is}
pub mod Balanced

pub record Opened : Type 0 where
  pub char : ℕ
  pub line : ℕ

pub data Warning : Type 0 where
  extra_closing : ℕ → ℕ → Warning
  mismatch : Opened → ℕ → Warning
  unclosed : Opened → Warning

-- where the pass is; `escaped` skips one code unit
pub data Mode : Type 0 where
  in_code line_comment block_comment comment_end comment_start : Mode
  in_string escaped : ℕ → Mode

-- `pairs[ch]`
abbrev pub open_of : ℕ → ℕ
open_of c = if c == b')' then b'(' else if c == b']' then b'[' else b'{'

-- the mode behind a code unit of code, which the next one may decide
abbrev pub enter : Bool → ℕ → Text → Option Mode
enter hash c s =
    if c == b'/' && head_is b'/' s
    then some line_comment
    else if c == b'/' && head_is b'*' s
    then some comment_start
    else if is_quote c
    then some (in_string c)
    else if c == b'#' && hash
    then some line_comment
    else none

-- the mode behind a code unit elsewhere
abbrev pub leave : Mode → ℕ → Text → Mode
leave line_comment c s = if c == newline then in_code else line_comment
leave block_comment c s = if c == b'*' && head_is b'/' s then comment_end else block_comment
leave comment_end c s = in_code
leave comment_start c s = block_comment
leave (in_string q) c s =
    if c == backslash then escaped q else if c == q then in_code else in_string q
leave (escaped q) c s = in_string q
leave in_code c s = in_code

abbrev pub next_line : ℕ → ℕ → ℕ
next_line line c = if c == newline then suc line else line

-- what a code unit does: the mode behind it, the stack, whose top comes first, and the warnings
pub record Step : Type 0 where
  pub mode : Mode
  pub stack : List Opened
  pub warnings : List Warning

abbrev pub close_bracket : ℕ → ℕ → List Opened → Step
close_bracket line c [] = record {
  mode = in_code;
  stack = [];
  warnings = extra_closing c line ∷ [];
}
close_bracket line c (top ∷ rest) = record {
  mode = in_code;
  stack = rest;
  warnings = if top.char == open_of c then [] else mismatch top c ∷ [];
}

unfoldable pub match_bracket : ℕ → ℕ → List Opened → Step
match_bracket line c stack =
    if is_open c
    then record { mode = in_code; stack = record { char = c; line = line } ∷ stack; warnings = [] }
    else if is_close c
    then close_bracket line c stack
    else record { mode = in_code; stack = stack; warnings = [] }

abbrev pub enter_or_match : ℕ → ℕ → List Opened → Option Mode → Step
enter_or_match line c stack (some m) = record { mode = m; stack = stack; warnings = [] }
enter_or_match line c stack none = match_bracket line c stack

unfoldable pub step_of : Bool → ℕ → Mode → List Opened → ℕ → Text → Step
step_of hash line in_code stack c s = enter_or_match line c stack (enter hash c s)
step_of hash line m stack c s = record { mode = leave m c s; stack = stack; warnings = [] }

-- from the bottom of the stack
abbrev pub unclosed_warnings : List Opened → List Warning
unclosed_warnings [] = []
unclosed_warnings (o ∷ stack) = unclosed_warnings stack ++ unclosed o ∷ []

unfoldable pub warn_loop : Bool → ℕ → Mode → List Opened → Text → List Warning
warn_loop hash line m stack [] = unclosed_warnings stack
warn_loop hash line m stack (c ∷ s) =
    let step = step_of hash line m stack c s in
    step.warnings ++ warn_loop hash (next_line line c) step.mode step.stack s

unfoldable pub bracket_warnings : Text → Lang → List Warning
bracket_warnings content lang = warn_loop (hash_is_comment lang) 1 in_code [] content
