-- ===== src/Transaction/Span.antt =====
-- `applyLineSpan` of malong/tools/tool-edit-transaction/transaction-store.js: an edit of a range of
-- lines, which may be anchored to a hash of the text that the caller has read. The hash is a parameter.
use liu_he.Base.{
  ℕ, zero, suc, ◌+◌, ◌-◌, Bool, true, false, not, ◌&&◌, Option, none, some, List, [], ◌∷◌, ◌++◌,
  map, length, take, drop, get_elem?, ltb, ◌==◌, if◌then◌else◌,
}
use liu_he.Base.Text.{Text, codes, ◌===◌, starts_with, split, join, newline, is_missing}
pub mod Exact
pub mod Ended

-- the last line of a range: absent for an insertion, `null` for the end of the file
pub data EndLine : Type 0 where
  absent to_end not_an_integer : EndLine
  at : ℕ → EndLine

-- a start that is no positive integer is `none` or 0
pub record LineSpan : Type 0 where
  pub start_line : Option ℕ
  pub end_line : EndLine
  pub expect_sha : Option Text

pub record Edit : Type 0 where
  pub line_span : Option LineSpan
  pub old_string : Text
  pub new_string : Option Text
  pub new_lines : Option (List Text)
  pub expect_sha : Option Text
  pub replace_all : Bool

pub data Reason : Type 0 where
  invalid_line_span conflicting_expect_sha stale_content line_span_out_of_range
        missing_new_content :
      Reason
  empty_old_string not_found : Reason

pub record Spanned : Type 0 where
  pub result : Text
  pub anchor_checked : Bool

pub data SpanResult : Type 0 where
  refused : Reason → SpanResult
  spanned : Spanned → SpanResult

abbrev pub carriage_return : ℕ
carriage_return = 13

-- `endsWith` and `slice(0, -1)`
abbrev pub ends_with_code : ℕ → Text → Bool
ends_with_code c [] = false
ends_with_code c (a ∷ []) = a == c
ends_with_code c (a ∷ b ∷ s) = ends_with_code c (b ∷ s)

abbrev pub drop_last {ℓ} : {A : Type ℓ} → List A → List A
drop_last [] = []
drop_last (a ∷ []) = []
drop_last (a ∷ b ∷ s) = a ∷ drop_last (b ∷ s)

-- `String(v).replace(/^sha256:/, '')`
unfoldable pub norm_sha : Text → Text
norm_sha v = if starts_with (codes "sha256:") v then drop 7 v else v

abbrev pub shas_conflict : Option Text → Option Text → Bool
shas_conflict (some outer) (some inner) = not (norm_sha outer === norm_sha inner)
shas_conflict _ _ = false

-- the anchor within `line_span` first
abbrev pub anchor_of : Option Text → Option Text → Option Text
anchor_of outer none = outer
anchor_of outer (some inner) = some inner

abbrev pub is_anchored : Option Text → Bool
is_anchored none = false
is_anchored (some sha) = not (is_missing sha)

-- the lines of a text, without the empty one behind its last newline
unfoldable pub lines_of : Text → List Text
lines_of content =
    if ends_with_code newline content then drop_last (split content) else split content

abbrev pub tail_of : Text → Text
tail_of content = if ends_with_code newline content then newline ∷ [] else []

abbrev pub has_crlf : Text → Bool
has_crlf [] = false
has_crlf (a ∷ []) = false
has_crlf (a ∷ b ∷ s) =
    let rest = has_crlf (b ∷ s) in if a == carriage_return && b == newline then true else rest

-- the end of a line that is there and not empty
abbrev pub eol_of_line : Option Text → Bool → Bool
eol_of_line none rest = rest
eol_of_line (some l) rest = if is_missing l then rest else ends_with_code carriage_return l

-- `lines[start - 2]`
abbrev pub line_before : List Text → ℕ → Option Text
line_before lines zero = none
line_before lines (suc zero) = none
line_before lines (suc (suc i)) = get_elem? lines i

-- do new lines end in `\r\n`? As the line at the anchor, or the one before, or any.
unfoldable pub uses_crlf : Text → List Text → ℕ → Bool
uses_crlf content lines start =
    eol_of_line (get_elem? lines (start - 1))
      (eol_of_line (line_before lines start) (has_crlf content))

unfoldable pub with_eol : Bool → Text → Text
with_eol true l = if ends_with_code carriage_return l then l else l ++ carriage_return ∷ []
with_eol false l = if ends_with_code carriage_return l then drop_last l else l

unfoldable pub new_lines_of : Option (List Text) → Option Text → Option (List Text)
new_lines_of (some lines) new_string = some lines
new_lines_of none none = none
new_lines_of none (some s) = some (if is_missing s then [] else split s)

-- the result for an admissible start: the lines before it, the new ones, and those from `upto` on
abbrev pub placed : Text → List Text → ℕ → ℕ → List Text → Bool → SpanResult
placed content lines start upto new anchored = spanned (record {
  result = join (take (start - 1) lines ++ (new ++ drop upto lines)) ++ tail_of content;
  anchor_checked = anchored;
})

unfoldable pub place : Text → List Text → ℕ → EndLine → List Text → Bool → SpanResult
place content lines start absent new anchored = placed content lines start (start - 1) new anchored
place content lines start to_end new anchored =
    placed content lines start (length lines) new anchored
place content lines start not_an_integer new anchored = refused invalid_line_span
place content lines start (at end) new anchored =
    if ltb end start
    then refused invalid_line_span
    else if ltb (length lines) end
    then refused line_span_out_of_range
    else placed content lines start end new anchored

unfoldable pub place_new : Text → List Text → ℕ → EndLine → Option (List Text) → Bool → SpanResult
place_new content lines start end none anchored = refused missing_new_content
place_new content lines start end (some new) anchored =
    place content lines start end (map (with_eol (uses_crlf content lines start)) new) anchored

abbrev pub start_of : Option ℕ → ℕ
start_of none = 0
start_of (some n) = n

module _ (sha256 : Text → Text) where
  -- an anchor that the text read at first does not match
  abbrev pub is_stale : Text → Option Text → Bool
  is_stale base none = false
  is_stale base (some sha) = if is_missing sha then false else not (sha256 base === norm_sha sha)

  unfoldable pub apply_line_span : Text → Text → Edit → LineSpan → SpanResult
  apply_line_span content base edit ls =
      let start = start_of ls.start_line in
      let anchor = anchor_of edit.expect_sha ls.expect_sha in
      let lines = lines_of content in
      if start == 0
      then refused invalid_line_span
      else if shas_conflict edit.expect_sha ls.expect_sha
      then refused conflicting_expect_sha
      else if is_stale base anchor
      then refused stale_content
      else if ltb (length lines + 1) start
      then refused line_span_out_of_range
      else place_new content lines start ls.end_line (new_lines_of edit.new_lines edit.new_string)
          (is_anchored anchor)
