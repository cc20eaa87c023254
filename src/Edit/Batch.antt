-- ===== src/Edit/Batch.antt =====
-- `applyBatchItem` of malong/write-runtime.js: one item of a batch on the lines of its file.
pub mod Unique
pub mod Locality
use liu_he.Base.{
  ℕ, zero, suc, ◌+◌, ◌-◌, Bool, true, false, not, ◌&&◌, Option, none, some, List, [], ◌∷◌, ◌++◌,
  take, drop, length, ltb, ◌==◌, if◌then◌else◌,
}
use liu_he.Base.Text.{Text, ◌===◌, starts_with, trim, split, join}
use mathlib.Core.Option
use liu_he.Base.Int.{ℤ, sub_ℕ}
use liu_he.Edit.Diff.{Diff, make_simple_diff}
use liu_he.Edit.Apply.{
  EditError, EditResult, Edited, error, edited, single_line_symbol, body_contains_signature,
  count_occurrences, apply_replace, apply_body_edit, apply_insert_after,
}

pub data EditMode : Type 0 where
  patch_mode replace_symbol insert_after_symbol unknown_mode : EditMode

-- `patch`; a field is absent if the caller gave no string there
pub record Patch : Type 0 where
  pub old_string : Option Text
  pub new_string : Option Text

pub record WriteItem : Type 0 where
  pub content : Option Text
  pub patch : Option Patch

pub data ItemError : Type 0 where
  missing_parameter old_string_not_found old_string_ambiguous invalid_input : ItemError
  edit_error : EditError → ItemError

pub data Status : Type 0 where
  ok patched already_applied : Status

pub record Applied : Type 0 where
  pub lines : List Text
  pub delta : Option ℤ
  pub diff : Option Diff
  pub status : Status

pub data ItemResult : Type 0 where
  failed : ItemError → ItemResult
  applied : Applied → ItemResult

-- the text of the lines `[a, b]`
abbrev pub slice_text : List Text → ℕ × ℕ → Text
slice_text lines (a, b) = join (take (b - (a - 1)) (drop (a - 1) lines))

abbrev pub scope_text : List Text → Option (ℕ × ℕ) → Text
scope_text lines none = join lines
scope_text lines (some range) = slice_text lines range

-- `s.replace(old, () => new)`: the first occurrence
unfoldable pub replace_first : Text → Text → Text → Text
replace_first old new [] = if starts_with old [] then new else []
replace_first old new (c ∷ s) =
    let rest = replace_first old new s in
    if starts_with old (c ∷ s) then new ++ drop (length old) (c ∷ s) else c ∷ rest

abbrev unchanged : List Text → ItemResult
unchanged lines =
    applied (record { lines = lines; delta = none; diff = none; status = already_applied })

-- `delta` by the lengths of the lines, and the diff
abbrev pub changed : List Text → List Text → Status → ItemResult
changed lines new_lines status = applied (record {
  lines = new_lines;
  delta = some (sub_ℕ (length new_lines) (length lines));
  diff = some (make_simple_diff lines new_lines);
  status = status;
})

abbrev pub patch_lines : List Text → ℕ × ℕ → Text → List Text
patch_lines lines (a, b) body = take (a - 1) lines ++ (split body ++ drop b lines)

patch_scope : List Text → Option (ℕ × ℕ) → Text → Option Text → ItemResult
unfolding replace_first
patch_scope lines (some (a, b)) old new =
    let body = replace_first old (Option.get_or new []) (slice_text lines (a, b)) in
    let new_lines = patch_lines lines (a, b) body in
    applied (record {
      lines = new_lines;
      delta = some (sub_ℕ (length (split body) + a) (b + 1));
      diff = some (make_simple_diff lines new_lines);
      status = ok;
    })
patch_scope lines none old none = changed lines (split (replace_first old [] (join lines))) patched
patch_scope lines none old (some new) =
    changed lines (split (replace_first old new (join lines))) ok

patch_new : Option Text → Text → Bool
patch_new none scope = false
patch_new (some []) scope = false
patch_new (some (c ∷ new)) scope = ltb 0 (count_occurrences scope (c ∷ new))

patch_old : List Text → Option (ℕ × ℕ) → Option Text → Option Text → ItemResult
unfolding patch_scope patch_new
patch_old lines target none new = failed missing_parameter
patch_old lines target (some []) new = failed missing_parameter
patch_old lines target (some (c ∷ old)) new =
    let occurrences = count_occurrences (scope_text lines target) (c ∷ old) in
    if occurrences == 0
    then (if patch_new new (scope_text lines target)
        then unchanged lines
        else failed old_string_not_found)
    else if ltb 1 occurrences
    then failed old_string_ambiguous
    else patch_scope lines target (c ∷ old) new

patch_item : List Text → Option (ℕ × ℕ) → Option Patch → ItemResult
unfolding patch_old
patch_item lines target none = failed missing_parameter
patch_item lines target (some p) = patch_old lines target p.old_string p.new_string

body_result : List Text → EditResult → ItemResult
body_result lines (error e) = failed (edit_error e)
body_result lines (edited r) = changed lines r.lines ok

replace_item : List Text → ℕ × ℕ → Bool → Text → ItemResult
unfolding body_result
replace_item lines (a, b) true content =
    if trim (join (take (b - a) (drop a lines))) === trim content
    then unchanged lines
    else body_result lines (apply_body_edit lines (a + 1, b) content)
replace_item lines (a, b) false content =
    if trim (slice_text lines (a, b)) === trim content
    then unchanged lines
    else changed lines (apply_replace lines (a, b) content).lines ok

content_item : List Text → Option (ℕ × ℕ) → Option Text → EditMode → Bool → ItemResult
unfolding replace_item
content_item lines target none mode body = failed missing_parameter
content_item lines (some range) (some content) replace_symbol body =
    replace_item lines range body content
content_item lines (some range) (some content) insert_after_symbol body =
    changed lines (apply_insert_after lines range content).lines ok
content_item lines none (some content) replace_symbol body = failed missing_parameter
content_item lines none (some content) insert_after_symbol body = failed missing_parameter
content_item lines target (some content) _ body = failed invalid_input

-- `target` is the range of the symbol, if the item names one; `body` says that the boundary is `body`
unfoldable pub apply_batch_item :
    List Text → Option (ℕ × ℕ) → WriteItem → EditMode → Bool → ItemResult
unfolding patch_item content_item
apply_batch_item lines target w patch_mode body = patch_item lines target w.patch
apply_batch_item lines target w mode body = content_item lines target w.content mode body
