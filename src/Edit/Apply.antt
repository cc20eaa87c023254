-- ===== src/Edit/Apply.antt =====
-- `countOccurrences`, `applyReplace`, `applyBodyEdit` and `applyInsertAfter` of malong/write-edit.js.
-- A range is that of a symbol: its first line counts from 1.
use liu_he.Base.{
  ℕ, zero, suc, ◌-◌, Bool, true, false, not, ◌&&◌, none, some, List, [], ◌∷◌, ◌++◌, take, drop,
  length, any, get_elem?, ltb, if◌then◌else◌,
}
use liu_he.Base.Text.{Text, ◌===◌, starts_with, trim, split}
use liu_he.Edit.Diff.{Diff, make_simple_diff}

-- the loop over `indexOf`: after a hit the scan goes on behind it, `skip` code units on
unfoldable pub count_from : Text → ℕ → Text → ℕ
count_from needle skip [] = 0
count_from needle (suc skip) (c ∷ s) = count_from needle skip s
count_from needle zero (c ∷ s) =
    let hit = starts_with needle (c ∷ s) in
    let rest = count_from needle (if hit then length needle - 1 else 0) s in
    if hit then suc rest else rest

unfoldable pub count_occurrences : Text → Text → ℕ
unfolding count_from
count_occurrences haystack [] = 0
count_occurrences haystack (c ∷ needle) = count_from (c ∷ needle) 0 haystack

pub record Edited : Type 0 where
  pub lines : List Text
  pub diff : Diff

pub data EditError : Type 0 where
  single_line_symbol body_contains_signature : EditError

pub data EditResult : Type 0 where
  error : EditError → EditResult
  edited : Edited → EditResult

-- the lines with `[a, b]` replaced by the lines of a text
abbrev pub splice : List Text → ℕ → ℕ → Text → List Text
splice lines a b new_content = take (a - 1) lines ++ (split new_content ++ drop b lines)

unfoldable pub apply_replace : List Text → ℕ × ℕ → Text → Edited
apply_replace lines (a, b) new_content =
    let new_lines = splice lines a b new_content in
    record { lines = new_lines; diff = make_simple_diff lines new_lines }

-- `lines[a - 2]?.trim() || ''`
signature_line : List Text → ℕ → Text
signature_line lines zero = []
signature_line lines (suc zero) = []
signature_line lines (suc (suc i)) = elim (get_elem? lines i) [ none ↦ [] | some l ↦ trim l ]

abbrev is_empty_text : Text → Bool
is_empty_text [] = true
is_empty_text (_ ∷ _) = false

-- the two early returns
abbrev pub unless : Bool → Bool → Edited → EditResult
unless single has_signature r =
    if single
    then error single_line_symbol
    else if has_signature
    then error body_contains_signature
    else edited r

unfoldable pub apply_body_edit : List Text → ℕ × ℕ → Text → EditResult
unfolding signature_line
apply_body_edit lines (a, b) new_content =
    let sig_trim = signature_line lines a in
    let new_lines = splice lines a b new_content in
    unless (ltb b a)
      (not (is_empty_text sig_trim) && any (λ l. trim l === sig_trim) (split new_content))
      (record { lines = new_lines; diff = make_simple_diff lines new_lines })

unfoldable pub apply_insert_after : List Text → ℕ × ℕ → Text → Edited
apply_insert_after lines (_, b) new_content =
    let new_lines = take b lines ++ (split new_content ++ drop b lines) in
    record { lines = new_lines; diff = make_simple_diff lines new_lines }
