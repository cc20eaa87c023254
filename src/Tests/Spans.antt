-- ===== src/Tests/Spans.antt =====
-- The theorems on transactions, at edits of a small file.
use liu_he.Base.{◌≡◌, ◌↔◌, refl, true, false, none, some, [], ◌∷◌, length}
use liu_he.Base.Text.{Text, codes, split, join}
use liu_he.Edit.Apply.{count_occurrences}
use liu_he.Edit.Brackets.Dyck.{IsDyck}
use liu_he.Edit.Brackets.Strip.{py, hash_is_comment}
use liu_he.Transaction.Span.{
  LineSpan, Edit, Spanned, spanned, at, lines_of, uses_crlf, with_eol, new_lines_of, place,
  place_new, norm_sha, apply_line_span,
}
use liu_he.Transaction.Span.Exact.{IsFresh}
use liu_he.Transaction.Span.Ended.{IsPlaced, apply_line_span-IsPlaced}
use liu_he.Transaction.Simulate.{
  index_of, new_text, first_edit, edit_by, simulate_from, simulate_edits,
}
use liu_he.Transaction.Simulate.Runs.{Run, simulate_edits-Run}
use liu_he.Transaction.Warnings.{
  extra_closing, in_code, match_bracket, step_of, warn_loop, bracket_warnings,
}
use liu_he.Transaction.Warnings.Balanced.{code_of, bracket_warnings-IsDyck}

-- a hash that is the length
abbrev size_hash : Text → Text
size_hash s = length s ∷ []

abbrev content : Text
content = codes "a\nb\nc\n"

abbrev second_line : LineSpan
second_line = record { start_line = some 2; end_line = at 2; expect_sha = some (6 ∷ []) }

abbrev span_replacement : Edit
span_replacement = record {
  line_span = some second_line;
  old_string = [];
  new_string = some (codes "x\ny");
  new_lines = none;
  expect_sha = none;
  replace_all = false;
}

abbrev text_replacement : Edit
text_replacement = record {
  line_span = none;
  old_string = codes "a";
  new_string = some (codes "z");
  new_lines = none;
  expect_sha = none;
  replace_all = false;
}

abbrev replaced_lines : Spanned
replaced_lines = record { result = codes "a\nx\ny\nc\n"; anchor_checked = true }

span_is_accepted :
    apply_line_span size_hash content content span_replacement second_line ≡ spanned replaced_lines
unfolding apply_line_span lines_of uses_crlf with_eol new_lines_of place place_new norm_sha split
    join
span_is_accepted = refl

apply_line_span-IsPlaced_example :
    IsPlaced content 2 (at 2) (new_lines_of none (some (codes "x\ny"))) replaced_lines
    × IsFresh size_hash content (some (6 ∷ []))
apply_line_span-IsPlaced_example =
    apply_line_span-IsPlaced size_hash content content span_replacement second_line replaced_lines
      span_is_accepted

-- the second edit fails, since its text is no longer there
both_edits :
    (simulate_edits size_hash content (text_replacement ∷ text_replacement ∷ [])).result
    ≡ codes "z\nb\nc\n"
unfolding simulate_edits simulate_from edit_by first_edit index_of new_text count_occurrences
both_edits = refl

simulate_edits-Run_example :
    let st = simulate_edits size_hash content (span_replacement ∷ text_replacement ∷ []) in
    Run size_hash content content
      (span_replacement ∷ text_replacement ∷ [])
      st.result
      st.applied
      (length st.failed_edits)
    × (length st.matches ≡ st.applied)
simulate_edits-Run_example =
    simulate_edits-Run size_hash content (span_replacement ∷ text_replacement ∷ [])

closed_once_more : bracket_warnings (codes "f() # (\n)") py ≡ extra_closing b')' 2 ∷ []
unfolding bracket_warnings warn_loop step_of match_bracket
closed_once_more = refl

bracket_warnings-IsDyck_example :
    (bracket_warnings (codes "f() # (\n)") py ≡ [])
    ↔ IsDyck (code_of (hash_is_comment py) in_code (codes "f() # (\n)"))
bracket_warnings-IsDyck_example = bracket_warnings-IsDyck (codes "f() # (\n)") py
