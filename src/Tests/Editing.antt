-- ===== src/Tests/Editing.antt =====
-- The theorems on edits at small files.
use liu_he.Base.{◌≡◌, ◌↔◌, refl, none, some, List, [], ◌∷◌, false, arith}
use liu_he.Base.Text.{Text, codes, trim, split, join}
use liu_he.Edit.Diff.{IsDiff, make_simple_diff}
use liu_he.Edit.Diff.Exact.{make_simple_diff-IsDiff}
use liu_he.Edit.Brackets.{check_bracket_balance, balanced, unbalanced, unclosed, check_loop}
use liu_he.Edit.Brackets.Strip.{other, py, strip_literals}
use liu_he.Edit.Brackets.Dyck.{IsDyck}
use liu_he.Edit.Brackets.Total.{check_bracket_balance-IsDyck}
use liu_he.Edit.Apply.{apply_replace, count_occurrences}
use liu_he.Edit.Batch.{
  WriteItem, Applied, patch_mode, replace_symbol, applied, ok, apply_batch_item,
}
use liu_he.Base.Int.{pos}
use liu_he.Edit.Batch.Locality.{IsLocal, apply_batch_item-IsLocal}

abbrev file : List Text
file = codes "a" ∷ codes "b" ∷ codes "c" ∷ []

abbrev edited_file : List Text
edited_file = codes "a" ∷ codes "x" ∷ codes "y" ∷ codes "c" ∷ []

diff_counts : (make_simple_diff file edited_file).lines_changed ≡ 2
unfolding make_simple_diff
diff_counts = refl

make_simple_diff-IsDiff_example : IsDiff file edited_file (make_simple_diff file edited_file)
make_simple_diff-IsDiff_example = make_simple_diff-IsDiff file edited_file

-- brackets in strings, comments and regular expressions do not count
literals_ignored : check_bracket_balance (codes "f(\"}\", /[)]/) // (") other ≡ some balanced
unfolding check_bracket_balance strip_literals check_loop
literals_ignored = refl

wrong_order : check_bracket_balance (codes "f([)]") py ≡ some (unbalanced (some b']') b')')
unfolding check_bracket_balance strip_literals check_loop
wrong_order = refl

never_closed : check_bracket_balance (codes "{(") other ≡ some (unclosed (codes "{("))
unfolding check_bracket_balance strip_literals check_loop
never_closed = refl

check_bracket_balance-IsDyck_example :
    (code : Text) × (strip_literals py (codes "f(x) # )") ≡ some code)
    × ((check_bracket_balance (codes "f(x) # )") py ≡ some balanced) ↔ IsDyck code)
check_bracket_balance-IsDyck_example = check_bracket_balance-IsDyck (codes "f(x) # )") py (λ e. cc)

abbrev replacement : WriteItem
replacement = record { content = some (codes "x\ny"); patch = none }

abbrev replaced : Applied
replaced = record {
  lines = edited_file;
  delta = some (pos 1);
  diff = some (make_simple_diff file edited_file);
  status = ok;
}

replacement_applied :
    apply_batch_item file (some (2, 2)) replacement replace_symbol false ≡ applied replaced
unfolding apply_batch_item apply_replace trim split join
replacement_applied = refl

apply_batch_item-IsLocal_example : IsLocal file 2 2 replaced
apply_batch_item-IsLocal_example =
    apply_batch_item-IsLocal file 2 2 replacement replace_symbol false replaced (omega arith)
      (omega arith) (omega arith) replacement_applied

abbrev patched_once : Applied
patched_once = record {
  lines = codes "a" ∷ codes "z" ∷ codes "c" ∷ [];
  delta = some (pos 0);
  diff = some (make_simple_diff file (codes "a" ∷ codes "z" ∷ codes "c" ∷ []));
  status = ok;
}

patch_applied :
    apply_batch_item file none
      (record {
        content = none;
        patch = some (record { old_string = some (codes "b"); new_string = some (codes "z") });
      })
      patch_mode
      false
    ≡ applied patched_once
unfolding apply_batch_item count_occurrences split join
patch_applied = refl
