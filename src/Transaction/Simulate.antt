-- ===== src/Transaction/Simulate.antt =====
-- `simulateEdits` of malong/tools/tool-edit-transaction/transaction-store.js: the edits of one file, one
-- after the other, with what matched and what failed. The hints of a failure, its closest match and
-- the remark on long lines, are left out.
use liu_he.Base.{
  ℕ, zero, suc, ◌+◌, ◌-◌, Bool, true, false, not, Option, none, some, List, [], ◌∷◌, ◌++◌, length,
  take, drop, ltb, if◌then◌else◌,
}
use liu_he.Base.Text.{Text, ◌===◌, starts_with, split, join, is_missing}
use liu_he.Edit.Apply.{count_occurrences}
use liu_he.Transaction.Span.{
  LineSpan, Edit, Reason, empty_old_string, not_found, Spanned, SpanResult, refused, spanned,
  apply_line_span, start_of,
}
pub mod Replacing
pub mod Runs

abbrev pub one_further : Option ℕ → Option ℕ
one_further none = none
one_further (some i) = some (suc i)

-- `indexOf`
unfoldable pub index_of : Text → Text → Option ℕ
index_of needle [] = if is_missing needle then some 0 else none
index_of needle (c ∷ s) =
    let rest = one_further (index_of needle s) in
    if starts_with needle (c ∷ s) then some 0 else rest

-- `replaceAll` for a needle that is not empty: behind a hit, `skip` code units belong to it
unfoldable pub replace_from : Text → Text → ℕ → Text → Text
replace_from needle new skip [] = []
replace_from needle new (suc skip) (c ∷ s) = replace_from needle new skip s
replace_from needle new zero (c ∷ s) =
    let hit = starts_with needle (c ∷ s) in
    let rest = replace_from needle new (if hit then length needle - 1 else 0) s in
    if hit then new ++ rest else c ∷ rest

abbrev pub replace_all : Text → Text → Text → Text
replace_all needle new s = replace_from needle new 0 s

pub data MatchMode : Type 0 where
  line_span every first : MatchMode

pub record Match : Type 0 where
  pub index : ℕ
  pub mode : MatchMode
  pub line : Option ℕ
  pub occurrences : Option ℕ
  pub anchor_checked : Bool

pub record Failure : Type 0 where
  pub index : ℕ
  pub reason : Reason

pub record Ambiguity : Type 0 where
  pub index : ℕ
  pub occurrences : ℕ

pub record Simulation : Type 0 where
  pub result : Text
  pub applied : ℕ
  pub failed_edits : List Failure
  pub ambiguous_edits : List Ambiguity
  pub matches : List Match

abbrev pub fail_edit : Simulation → ℕ → Reason → Simulation
fail_edit st i reason = record st {
  failed_edits = st.failed_edits ++ record { index = i; reason = reason } ∷ [];
}

abbrev pub apply_edit : Simulation → Match → Text → Simulation
apply_edit st m result = record st {
  result = result;
  applied = suc st.applied;
  matches = st.matches ++ m ∷ [];
}

-- `edit.new_string ?? (edit.new_lines joined, or '')`
unfoldable pub new_text : Edit → Text
new_text edit = elim edit.new_string [
  | some s ↦ s
  | none ↦ elim edit.new_lines [ none ↦ [] | some lines ↦ join lines ]
]

unfoldable pub span_edit : Simulation → ℕ → LineSpan → SpanResult → Simulation
span_edit st i ls (refused reason) = fail_edit st i reason
span_edit st i ls (spanned s) =
    apply_edit st
      (record {
        index = i;
        mode = line_span;
        line = some (start_of ls.start_line);
        occurrences = none;
        anchor_checked = s.anchor_checked;
      })
      s.result

unfoldable pub replace_edit : Simulation → ℕ → Text → Text → Simulation
replace_edit st i old new =
    let replaced = replace_all old new st.result in
    if not (replaced === st.result)
    then apply_edit st
        (record {
          index = i;
          mode = every;
          line = none;
          occurrences = some (count_occurrences st.result old);
          anchor_checked = false;
        })
        replaced
    else fail_edit st i not_found

abbrev pub note_ambiguity : Simulation → ℕ → ℕ → Simulation
note_ambiguity st i occurrences =
    if ltb 1 occurrences
    then record st {
      ambiguous_edits = st.ambiguous_edits ++ record { index = i; occurrences = occurrences } ∷ [];
    }
    else st

unfoldable pub first_edit : Simulation → ℕ → Text → Text → Option ℕ → Simulation
first_edit st i old new none = fail_edit st i not_found
first_edit st i old new (some at) =
    let occurrences = count_occurrences st.result old in
    apply_edit (note_ambiguity st i occurrences)
      (record {
        index = i;
        mode = first;
        line = some (length (split (take at st.result)));
        occurrences = some occurrences;
        anchor_checked = false;
      })
      (take at st.result ++ (new ++ drop (at + length old) st.result))

module _ (sha256 : Text → Text) (base : Text) where
  unfoldable pub edit_by : Simulation → ℕ → Edit → Option LineSpan → Simulation
  edit_by st i edit (some ls) = span_edit st i ls (apply_line_span sha256 st.result base edit ls)
  edit_by st i edit none =
      if is_missing edit.old_string
      then fail_edit st i empty_old_string
      else if edit.replace_all
      then replace_edit st i edit.old_string (new_text edit)
      else first_edit st i edit.old_string (new_text edit) (index_of edit.old_string st.result)

  abbrev pub simulate_edit : Simulation → ℕ → Edit → Simulation
  simulate_edit st i edit = edit_by st i edit edit.line_span

  unfoldable pub simulate_from : Simulation → ℕ → List Edit → Simulation
  simulate_from st i [] = st
  simulate_from st i (edit ∷ edits) = simulate_from (simulate_edit st i edit) (suc i) edits

abbrev pub start_simulation : Text → Simulation
start_simulation content = record {
  result = content;
  applied = 0;
  failed_edits = [];
  ambiguous_edits = [];
  matches = [];
}

unfoldable pub simulate_edits : (Text → Text) → Text → List Edit → Simulation
simulate_edits sha256 content edits =
    simulate_from sha256 content (start_simulation content) 0 edits
