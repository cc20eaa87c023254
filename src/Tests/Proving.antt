-- ===== src/Tests/Proving.antt =====
-- The theorems on evidence at a task that was tested twice and linted once.
use liu_he.Base.{In, ◌≡◌, refl, false, none, some, List, [], ◌∷◌, All, Option, if◌then◌else◌}
use liu_he.Base.Text.{Text, codes, ◌===◌}
use liu_he.Evidence.{
  Finding, Actual, on_file, on_scope, current_evidence, supersedes, evidence_scope, scope_superset,
  is_evidence_stale, stale_evidence_ids,
}
use liu_he.Evidence.Effective.{TaskFacts, file_change, effective_state, p_key, written_file_changed}
use liu_he.Evidence.Covers.{HasCover, current_evidence-IsCovered}

abbrev complete_run : Actual
complete_run = record { error = false; errored_files = false; scope_truncated = false }

abbrev first_test : Finding
first_test = record {
  evidence_id = codes "e1";
  kind = codes "test";
  goal_revision = some 1;
  result = codes "fail";
  actual = complete_run;
  depends_on = on_file (codes "a.js") (codes "h1") ∷ [];
}

abbrev lint : Finding
lint = record first_test { evidence_id = codes "e2"; kind = codes "lint" }

abbrev second_test : Finding
second_test = record first_test {
  evidence_id = codes "e3";
  depends_on =
      on_file (codes "b.js") (codes "h2")
      ∷ on_file (codes "a.js") (codes "h3")
      ∷ on_scope [] (codes "h4")
      ∷ [];
}

abbrev collected : List Finding
collected = first_test ∷ lint ∷ second_test ∷ []

first_is_superseded : current_evidence collected ≡ lint ∷ second_test ∷ []
unfolding current_evidence supersedes evidence_scope scope_superset
first_is_superseded = refl

lint_is_stale :
    stale_evidence_ids (λ f. some (codes "h3")) (λ s. codes "h4") (lint ∷ []) ≡ codes "e2" ∷ []
unfolding stale_evidence_ids is_evidence_stale current_evidence supersedes
lint_is_stale = refl

current_evidence-IsCovered_example :
    ((c : Finding) → In c (current_evidence collected) → In c collected)
    × All (HasCover (current_evidence collected)) collected
current_evidence-IsCovered_example = current_evidence-IsCovered collected

abbrev validated_task : TaskFacts
validated_task = record {
  result_kind = codes "validated";
  goal_revision = 2;
  validated_goal_revision = some 2;
  evidence = second_test ∷ [];
  operations =
      record {
        kind = codes "patch";
        state = codes "succeeded";
        file = codes "./a.js";
        result_file_hash = codes "h0";
        result_hashes = [];
      }
      ∷ [];
}

abbrev hash_now : Text → Option Text
hash_now f = if f === codes "b.js" then some (codes "h2") else some (codes "h3")

-- the test ran after the write, so the hash that the write left is not compared
is_fresh : effective_state hash_now (λ s. codes "h4") validated_task ≡ none
unfolding effective_state stale_evidence_ids current_evidence is_evidence_stale p_key
    written_file_changed
is_fresh = refl

is_changed : effective_state (λ f. none) (λ s. codes "h4") validated_task ≡ some file_change
unfolding effective_state stale_evidence_ids current_evidence is_evidence_stale p_key
    written_file_changed
is_changed = refl
