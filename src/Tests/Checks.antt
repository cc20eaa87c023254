-- ===== src/Tests/Checks.antt =====
-- The theorems on check attempts at a task whose test was cancelled and run again.
use liu_he.Base.{ℕ, ◌≡◌, refl, Bool, true, false, none, some, List, [], ◌∷◌, All, Option}
use liu_he.Base.Text.{Text, codes, trim, is_space}
use liu_he.Evidence.{current_evidence, stale_evidence_ids}
use liu_he.Evidence.Effective.{effective_state, written_file_changed, p_key}
use liu_he.Attempts.{
  Stamps, CheckParams, CheckOperation, JobRecord, Attempt, op_attempt, job_attempt, stamps_time,
  check_attempts,
}
use liu_he.Attempts.Scope.{
  scope_of_attempt, normalize_scope_workdir, normalize_scope_checks, covers_stopped_attempt,
  stopped_attempt_resolutions, settled_ids, CheckScope,
}
use liu_he.Projection.{
  TaskRecord, inflight_facts, progress_of, project_effective_state, normalize_task_record, done,
}
use liu_he.Projection.Done.{
  IsOver, IsClosed, IsCounted, IsJobCounted, IsMadeUp, project_effective_state-done,
}

-- a moment is one digit
abbrev read_digit : Text → Option ℕ
read_digit [] = none
read_digit (c ∷ _) = some c

abbrev never_after : Text → Text → Bool
never_after a b = false

abbrev same_case : Text → Text
same_case t = t

abbrev at : Text → Stamps
at t = record { finished = t; updated = []; started = []; created = []; heartbeat = [] }

abbrev test_in_app : CheckParams
test_in_app = record {
  checks = codes " test" ∷ [];
  workdir = some (codes "./app/");
  timeout = none;
  verifier = none;
}

abbrev cancelled_test : CheckOperation
cancelled_test = record {
  operation_id = codes "o1";
  job_id = codes "j1";
  write = record {
    kind = codes "check";
    state = codes "indeterminate";
    file = [];
    result_file_hash = [];
    result_hashes = [];
  };
  params = test_in_app;
  stamps = at (codes "1");
}

abbrev first_job : JobRecord
first_job = record {
  job_id = codes "j1";
  operation_id = codes "o1";
  kind = codes "check";
  state = codes "indeterminate";
  params = test_in_app;
  stamps = at (codes "2");
}

abbrev second_job : JobRecord
second_job = record {
  job_id = codes "j2";
  operation_id = [];
  kind = codes "check";
  state = codes "succeeded";
  params = record {
    checks = codes "lint" ∷ codes "test" ∷ [];
    workdir = some (codes "app");
    timeout = none;
    verifier = none;
  };
  stamps = at (codes "3");
}

abbrev jobs : List JobRecord
jobs = first_job ∷ second_job ∷ []

abbrev checked_task : TaskRecord
checked_task = record {
  lifecycle = none;
  goal_revision = none;
  validated_goal_revision = some 1;
  result_kind = codes "validated";
  evidence = [];
  operations = cancelled_test ∷ [];
}

abbrev first_attempt : Attempt
first_attempt = record {
  attempt_id = codes "j1";
  operation_id = codes "o1";
  job_id = codes "j1";
  state = codes "indeterminate";
  time = b'2';
  has_scope = true;
  op = some cancelled_test;
  job = some first_job;
}

abbrev second_attempt : Attempt
second_attempt = record {
  attempt_id = codes "j2";
  operation_id = [];
  job_id = codes "j2";
  state = codes "succeeded";
  time = b'3';
  has_scope = true;
  op = none;
  job = some second_job;
}

two_attempts :
    check_attempts read_digit never_after (cancelled_test ∷ []) jobs
    ≡ second_attempt ∷ first_attempt ∷ []
unfolding check_attempts op_attempt job_attempt stamps_time
two_attempts = refl

directory_is_normal : normalize_scope_workdir (some (codes " .//app\\ ")) ≡ some (codes "app")
unfolding normalize_scope_workdir trim is_space
directory_is_normal = refl

shown_as_done :
    (project_effective_state
      (λ f. none)
      (λ s. [])
      read_digit
      never_after
      same_case
      jobs
      checked_task).progress
    ≡ done
unfolding project_effective_state progress_of normalize_task_record inflight_facts check_attempts
    op_attempt job_attempt stamps_time stopped_attempt_resolutions covers_stopped_attempt
    scope_of_attempt normalize_scope_workdir normalize_scope_checks settled_ids trim is_space
    effective_state current_evidence stale_evidence_ids written_file_changed p_key
shown_as_done = refl

second_covers_first : covers_stopped_attempt same_case second_attempt first_attempt ≡ true
unfolding covers_stopped_attempt scope_of_attempt normalize_scope_workdir normalize_scope_checks
    trim is_space
second_covers_first = refl

abbrev second_scope : CheckScope
second_scope = record {
  checks = codes "lint" ∷ codes "test" ∷ [];
  workdir = some (codes "app");
  timeout = none;
  verifier = none;
  from_operation = false;
  operation_id = [];
  job_id = codes "j2";
  job_state = codes "succeeded";
  attempt_state = codes "succeeded";
  attempt_time = b'3';
}

abbrev first_scope : CheckScope
first_scope = record {
  checks = codes " test" ∷ [];
  workdir = some (codes "./app/");
  timeout = none;
  verifier = none;
  from_operation = true;
  operation_id = codes "o1";
  job_id = codes "j1";
  job_state = codes "indeterminate";
  attempt_state = codes "indeterminate";
  attempt_time = b'2';
}

second_scope_read : scope_of_attempt second_attempt ≡ some second_scope
unfolding scope_of_attempt
second_scope_read = refl

first_scope_read : scope_of_attempt first_attempt ≡ some first_scope
unfolding scope_of_attempt
first_scope_read = refl

abbrev all_attempts : List Attempt
all_attempts = check_attempts read_digit never_after (cancelled_test ∷ []) jobs

project_effective_state-done_example :
    (checked_task.result_kind ≡ codes "validated")
    × ((project_effective_state
          (λ f. none)
          (λ s. [])
          read_digit
          never_after
          same_case
          jobs
          checked_task).reason
        ≡ none)
    × All (IsOver same_case all_attempts) jobs
    × All (IsClosed same_case all_attempts) checked_task.operations
    × All (IsCounted same_case all_attempts) checked_task.operations
    × All (IsJobCounted same_case all_attempts) jobs
    × All (IsMadeUp same_case all_attempts) all_attempts
project_effective_state-done_example =
    project_effective_state-done (λ f. none) (λ s. []) read_digit never_after same_case jobs
      checked_task shown_as_done
