-- ===== src/Projection.antt =====
-- malong/workflow/effective-state.js: what is in flight for a task, and the projection that every
-- outlet shows of it. The message of a flight, the notes and the counters are left out.
pub mod Done
use liu_he.Base.{
  ℕ, suc, ◌+◌, Bool, true, false, ◌&&◌, ◌||◌, not, Option, none, some, List, [], ◌∷◌, map, any,
  take, length, if◌then◌else◌,
}
use liu_he.Base.Text.{Text, codes, ◌===◌, is_missing}
use liu_he.Evidence.{Finding, member}
use liu_he.Evidence.Effective.{StaleReason, goal_change, file_change, pending_work, effective_state}
use liu_he.Attempts.{CheckOperation, JobRecord, Attempt, is_check, filter, check_attempts, or_text}
use liu_he.Attempts.Scope.{
  CheckScope, Resolution, stopped_attempt_resolutions, unresolved_attempts, is_unresolved,
  settled_ids, scope_of_attempt,
}

-- a task as it is stored: an absent field is none, or empty
pub record TaskRecord : Type 0 where
  pub lifecycle : Option Text
  pub goal_revision : Option ℕ
  pub validated_goal_revision : Option ℕ
  pub result_kind : Text
  pub evidence : List Finding
  pub operations : List CheckOperation

-- `normalizeTaskRecord`
pub record Normalized : Type 0 where
  pub lifecycle : Text
  pub terminal : Bool
  pub goal_revision : ℕ
  pub validated_goal_revision : Option ℕ
  pub result_kind : Text
  pub evidence : List Finding
  pub operations : List CheckOperation

abbrev pub terminal_words : List Text
terminal_words = codes "cancelled" ∷ codes "completed" ∷ codes "done" ∷ codes "abandoned" ∷ []

abbrev get_or {ℓ} : {A : Type ℓ} → A → Option A → A
get_or d none = d
get_or d (some a) = a

unfoldable pub normalize_task_record : TaskRecord → Normalized
normalize_task_record t = record {
  lifecycle = get_or (codes "active") t.lifecycle;
  terminal = member (get_or [] t.lifecycle) terminal_words;
  goal_revision = get_or 1 t.goal_revision;
  validated_goal_revision = t.validated_goal_revision;
  result_kind = t.result_kind;
  evidence = t.evidence;
  operations = t.operations;
}

abbrev pub is_live_job : JobRecord → Bool
is_live_job job = job.state === codes "running" || job.state === codes "cancelling"

abbrev pub is_active_op : CheckOperation → Bool
is_active_op op = op.write.state === codes "prepared" || op.write.state === codes "running"

-- an uncertain operation that no later check has settled
abbrev pub is_uncertain_op : List Text → CheckOperation → Bool
is_uncertain_op settled op =
    op.write.state === codes "indeterminate"
    && not (is_check op && not (is_missing op.operation_id) && member op.operation_id settled)

pub data FlightKind : Type 0 where
  job_flight op_flight uncertain_flight : FlightKind

pub record Flight : Type 0 where
  pub count : ℕ
  pub kind : FlightKind
  pub state : Text
  pub job_id : Text
  pub operation_id : Text
  pub indeterminate_ops : List Text

-- the first of the live jobs, of the active and of the uncertain operations
abbrev pub flight_of : List JobRecord → List CheckOperation → List CheckOperation → Option Flight
flight_of (job ∷ _) active uncertain = some (record {
  count = 1 + length active + length uncertain;
  kind = job_flight;
  state = job.state;
  job_id = job.job_id;
  operation_id = [];
  indeterminate_ops = map (λ (o : CheckOperation). o.operation_id) uncertain;
})
flight_of [] (op ∷ ops) uncertain = some (record {
  count = length (op ∷ ops) + length uncertain;
  kind = op_flight;
  state = op.write.state;
  job_id = [];
  operation_id = op.operation_id;
  indeterminate_ops = map (λ (o : CheckOperation). o.operation_id) uncertain;
})
flight_of [] [] (op ∷ ops) = some (record {
  count = length (op ∷ ops);
  kind = uncertain_flight;
  state = codes "indeterminate";
  job_id = [];
  operation_id = op.operation_id;
  indeterminate_ops = map (λ (o : CheckOperation). o.operation_id) (op ∷ ops);
})
flight_of [] [] [] = none

unfoldable pub inflight_facts : List Text → List JobRecord → List CheckOperation → Option Flight
inflight_facts settled jobs ops =
    flight_of (filter is_live_job jobs) (filter is_active_op ops)
      (filter (is_uncertain_op settled) ops)

pub data Progress : Type 0 where
  cancelled terminal_end in_flight indeterminate stale partial done opened : Progress

abbrev pub kind_progress : FlightKind → Progress
kind_progress uncertain_flight = indeterminate
kind_progress _ = in_flight

abbrev pub flight_progress : Option Flight → Option Progress
flight_progress none = none
flight_progress (some f) = some (kind_progress f.kind)

abbrev pub result_progress : Text → Progress
result_progress kind =
    if kind === codes "partial"
    then partial
    else if kind === codes "validated"
    then done
    else opened

abbrev pub stale_or : Option StaleReason → Progress → Progress
stale_or none p = p
stale_or (some _) p = stale

abbrev pub flight_or : Option Progress → Progress → Progress
flight_or none p = p
flight_or (some f) p = f

unfoldable pub progress_of : Normalized → Option Flight → Bool → Option StaleReason → Progress
progress_of task flight unresolved reason =
    if task.lifecycle === codes "cancelled"
    then cancelled
    else if task.terminal
    then terminal_end
    else flight_or (flight_progress flight)
        (if unresolved then indeterminate else stale_or reason (result_progress task.result_kind))

-- uncertain work is no reason once all of it is settled
abbrev pub settle_reason : Bool → Option StaleReason → Option StaleReason
settle_reason live none = none
settle_reason live (some goal_change) = some goal_change
settle_reason live (some file_change) = some file_change
settle_reason live (some pending_work) = if live then some pending_work else none

abbrev pub last_succeeded : Option CheckOperation → List CheckOperation → Option CheckOperation
last_succeeded found [] = found
last_succeeded found (op ∷ ops) =
    let newer = last_succeeded (some op) ops in
    let same = last_succeeded found ops in
    if op.write.state === codes "succeeded" then newer else same

pub record Projection : Type 0 where
  pub task : Normalized
  pub progress : Progress
  pub reason : Option StaleReason
  pub in_flight : Option Flight
  pub unresolved_checks : List (Attempt × Option CheckScope)
  pub resolved_checks : List Resolution
  pub last : Option CheckOperation

abbrev with_scope : Attempt → Attempt × Option CheckScope
with_scope a = (a, scope_of_attempt a)

module _ (file_hash : Text → Option Text) (scope_hash : Text → Text) (date_parse : Text → Option ℕ)
    (locale_after : Text → Text → Bool) (to_lower : Text → Text) where
  abbrev pub resolutions_of : List JobRecord → List CheckOperation → List Resolution
  resolutions_of jobs ops =
      stopped_attempt_resolutions to_lower (check_attempts date_parse locale_after ops jobs)

  abbrev pub stale_reason_of : List Text → Normalized → Option StaleReason
  stale_reason_of settled t = settle_reason (any (is_uncertain_op settled) t.operations) (
      effective_state file_hash scope_hash (record {
        result_kind = t.result_kind;
        goal_revision = t.goal_revision;
        validated_goal_revision = t.validated_goal_revision;
        evidence = t.evidence;
        operations = map (λ (o : CheckOperation). o.write) t.operations;
      }))

  abbrev pub project_normalized : List JobRecord → Normalized → Projection
  project_normalized jobs t =
      let resolutions = resolutions_of jobs t.operations in
      let settled = settled_ids resolutions in
      let flight = inflight_facts settled jobs t.operations in
      let reason = stale_reason_of settled t in
      record {
        task = t;
        progress = progress_of t flight (any is_unresolved resolutions) reason;
        reason = reason;
        in_flight = flight;
        unresolved_checks = take 10 (map with_scope (unresolved_attempts resolutions));
        resolved_checks = take 10 (filter (λ r. not (is_unresolved r)) resolutions);
        last = last_succeeded none t.operations;
      }

  -- `projectEffectiveState`, of the jobs of the task and its record
  unfoldable pub project_effective_state : List JobRecord → TaskRecord → Projection
  project_effective_state jobs t = project_normalized jobs (normalize_task_record t)
