-- ===== src/Attempts/Scope.antt =====
-- The second half of malong/workflow/check-attempts.js: what an attempt checks, which attempt covers a
-- stopped one, and what has become of each stopped attempt. Lower case is the host's, a parameter.
use liu_he.Base.{
  ℕ, Bool, true, false, ◌&&◌, ◌||◌, not, Option, none, some, is_some, List, [], ◌∷◌, ◌++◌, map, all,
  ltb, ◌==◌, if◌then◌else◌,
}
use liu_he.Base.Text.{Text, codes, ◌===◌, is_missing, trim, backslash}
use liu_he.Evidence.{member}
use liu_he.Attempts.{
  CheckOperation, CheckParams, JobRecord, Attempt, checks_of, checks_in, params_of_op,
  params_of_job, is_present, is_check, filter, job_time,
}
use mathlib.Core.List.{reverse}

-- a time of 0 is an absent one
pub record CheckScope : Type 0 where
  pub checks : List Text
  pub workdir : Option Text
  pub timeout : Option ℕ
  pub verifier : Option Text
  pub from_operation : Bool
  pub operation_id : Text
  pub job_id : Text
  pub job_state : Text
  pub attempt_state : Text
  pub attempt_time : ℕ

abbrev pub field_of {ℓ} : {A : Type ℓ} → (CheckParams → Option A) → Option CheckParams → Option A
field_of field none = none
field_of field (some p) = field p

-- `pick`: the operation's field, or the job's
abbrev pub pick {ℓ} : {A : Type ℓ} → (CheckParams → Option A) → Attempt → Option A
pick field a = elim (field_of field (params_of_op a.op)) [
  | some v ↦ some v
  | none ↦ field_of field (params_of_job a.job)
]

abbrev state_of : Option JobRecord → Text
state_of none = []
state_of (some job) = job.state

abbrev pub scope_with : Attempt → List Text → Option CheckScope
scope_with a [] = none
scope_with a (c ∷ cs) = some (record {
  checks = c ∷ cs;
  workdir = pick (λ p. p.workdir) a;
  timeout = pick (λ p. p.timeout) a;
  verifier = pick (λ p. p.verifier) a;
  from_operation = is_present (checks_in (params_of_op a.op));
  operation_id = a.operation_id;
  job_id = a.job_id;
  job_state = state_of a.job;
  attempt_state = a.state;
  attempt_time = a.time;
})

unfoldable pub scope_of_attempt : Attempt → Option CheckScope
scope_of_attempt a = scope_with a (checks_of a.op a.job)

abbrev pub latest_scope : List Attempt → Option CheckScope
latest_scope [] = none
latest_scope (a ∷ _) = scope_of_attempt a

abbrev find_operation : Text → List CheckOperation → Option CheckOperation
find_operation id [] = none
find_operation id (op ∷ ops) =
    let later = find_operation id ops in
    if op.operation_id === id && is_check op then some op else later

-- `linked`
abbrev pub linked_operation : Text → List CheckOperation → Option CheckOperation
linked_operation id ops = if is_missing id then none else find_operation id ops

module _ (date_parse : Text → Option ℕ) where
  unfoldable pub check_scope_for_job : List CheckOperation → JobRecord → Option CheckScope
  check_scope_for_job ops job = scope_of_attempt (record {
    attempt_id = [];
    operation_id = job.operation_id;
    job_id = job.job_id;
    state = job.state;
    time = job_time date_parse (some job);
    has_scope = false;
    op = linked_operation job.operation_id ops;
    job = some job;
  })

abbrev pub is_separator : ℕ → Bool
is_separator c = c == b'/' || c == backslash

-- every run of separators is one slash; the test says whether one was just read
abbrev pub collapse : Bool → Text → Text
collapse after [] = []
collapse after (c ∷ s) =
    let inside = collapse true s in
    let outside = collapse false s in
    if is_separator c then (if after then inside else b'/' ∷ inside) else c ∷ outside

abbrev pub strip_dot : Text → Text
strip_dot [] = []
strip_dot (a ∷ []) = a ∷ []
strip_dot (a ∷ b ∷ s) = if a == b'.' && b == b'/' then s else a ∷ b ∷ s

-- without slashes at its end, which is the front here, but for the last character left
abbrev pub strip_slashes : Text → Text
strip_slashes [] = []
strip_slashes (c ∷ []) = c ∷ []
strip_slashes (c ∷ d ∷ s) =
    let rest = strip_slashes (d ∷ s) in if c == b'/' then rest else c ∷ d ∷ s

abbrev pub root_or : Text → Option Text
root_or s = if s === codes "." || is_missing s || s === codes "/" then none else some s

unfoldable pub normalize_scope_workdir : Option Text → Option Text
normalize_scope_workdir none = none
normalize_scope_workdir (some w) =
    if is_missing (trim w)
    then none
    else root_or (reverse (strip_slashes (reverse (strip_dot (collapse false (trim w))))))

-- strings in the order of their code units
abbrev pub text_before : Text → Text → Bool
text_before [] t = true
text_before (_ ∷ _) [] = false
text_before (a ∷ s) (b ∷ t) = ltb a b || (a == b && text_before s t)

abbrev pub insert_text : Text → List Text → List Text
insert_text x [] = x ∷ []
insert_text x (y ∷ ys) =
    let later = insert_text x ys in if text_before x y then x ∷ y ∷ ys else y ∷ later

abbrev pub sort_texts : List Text → List Text
sort_texts [] = []
sort_texts (x ∷ xs) = insert_text x (sort_texts xs)

-- `[...new Set(...)]`
abbrev pub unique : List Text → List Text
unique [] = []
unique (x ∷ xs) = let rest = unique xs in if member x xs then rest else x ∷ rest

abbrev pub find {ℓ} : {A : Type ℓ} → (A → Bool) → List A → Option A
find p [] = none
find p (x ∷ xs) = let later = find p xs in if p x then some x else later

abbrev pub same_workdir : Option Text → Option Text → Bool
same_workdir none none = true
same_workdir none (some _) = false
same_workdir (some _) none = false
same_workdir (some a) (some b) = a === b

abbrev pub is_stopped_state : Text → Bool
is_stopped_state s = s === codes "cancelled" || s === codes "indeterminate"

abbrev pub is_determinate : Text → Bool
is_determinate s = s === codes "succeeded" || s === codes "failed"

pub record Resolution : Type 0 where
  pub attempt : Attempt
  pub resolved_by : Option Attempt

abbrev pub is_stopped : Attempt → Bool
is_stopped a = is_stopped_state a.state && a.has_scope

abbrev pub is_unresolved : Resolution → Bool
is_unresolved r = not (is_some r.resolved_by)

abbrev pub unresolved_attempts : List Resolution → List Attempt
unresolved_attempts rs = map (λ (r : Resolution). r.attempt) (filter is_unresolved rs)

-- the names of the operations that a later attempt has settled
unfoldable pub settled_ids : List Resolution → List Text
settled_ids [] = []
settled_ids (r ∷ rs) =
    let rest = settled_ids rs in
    if is_some r.resolved_by && not (is_missing r.attempt.operation_id)
    then r.attempt.operation_id ∷ rest
    else rest

module _ (to_lower : Text → Text) where
  abbrev pub check_key : Text → Text
  check_key c = to_lower (trim c)

  unfoldable pub normalize_scope_checks : List Text → List Text
  normalize_scope_checks cs =
      sort_texts (unique (filter (λ c. not (is_missing c)) (map check_key cs)))

  abbrev pub covers_scope : Option CheckScope → Option CheckScope → Bool
  covers_scope none _ = false
  covers_scope (some d) none = false
  covers_scope (some d) (some s) =
      same_workdir (normalize_scope_workdir d.workdir) (normalize_scope_workdir s.workdir)
      && all (λ c. member c (normalize_scope_checks d.checks)) (normalize_scope_checks s.checks)

  -- does `d` close the stopped attempt `s`?
  unfoldable pub covers_stopped_attempt : Attempt → Attempt → Bool
  covers_stopped_attempt d s =
      is_determinate d.state && covers_scope (scope_of_attempt d) (scope_of_attempt s)

  -- the attempts in front are newer
  abbrev pub resolve_from : List Attempt → List Attempt → List Resolution
  resolve_from newer [] = []
  resolve_from newer (a ∷ attempts) =
      let rest = resolve_from (newer ++ (a ∷ [])) attempts in
      if is_stopped a
      then record { attempt = a; resolved_by = find (λ d. covers_stopped_attempt d a) newer } ∷ rest
      else rest

  unfoldable pub stopped_attempt_resolutions : List Attempt → List Resolution
  stopped_attempt_resolutions attempts = resolve_from [] attempts
