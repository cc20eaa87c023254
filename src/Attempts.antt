-- ===== src/Attempts.antt =====
-- malong/workflow/check-attempts.js: the attempts to check a task, each an operation of the task, a
-- job, or both, from the newest to the oldest. `Date.parse` and `localeCompare`, whose results depend on
-- the host, are parameters; an absent string is the empty one.
pub mod Covers
pub mod Scope
pub mod Paired
pub mod Redone
pub mod Places
pub mod Repeats
use liu_he.Base.{
  ℕ, zero, suc, ◌+◌, ◌/◌, ◌%◌, max, Bool, true, false, ◌&&◌, ◌||◌, not, Option, none, some, is_some,
  List, [], ◌∷◌, ◌++◌, ltb, leb, ◌==◌, if◌then◌else◌,
}
use liu_he.Base.Text.{Text, codes, ◌===◌, is_missing}
use liu_he.Base.Sort.{sort_by}
use liu_he.Evidence.{member}
use liu_he.Evidence.Effective.{WriteOperation}

-- when a record was made, begun, and last heard of
pub record Stamps : Type 0 where
  pub finished : Text
  pub updated : Text
  pub started : Text
  pub created : Text
  pub heartbeat : Text

-- what is checked: no checks is an absent list
pub record CheckParams : Type 0 where
  pub checks : List Text
  pub workdir : Option Text
  pub timeout : Option ℕ
  pub verifier : Option Text

-- `write` holds the kind and the state, with what a write has beside them
pub record CheckOperation : Type 0 where
  pub operation_id : Text
  pub job_id : Text
  pub write : WriteOperation
  pub params : CheckParams
  pub stamps : Stamps

pub record JobRecord : Type 0 where
  pub job_id : Text
  pub operation_id : Text
  pub kind : Text
  pub state : Text
  pub params : CheckParams
  pub stamps : Stamps

pub record Attempt : Type 0 where
  pub attempt_id : Text
  pub operation_id : Text
  pub job_id : Text
  pub state : Text
  pub time : ℕ
  pub has_scope : Bool
  pub op : Option CheckOperation
  pub job : Option JobRecord

-- a number in decimals, with its value as fuel
abbrev digits : ℕ → ℕ → Text → Text
digits zero n acc = (b'0' + n) ∷ acc
digits (suc fuel) n acc =
    let more = digits fuel (n / 10) ((b'0' + n % 10) ∷ acc) in
    if ltb n 10 then (b'0' + n) ∷ acc else more

abbrev pub numbered : Text → ℕ → Text
numbered prefix i = prefix ++ digits i i []

-- `a || b` on strings
abbrev pub or_text : Text → Text → Text
or_text [] b = b
or_text (c ∷ a) _ = c ∷ a

abbrev pub params_of_op : Option CheckOperation → Option CheckParams
params_of_op none = none
params_of_op (some op) = some op.params

abbrev pub params_of_job : Option JobRecord → Option CheckParams
params_of_job none = none
params_of_job (some job) = some job.params

abbrev checks_in : Option CheckParams → List Text
checks_in none = []
checks_in (some p) = p.checks

-- the checks of the operation, or of the job
abbrev pub checks_of : Option CheckOperation → Option JobRecord → List Text
checks_of op job = elim (checks_in (params_of_op op)) [
  | [] ↦ checks_in (params_of_job job)
  | (c ∷ cs) ↦ c ∷ cs
]

abbrev pub is_present : List Text → Bool
is_present [] = false
is_present (_ ∷ _) = true

abbrev pub is_check : CheckOperation → Bool
is_check op = op.write.kind === codes "check"

abbrev pub is_check_job : JobRecord → Bool
is_check_job job = job.kind === codes "check"

abbrev pub filter {ℓ} : {A : Type ℓ} → (A → Bool) → List A → List A
filter p [] = []
filter p (x ∷ xs) = let rest = filter p xs in if p x then x ∷ rest else rest

abbrev pub is_named : Text → JobRecord → Bool
is_named job_id job = not (is_missing job.job_id) && job.job_id === job_id

abbrev or_job : Option JobRecord → Option JobRecord → Option JobRecord
or_job none found = found
or_job (some job) _ = some job

-- `byJobId.get`: the last job of a name
abbrev pub job_named : Text → List JobRecord → Option JobRecord
job_named job_id [] = none
job_named job_id (job ∷ jobs) =
    let later = job_named job_id jobs in
    or_job later (if is_named job_id job then some job else none)

abbrev pub job_of : List JobRecord → CheckOperation → Option JobRecord
job_of jobs op = if is_missing op.job_id then none else job_named op.job_id jobs

abbrev add_id : Option JobRecord → List Text → List Text
add_id none ids = ids
add_id (some job) ids = job.job_id ∷ ids

-- the names of the jobs that belong to operations
abbrev pub paired_ids : List JobRecord → List CheckOperation → List Text
paired_ids jobs [] = []
paired_ids jobs (op ∷ ops) = add_id (job_of jobs op) (paired_ids jobs ops)

abbrev pub is_paired : List Text → JobRecord → Bool
is_paired paired job = not (is_missing job.job_id) && member job.job_id paired

module _ (date_parse : Text → Option ℕ) where
  abbrev ms : Text → ℕ
  ms [] = elim (date_parse (codes "0")) [ none ↦ 0 | some t ↦ t ]
  ms (c ∷ v) = elim (date_parse (c ∷ v)) [ none ↦ 0 | some t ↦ t ]

  unfoldable pub stamps_time : Stamps → ℕ
  stamps_time s =
      max (ms s.finished)
        (max (ms s.updated) (max (ms s.started) (max (ms s.created) (ms s.heartbeat))))

  abbrev pub job_time : Option JobRecord → ℕ
  job_time none = 0
  job_time (some job) = stamps_time job.stamps

module _ (locale_after : Text → Text → Bool) where
  -- does the comparison put `a` behind `b`?
  abbrev pub is_after : Attempt → Attempt → Bool
  is_after a b = ltb a.time b.time || (a.time == b.time && locale_after b.attempt_id a.attempt_id)

  abbrev pub sort_attempts : List Attempt → List Attempt
  sort_attempts attempts = sort_by is_after attempts

module _ (date_parse : Text → Option ℕ) (locale_after : Text → Text → Bool) where
  unfoldable pub op_attempt : ℕ → CheckOperation → Option JobRecord → Attempt
  op_attempt i op none = record {
    attempt_id = or_text op.operation_id (numbered (codes "op#") i);
    operation_id = op.operation_id;
    job_id = [];
    state = op.write.state;
    time = stamps_time date_parse op.stamps;
    has_scope = is_present (checks_of (some op) none);
    op = some op;
    job = none;
  }
  op_attempt i op (some job) = record {
    attempt_id = or_text job.job_id (or_text op.operation_id (numbered (codes "op#") i));
    operation_id = op.operation_id;
    job_id = job.job_id;
    state = job.state;
    time = max (stamps_time date_parse job.stamps) (stamps_time date_parse op.stamps);
    has_scope = is_present (checks_of (some op) (some job));
    op = some op;
    job = some job;
  }

  unfoldable pub job_attempt : ℕ → JobRecord → Attempt
  job_attempt i job = record {
    attempt_id = or_text job.job_id (numbered (codes "job#") i);
    operation_id = job.operation_id;
    job_id = job.job_id;
    state = job.state;
    time = stamps_time date_parse job.stamps;
    has_scope = is_present (checks_of none (some job));
    op = none;
    job = some job;
  }

  abbrev pub op_attempts : List JobRecord → ℕ → List CheckOperation → List Attempt
  op_attempts jobs i [] = []
  op_attempts jobs i (op ∷ ops) = op_attempt i op (job_of jobs op) ∷ op_attempts jobs (suc i) ops

  abbrev pub job_attempts : List Text → ℕ → List JobRecord → List Attempt
  job_attempts paired i [] = []
  job_attempts paired i (job ∷ jobs) =
      let rest = job_attempts paired (suc i) jobs in
      if is_paired paired job then rest else job_attempt i job ∷ rest

  abbrev pub collect_attempts : List CheckOperation → List JobRecord → List Attempt
  collect_attempts ops jobs = op_attempts jobs 0 ops ++ job_attempts (paired_ids jobs ops) 0 jobs

  -- `checkAttempts`, of the operations of a task and its jobs
  unfoldable pub check_attempts : List CheckOperation → List JobRecord → List Attempt
  check_attempts ops jobs =
      sort_attempts locale_after (collect_attempts (filter is_check ops) (filter is_check_job jobs))
