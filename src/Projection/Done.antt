-- ===== src/Projection/Done.antt =====
-- A task is shown as done only when nothing of it runs, nothing is uncertain, and every check that was
-- stopped has been repeated.
use liu_he.Base.{
  ℕ, ◌≡◌, ◌≢◌, refl, Bool, true, false, Bool-cases, inl, inr, Option, none, some, List, [], ◌∷◌, In,
  All, All-self, All-map, All-map2, any, ◌||◌, ◌⊎◌, if◌then◌else◌,
}
use liu_he.Base.Text.{Text, codes, ◌===◌, ===_iff, ===_apart, same-cases, is_missing}
use liu_he.Evidence.Effective.{StaleReason}
use liu_he.Attempts.{CheckOperation, JobRecord, Attempt, filter, is_check, check_attempts}
use liu_he.Evidence.{member}
use liu_he.Attempts.Scope.{is_stopped, is_unresolved, settled_ids, stopped_attempt_resolutions}
use liu_he.Attempts.Repeats.{IsRepeated, IsSettled, IsRedone-IsRepeated, settled_ids-IsSettled}
use liu_he.Attempts.Paired.{check_attempts-IsWatched}
use liu_he.Attempts.Redone.{IsRedone, unresolved-IsRedone, check_attempts-IsNewestFirst}
use liu_he.Projection.{
  TaskRecord, Progress, cancelled, terminal_end, indeterminate, done, Flight, flight_progress,
  FlightKind, job_flight, op_flight, uncertain_flight, kind_progress, partial, opened, flight_or,
  stale_or, result_progress, is_live_job, is_active_op, is_uncertain_op, flight_of, inflight_facts,
  progress_of, stale_reason_of, resolutions_of, project_effective_state, normalize_task_record,
}

kind_progress-done : (k : FlightKind) → kind_progress k ≢ done
kind_progress-done job_flight h = cc
kind_progress-done op_flight h = cc
kind_progress-done uncertain_flight h = cc

done_only :
    (gone ended unresolved : Bool) (flight : Option Flight) (reason : Option StaleReason)
    (p : Progress)
    → (if gone
        then cancelled
        else if ended
        then terminal_end
        else flight_or
            (flight_progress flight)
            (if unresolved then indeterminate else stale_or reason p))
      ≡ done
    → (ended ≡ false) × (flight ≡ none) × (unresolved ≡ false) × (reason ≡ none) × (p ≡ done)
done_only true e u f r p h = cc
done_only false true u f r p h = cc
done_only false false u (some f) r p h = absurd (kind_progress-done f.kind h)
done_only false false true none r p h = cc
done_only false false false none (some r) p h = cc
done_only false false false none none p h = (refl, refl, refl, refl, h)

result_progress-done : (kind : Text) → result_progress kind ≡ done → kind ≡ codes "validated"
result_progress-done kind h = elim (Bool-cases (kind === codes "partial")) [
  | inl e ↦ let k : partial ≡ done = rw e at h in cc
  | inr e ↦ elim (Bool-cases (kind === codes "validated")) [
    | inl v ↦ (===_iff kind (codes "validated")).0 v
    | inr v ↦ let k : opened ≡ done = rw (e, v) at h in cc
  ]
]

none_left :
    {A : Type 0} (p : A → Bool) (xs : List A) → filter p xs ≡ [] → All (λ (x : A). p x ≡ false) xs
none_left p [] h = tt
none_left p (x ∷ xs) h = elim (Bool-cases (p x)) [
  | inl e ↦ let k : (x ∷ filter p xs) ≡ [] = rw e at h in cc
  | inr e ↦ (e, none_left p xs (rw e at h))
]

no_flight :
    (jobs : List JobRecord) (active uncertain : List CheckOperation)
    → flight_of jobs active uncertain ≡ none
    → (jobs ≡ []) × (active ≡ []) × (uncertain ≡ [])
no_flight (j ∷ js) a u h = cc
no_flight [] (o ∷ os) u h = cc
no_flight [] [] (o ∷ os) h = cc
no_flight [] [] [] h = (refl, refl, refl)

or_apart : (x a b : Text) → (x === a || x === b) ≡ false → (x ≢ a) × (x ≢ b)
or_apart x a b h = elim (same-cases x a) [
  | inl (k, e) ↦ let never : true ≡ false = rw k at h in cc
  | inr (k, e) ↦ (e, ===_apart x b (rw k at h))
]

stopped-true :
    (a : Attempt)
    → (a.state ≡ codes "cancelled") ⊎ (a.state ≡ codes "indeterminate")
    → a.has_scope ≡ true
    → is_stopped a ≡ true
stopped-true a (inl e) h = rw (e, h) refl
stopped-true a (inr e) h = rw (e, h) refl

-- an uncertain operation that does not hold a task up is one that a check has settled
not_uncertain :
    (settled : List Text) (o : CheckOperation)
    → is_uncertain_op settled o ≡ false
    → o.write.state ≡ codes "indeterminate"
    → member o.operation_id settled ≡ true
not_uncertain settled o h e =
    let k = (===_iff o.write.state (codes "indeterminate")).1 e in
    elim (Bool-cases (member o.operation_id settled)) [
      | inl m ↦ m
      | inr m ↦ elim (Bool-cases (is_check o)) [
        | inr c ↦ let never : true ≡ false = rw (k, m, c) at h in cc
        | inl c ↦ elim (Bool-cases (is_missing o.operation_id)) [
          | inl i ↦ let never : true ≡ false = rw (k, m, c, i) at h in cc
          | inr i ↦ let never : true ≡ false = rw (k, m, c, i) at h in cc
        ]
      ]
    ]

module _ (to_lower : Text → Text) (attempts : List Attempt) where
  -- the job is over
  abbrev pub IsOver : JobRecord → Type 0
  IsOver j = (j.state ≢ codes "running") × (j.state ≢ codes "cancelling")

  -- The operation is over, and if nobody knows how it ended, a check has settled it.
  abbrev pub IsClosed : CheckOperation → Type 0
  IsClosed o =
      (o.write.state ≢ codes "prepared")
      × (o.write.state ≢ codes "running")
      × (o.write.state ≡ codes "indeterminate" → IsSettled to_lower attempts o.operation_id)

  -- an operation that is a check has an attempt, and so has a job that is one
  abbrev pub IsCounted : CheckOperation → Type 0
  IsCounted o = o.write.kind ≡ codes "check" → (a : Attempt) × In a attempts × (a.op ≡ some o)

  abbrev pub IsJobCounted : JobRecord → Type 0
  IsJobCounted j = j.kind ≡ codes "check" → (a : Attempt) × In a attempts × (a.job_id ≡ j.job_id)

  -- If the attempt was stopped and says what it checks, it has been repeated.
  abbrev pub IsMadeUp : Attempt → Type 0
  IsMadeUp a =
      (a.state ≡ codes "cancelled") ⊎ (a.state ≡ codes "indeterminate")
      → a.has_scope ≡ true
      → IsRepeated to_lower attempts a

  op-IsClosed :
      (o : CheckOperation)
      → is_active_op o ≡ false
      → is_uncertain_op (settled_ids (stopped_attempt_resolutions to_lower attempts)) o ≡ false
      → IsClosed o
  op-IsClosed o h k =
      let (a, b) = or_apart o.write.state (codes "prepared") (codes "running") h in
      (
        a,
        b,
        λ e.
            settled_ids-IsSettled to_lower attempts o.operation_id
              (not_uncertain (settled_ids (stopped_attempt_resolutions to_lower attempts)) o k e),
      )

module _ (file_hash : Text → Option Text) (scope_hash : Text → Text) (date_parse : Text → Option ℕ)
    (locale_after : Text → Text → Bool) (to_lower : Text → Text) where
  -- A task that is shown as done has a validated result that is not stale, none of its jobs is running or
  -- being cancelled, none of its operations is prepared or running, and every indeterminate one has the
  -- identity of a check attempt that was repeated. Each check operation and each check job of it has an
  -- attempt, and every attempt that was cancelled or is indeterminate, and says what it checks, was
  -- repeated by one that is at least as new. Who repeats an attempt has succeeded or failed, in the same
  -- directory up to its spelling, with all of its checks that are not blank.
  pub project_effective_state-done :
      (jobs : List JobRecord) (t : TaskRecord)
      → (project_effective_state file_hash scope_hash date_parse locale_after to_lower jobs
          t).progress
        ≡ done
      → let attempts = check_attempts date_parse locale_after t.operations jobs in
        (t.result_kind ≡ codes "validated")
        × ((project_effective_state file_hash scope_hash date_parse locale_after to_lower jobs
              t).reason
            ≡ none)
        × All (IsOver to_lower attempts) jobs
        × All (IsClosed to_lower attempts) t.operations
        × All (IsCounted to_lower attempts) t.operations
        × All (IsJobCounted to_lower attempts) jobs
        × All (IsMadeUp to_lower attempts) attempts
  unfolding project_effective_state progress_of normalize_task_record inflight_facts
  project_effective_state-done jobs t h =
      let attempts = check_attempts date_parse locale_after t.operations jobs in
      let resolutions =
        resolutions_of file_hash scope_hash date_parse locale_after to_lower jobs t.operations in
      let settled = settled_ids resolutions in
      let (e, f, u, r, p) =
        done_only _ _ (any is_unresolved resolutions) (inflight_facts settled jobs t.operations)
          (stale_reason_of file_hash scope_hash date_parse locale_after to_lower settled
            (normalize_task_record t))
          (result_progress t.result_kind) h in
      let (j, a, o) =
        no_flight (filter is_live_job jobs) (filter is_active_op t.operations)
          (filter (is_uncertain_op settled) t.operations) f in
      (
        result_progress-done t.result_kind p,
        r,
        All-map (λ (j : JobRecord). is_live_job j ≡ false) (IsOver to_lower attempts)
            (λ j. or_apart j.state (codes "running") (codes "cancelling")) jobs
            (none_left is_live_job jobs j),
        All-map2 (λ (o : CheckOperation). is_active_op o ≡ false)
            (λ (o : CheckOperation). is_uncertain_op settled o ≡ false) (IsClosed to_lower attempts)
            (op-IsClosed to_lower attempts) t.operations (none_left is_active_op t.operations a)
            (none_left (is_uncertain_op settled) t.operations o),
        All-map (λ o. In o t.operations) (IsCounted to_lower attempts)
            (λ o i e.
              (check_attempts-IsWatched date_parse locale_after t.operations jobs).0 o
                ((===_iff o.write.kind (codes "check")).1 e) i)
            t.operations (All-self t.operations),
        All-map (λ j. In j jobs) (IsJobCounted to_lower attempts)
            (λ j i e.
              (check_attempts-IsWatched date_parse locale_after t.operations jobs).1 j
                ((===_iff j.kind (codes "check")).1 e) i)
            jobs (All-self jobs),
        All-map (λ (a : Attempt). is_stopped a ≡ true → IsRedone to_lower attempts a)
            (IsMadeUp to_lower attempts)
            (λ a redone e h. IsRedone-IsRepeated to_lower attempts a (redone (stopped-true a e h)))
            attempts
            (unresolved-IsRedone to_lower attempts
              (check_attempts-IsNewestFirst date_parse locale_after t.operations jobs) u),
      )
