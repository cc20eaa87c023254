-- ===== src/Attempts/Paired.antt =====
-- No check is lost: each operation and each job is in an attempt.
use liu_he.Base.{
  ℕ, suc, ◌≡◌, refl, sym, ap, subst, ◌∙◌, Option-cases, and_right, Bool, true, false, Bool-cases,
  inl, inr, Option, none, some, List, [], ◌∷◌, In, In-append_left, In-append_right,
}
use liu_he.Base.Text.{Text, ◌===◌, ===_iff}
use liu_he.Evidence.{member}
use liu_he.Base.Sort.{In-sort_by}
use liu_he.Attempts.{
  CheckOperation, JobRecord, Attempt, is_check, is_check_job, filter, job_of, paired_ids, is_paired,
  op_attempt, job_attempt, op_attempts, job_attempts, is_after, collect_attempts, check_attempts,
}

In-filter :
    {A : Type 0} (p : A → Bool) (x : A) (xs : List A) → p x ≡ true → In x xs → In x (filter p xs)
In-filter p x [] h i = i
In-filter p x (y ∷ ys) h (inl e) = let k : p y ≡ true = subst (λ z. p z ≡ true) e h in rw k (inl e)
In-filter p x (y ∷ ys) h (inr i) = elim (Bool-cases (p y)) [
  | inl e ↦ rw e (inr (In-filter p x ys h i))
  | inr e ↦ rw e (In-filter p x ys h i)
]

module _ (date_parse : Text → Option ℕ) (locale_after : Text → Text → Bool) where
  -- some attempt is of the operation
  abbrev pub IsTried : List Attempt → CheckOperation → Type 0
  IsTried attempts op = (a : Attempt) × In a attempts × (a.op ≡ some op)

  -- some attempt is of the job, or has its name
  abbrev pub IsWatched : List Attempt → JobRecord → Type 0
  IsWatched attempts job = (a : Attempt) × In a attempts × (a.job_id ≡ job.job_id)

  op_attempt-op :
      (i : ℕ) (op : CheckOperation) (job : Option JobRecord)
      → (op_attempt date_parse locale_after i op job).op ≡ some op
  unfolding op_attempt
  op_attempt-op i op none = refl
  op_attempt-op i op (some job) = refl

  op_attempt-job_id :
      (i : ℕ) (op : CheckOperation) (job : JobRecord)
      → (op_attempt date_parse locale_after i op (some job)).job_id ≡ job.job_id
  unfolding op_attempt
  op_attempt-job_id i op job = refl

  job_attempt-job_id :
      (i : ℕ) (job : JobRecord) → (job_attempt date_parse locale_after i job).job_id ≡ job.job_id
  unfolding job_attempt
  job_attempt-job_id i job = refl

  op_attempts-IsTried :
      (jobs : List JobRecord) (i : ℕ) (ops : List CheckOperation) (op : CheckOperation)
      → In op ops
      → IsTried (op_attempts date_parse locale_after jobs i ops) op
  op_attempts-IsTried jobs i [] op h = absurd h
  op_attempts-IsTried jobs i (o ∷ ops) op (inl e) = (
    op_attempt date_parse locale_after i o (job_of jobs o),
    inl refl,
    op_attempt-op i o (job_of jobs o) ∙ ap (λ (z : CheckOperation). some z) (sym e),
  )
  op_attempts-IsTried jobs i (o ∷ ops) op (inr h) =
      let (a, m, k) = op_attempts-IsTried jobs (suc i) ops op h in (a, inr m, k)

  job_attempts-IsWatched :
      (paired : List Text) (i : ℕ) (jobs : List JobRecord) (job : JobRecord)
      → is_paired paired job ≡ false
      → In job jobs
      → IsWatched (job_attempts date_parse locale_after paired i jobs) job
  job_attempts-IsWatched paired i [] job p h = absurd h
  job_attempts-IsWatched paired i (j ∷ jobs) job p (inl e) =
      let k : is_paired paired j ≡ false =
        subst (λ (z : JobRecord). is_paired paired z ≡ false) e p in
      rw k (
        job_attempt date_parse locale_after i j,
        inl refl,
        job_attempt-job_id i j ∙ ap (λ (z : JobRecord). z.job_id) (sym e),
      )
  job_attempts-IsWatched paired i (j ∷ jobs) job p (inr h) =
      let (a, m, k) = job_attempts-IsWatched paired (suc i) jobs job p h in
      elim (Bool-cases (is_paired paired j)) [ inl e ↦ rw e (a, m, k) | inr e ↦ rw e (a, inr m, k) ]

  -- the attempts of the operations behind one still watch the job
  watch_later :
      (a : Attempt) (attempts : List Attempt) (job : JobRecord)
      → IsWatched attempts job
      → IsWatched (a ∷ attempts) job
  watch_later a attempts job (x, m, k) = (x, inr m, k)

  paired-IsWatched :
      (jobs : List JobRecord) (i : ℕ) (ops : List CheckOperation) (job : JobRecord)
      → member job.job_id (paired_ids jobs ops) ≡ true
      → IsWatched (op_attempts date_parse locale_after jobs i ops) job
  paired-IsWatched jobs i [] job h = cc
  paired-IsWatched jobs i (op ∷ ops) job h = elim (Option-cases (job_of jobs op)) [
    | inl e ↦ watch_later _ _ job (paired-IsWatched jobs (suc i) ops job (rw e at h))
    | inr (j, e) ↦ elim (Bool-cases (j.job_id === job.job_id)) [
      | inl s ↦ rw e (
        op_attempt date_parse locale_after i op (some j),
        inl refl,
        op_attempt-job_id i op j ∙ (===_iff j.job_id job.job_id).0 s,
      )
      | inr s ↦
          let later : member job.job_id (paired_ids jobs ops) ≡ true = rw (e, s) at h in
          watch_later _ _ job (paired-IsWatched jobs (suc i) ops job later)
    ]
  ]

  collect-IsWatched :
      (ops : List CheckOperation) (jobs : List JobRecord) (job : JobRecord)
      → In job jobs
      → IsWatched (collect_attempts date_parse locale_after ops jobs) job
  collect-IsWatched ops jobs job m =
      let front = op_attempts date_parse locale_after jobs 0 ops in
      let back = job_attempts date_parse locale_after (paired_ids jobs ops) 0 jobs in
      elim (Bool-cases (is_paired (paired_ids jobs ops) job)) [
        | inl e ↦
            let (a, i, k) = paired-IsWatched jobs 0 ops job (and_right _ _ e) in
            (a, In-append_left a front back i, k)
        | inr e ↦
            let (a, i, k) = job_attempts-IsWatched (paired_ids jobs ops) 0 jobs job e m in
            (a, In-append_right a front back i, k)
      ]

  -- Every check operation of a task is the operation of some attempt, and every check job of it has an
  -- attempt with its name.
  pub check_attempts-IsWatched :
      (ops : List CheckOperation) (jobs : List JobRecord)
      → ((op : CheckOperation)
          → is_check op ≡ true
          → In op ops
          → IsTried (check_attempts date_parse locale_after ops jobs) op)
        × ((job : JobRecord)
            → is_check_job job ≡ true
            → In job jobs
            → IsWatched (check_attempts date_parse locale_after ops jobs) job)
  unfolding check_attempts
  check_attempts-IsWatched ops jobs =
      let checks = filter is_check ops in
      let check_jobs = filter is_check_job jobs in
      let collected = collect_attempts date_parse locale_after checks check_jobs in
      (
        (λ op c m.
            let (a, i, k) =
              op_attempts-IsTried check_jobs 0 checks op (In-filter is_check op ops c m) in
            (
              a,
              In-sort_by (is_after locale_after) a collected (
                  In-append_left a (op_attempts date_parse locale_after check_jobs 0 checks)
                    (job_attempts date_parse locale_after (paired_ids check_jobs checks) 0
                      check_jobs)
                    i),
              k,
            )),
        (λ job c m.
            let (a, i, k) =
              collect-IsWatched checks check_jobs job (In-filter is_check_job job jobs c m) in
            (a, In-sort_by (is_after locale_after) a collected i, k)),
      )
