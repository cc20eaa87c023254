-- ===== src/Jobs/Shown.antt =====
-- A listing shows no job as running whose process is gone.
use liu_he.Base.{
  ℕ, zero, suc, ◌≡◌, ◌≢◌, ◌⊎◌, refl, sym, subst, ◌∙◌, inl, inr, Bool, true, false, Bool-cases, ◌&&◌,
  not, ◌==◌, ==_iff, Option, none, some, List, [], ◌∷◌, All, take,
}
use liu_he.Base.Text.{Text}
use liu_he.Base.Sort.{sort_by-All}
use liu_he.Jobs.{indeterminate, is_terminal, is_orphan}
use liu_he.Jobs.Listing.{
  StoredJob, JobFile, reconcile_stored_job, seen_job, is_listed, visit, found_jobs, is_older,
  sort_jobs, list_jobs,
}

not-false : (b : Bool) → not b ≡ false → b ≡ true
not-false true h = refl
not-false false h = cc

module _ (own_pid : ℕ) (alive : ℕ → Bool) (registered : Text → Bool) (now : Text) where
  -- the job has ended, or this process runs it, or its process is unknown or another one that lives
  abbrev pub IsPlausible : StoredJob → Type 0
  IsPlausible s =
      (is_terminal s.job.state ≡ true)
      ⊎ (registered s.job.job_id ≡ true)
      ⊎ (s.job.pid ≡ 0)
      ⊎ ((s.job.pid ≢ own_pid) × (alive s.job.pid ≡ true))

  owner-IsPlausible :
      (s : StoredJob)
      → is_orphan own_pid (alive s.job.pid) (registered s.job.job_id) s.job ≡ false
      → IsPlausible s
  owner-IsPlausible s h = elim (Bool-cases (s.job.pid == own_pid)) [
    | inl e ↦ inr (inl (not-false _ (rw e at h)))
    | inr e ↦ elim (Bool-cases (s.job.pid == 0)) [
      | inl z ↦ inr (inr (inl ((==_iff s.job.pid 0).0 z)))
      | inr z ↦ inr (
          inr (
            inr (
              (λ same. let k = (==_iff s.job.pid own_pid).1 same in cc),
              not-false _ (rw (e, z) at h),
            )))
    ]
  ]

  seen_registered :
      (s : StoredJob) → registered s.job.job_id ≡ true → seen_job own_pid alive registered now s ≡ s
  seen_registered s r = rw r refl

  seen_terminal :
      (s : StoredJob) → is_terminal s.job.state ≡ true → seen_job own_pid alive registered now s ≡ s
  seen_terminal s t = elim (Bool-cases (registered s.job.job_id)) [
    | inl r ↦ rw r refl
    | inr r ↦ rw (r, t) refl
  ]

  reconcile_owned :
      (s : StoredJob)
      → is_orphan own_pid (alive s.job.pid) (registered s.job.job_id) s.job ≡ false
      → reconcile_stored_job own_pid alive registered now s ≡ s
  reconcile_owned s o = elim (Bool-cases (is_terminal s.job.state)) [
    | inl t ↦ rw t refl
    | inr t ↦ rw (t, o) refl
  ]

  reconcile_orphan :
      (s : StoredJob)
      → is_terminal s.job.state ≡ false
      → is_orphan own_pid (alive s.job.pid) (registered s.job.job_id) s.job ≡ true
      → reconcile_stored_job own_pid alive registered now s
        ≡ record s { job = record s.job { state = indeterminate }; updated = now }
  reconcile_orphan s t o = rw (t, o) refl

  seen_unregistered :
      (s : StoredJob)
      → registered s.job.job_id ≡ false
      → seen_job own_pid alive registered now s
        ≡ reconcile_stored_job own_pid alive registered now s
  seen_unregistered s r = rw r refl

  seen-IsPlausible : (s : StoredJob) → IsPlausible (seen_job own_pid alive registered now s)
  seen-IsPlausible s = elim (Bool-cases (registered s.job.job_id)) [
    | inl r ↦ subst IsPlausible (sym (seen_registered s r)) (inr (inl r))
    | inr r ↦ elim (Bool-cases (is_terminal s.job.state)) [
      | inl t ↦ subst IsPlausible (sym (seen_terminal s t)) (inl t)
      | inr t ↦
          elim (Bool-cases (is_orphan own_pid (alive s.job.pid) (registered s.job.job_id) s.job)) [
            | inl o ↦
                subst IsPlausible (sym (seen_unregistered s r ∙ reconcile_orphan s t o)) (inl refl)
            | inr o ↦
                subst IsPlausible (sym (seen_unregistered s r ∙ reconcile_owned s o))
                  (owner-IsPlausible s o)
          ]
    ]
  ]

  visit-All :
      (task_id : Text) (f : JobFile) (content : Option StoredJob) (rest : List StoredJob)
      → All IsPlausible rest
      → All IsPlausible (visit own_pid alive registered now task_id f content rest)
  visit-All task_id f none rest h = h
  visit-All task_id f (some s) rest h =
      elim (Bool-cases (f.is_json && is_listed own_pid alive registered now task_id s)) [
        | inl e ↦ rw e (seen-IsPlausible s, h)
        | inr e ↦ rw e h
      ]

  found-All :
      (task_id : Text) (dir : List JobFile)
      → All IsPlausible (found_jobs own_pid alive registered now task_id dir)
  found-All task_id [] = tt
  found-All task_id (f ∷ dir) = visit-All task_id f f.content _ (found-All task_id dir)

  module _ (locale_after : Text → Text → Bool) where
    take-All :
        (n : ℕ) (jobs : List StoredJob) → All IsPlausible jobs → All IsPlausible (take n jobs)
    take-All zero jobs h = tt
    take-All (suc n) [] h = tt
    take-All (suc n) (s ∷ jobs) h = (h.0, take-All n jobs h.1)

    -- A job that is listed has ended, or this process runs it, or its process is unknown, or it is
    -- another process, and lives.
    pub list_jobs-IsPlausible :
        (task_id : Text) (limit : ℕ) (dir : List JobFile)
        → All IsPlausible (list_jobs own_pid alive registered now locale_after task_id limit dir).0
    unfolding list_jobs
    list_jobs-IsPlausible task_id zero dir =
        sort_by-All (is_older locale_after) IsPlausible _ (found-All task_id dir)
    list_jobs-IsPlausible task_id (suc n) dir =
        take-All (suc n)
          (sort_jobs locale_after (found_jobs own_pid alive registered now task_id dir))
          (sort_by-All (is_older locale_after) IsPlausible
            (found_jobs own_pid alive registered now task_id dir) (found-All task_id dir))
