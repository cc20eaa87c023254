-- ===== src/Jobs/Listing.antt =====
-- The directories of jobs in malong/workflow/jobs.js: listing, reconciling after a restart, and sweeping
-- old records. A record stands in the file of its id, and says when it was created; what lives, the
-- dates and the order of the host's language are parameters.
use liu_he.Base.{
  ℕ, zero, suc, ◌+◌, Bool, false, ◌&&◌, ◌||◌, not, Option, none, some, List, [], ◌∷◌, take, ltb,
  if◌then◌else◌,
}
use liu_he.Base.Text.{Text, codes, ◌===◌, is_missing}
use liu_he.Base.Sort.{sort_by}
use liu_he.Jobs.{Job, JobState, indeterminate, is_terminal, is_orphan}

-- a job with the times that its record has
pub record StoredJob : Type 0 where
  pub job : Job
  pub created : Text
  pub updated : Text
  pub finished : Text

-- a file: whether its name ends in .json, and its record, unless it cannot be parsed
pub record JobFile : Type 0 where
  pub id : Text
  pub is_json : Bool
  pub content : Option StoredJob

-- `a || b`
abbrev first_text : Text → Text → Text
first_text [] b = b
first_text (c ∷ a) _ = c ∷ a

module _ (locale_after : Text → Text → Bool) where
  -- from the newest to the oldest
  abbrev pub is_older : StoredJob → StoredJob → Bool
  is_older s t = locale_after t.created s.created

  abbrev pub sort_jobs : List StoredJob → List StoredJob
  sort_jobs jobs = sort_by is_older jobs

  abbrev pub limited : ℕ → List StoredJob → List StoredJob
  limited zero jobs = jobs
  limited (suc n) jobs = take (suc n) jobs

module _ (own_pid : ℕ) (alive : ℕ → Bool) (registered : Text → Bool) (now : Text) where
  -- `reconcileRecord`, with the time that it writes
  abbrev pub reconcile_stored_job : StoredJob → StoredJob
  reconcile_stored_job s =
      if is_terminal s.job.state
      then s
      else if is_orphan own_pid (alive s.job.pid) (registered s.job.job_id) s.job
      then record s { job = record s.job { state = indeterminate }; updated = now }
      else s

  abbrev pub seen_job : StoredJob → StoredJob
  seen_job s = if registered s.job.job_id then s else reconcile_stored_job s

  -- is the file read, of all tasks or of one?
  abbrev pub is_listed : Text → StoredJob → Bool
  is_listed task_id s = is_missing task_id || s.job.task_id === task_id

  abbrev pub visit : Text → JobFile → Option StoredJob → List StoredJob → List StoredJob
  visit task_id f none rest = rest
  visit task_id f (some s) rest =
      if f.is_json && is_listed task_id s then seen_job s ∷ rest else rest

  abbrev pub found_jobs : Text → List JobFile → List StoredJob
  found_jobs task_id [] = []
  found_jobs task_id (f ∷ dir) = visit task_id f f.content (found_jobs task_id dir)

  -- what listing leaves in a file
  abbrev pub listed_content : Text → JobFile → Option StoredJob → JobFile
  listed_content task_id f none = f
  listed_content task_id f (some s) =
      if f.is_json && is_listed task_id s then record f { content = some (seen_job s) } else f

  abbrev pub listed_dir : Text → List JobFile → List JobFile
  listed_dir task_id [] = []
  listed_dir task_id (f ∷ dir) = listed_content task_id f f.content ∷ listed_dir task_id dir

  -- `listJobs`: the jobs, and the directory with what was reconciled
  unfoldable pub list_jobs :
      (Text → Text → Bool) → Text → ℕ → List JobFile → List StoredJob × List JobFile
  list_jobs locale_after task_id limit dir = (
    limited locale_after limit (sort_jobs locale_after (found_jobs task_id dir)),
    listed_dir task_id dir,
  )

  -- `reconcileJobs`, which passes by the jobs of this process
  abbrev pub changed_job : JobFile → StoredJob → List (Text × JobState) → List (Text × JobState)
  changed_job f s rest =
      if is_terminal s.job.state
      then rest
      else if is_orphan own_pid (alive s.job.pid) (registered s.job.job_id) s.job
      then (f.id, indeterminate) ∷ rest
      else rest

  abbrev pub changed_content :
      JobFile → Option StoredJob → List (Text × JobState) → List (Text × JobState)
  changed_content f none rest = rest
  changed_content f (some s) rest =
      if f.is_json && not (registered f.id) then changed_job f s rest else rest

  abbrev pub reconciled_content : JobFile → Option StoredJob → JobFile
  reconciled_content f none = f
  reconciled_content f (some s) =
      if f.is_json && not (registered f.id)
      then record f { content = some (reconcile_stored_job s) }
      else f

  unfoldable pub reconcile_jobs : List JobFile → List (Text × JobState) × List JobFile
  reconcile_jobs [] = ([], [])
  reconcile_jobs (f ∷ dir) =
      let (changed, files) = reconcile_jobs dir in
      (changed_content f f.content changed, reconciled_content f f.content ∷ files)

module _ (date_parse : Text → Option ℕ) (cutoff : ℕ) where
  abbrev is_before_cutoff : Option ℕ → Bool
  is_before_cutoff none = false
  is_before_cutoff (some t) = ltb t cutoff

  -- the moment that counts for the age of a record
  abbrev pub age_text : StoredJob → Text
  age_text s = first_text s.finished (first_text s.updated (first_text s.created (codes "0")))

  abbrev pub is_expired_content : Option StoredJob → Bool
  is_expired_content none = false
  is_expired_content (some s) =
      is_terminal s.job.state && is_before_cutoff (date_parse (age_text s))

  abbrev pub is_expired : JobFile → Bool
  is_expired f = f.is_json && is_expired_content f.content

  -- one directory: how many records went, and the files that are left
  unfoldable pub prune_dir : Bool → List JobFile → ℕ × List JobFile
  prune_dir dry_run [] = (0, [])
  prune_dir dry_run (f ∷ dir) =
      let (pruned, kept) = prune_dir dry_run dir in
      if is_expired f then (suc pruned, if dry_run then f ∷ kept else kept) else (pruned, f ∷ kept)

  -- a directory that is empty goes, too
  abbrev pub keep_dir : Bool → List JobFile → List (List JobFile) → List (List JobFile)
  keep_dir dry_run [] dirs = if dry_run then [] ∷ dirs else dirs
  keep_dir dry_run (f ∷ files) dirs = (f ∷ files) ∷ dirs

  unfoldable pub prune_jobs : Bool → List (List JobFile) → ℕ × List (List JobFile)
  prune_jobs dry_run [] = (0, [])
  prune_jobs dry_run (dir ∷ dirs) =
      let (pruned, kept) = prune_dir dry_run dir in
      let (more, others) = prune_jobs dry_run dirs in (pruned + more, keep_dir dry_run kept others)
