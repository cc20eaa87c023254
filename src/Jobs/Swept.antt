-- ===== src/Jobs/Swept.antt =====
-- Sweeping takes no job that may still run, and a listing shows none whose process is gone as running.
use liu_he.Base.{
  ℕ, suc, ◌+◌, ◌≡◌, refl, inl, inr, ap, subst, Bool, true, false, Bool-cases, Option, some, List,
  [], ◌∷◌, In, length, sum, map, if◌then◌else◌, arith,
}
use mathlib.Core.Path.{ap₂}
use liu_he.Base.Text.{Text}
use liu_he.Jobs.{is_terminal}
use liu_he.Jobs.Listing.{StoredJob, JobFile, is_expired, prune_dir, keep_dir, prune_jobs}

-- the jobs that may still run
abbrev pub MayRun : JobFile → Type 0
MayRun f = (s : StoredJob) × (f.content ≡ some s) × (is_terminal s.job.state ≡ false)

kept_either :
    (dry_run : Bool) (f g : JobFile) (kept : List JobFile)
    → In f kept
    → In f (if dry_run then g ∷ kept else kept)
kept_either true f g kept i = inr i
kept_either false f g kept i = i

module _ (date_parse : Text → Option ℕ) (cutoff : ℕ) where
  MayRun-kept : (f : JobFile) → MayRun f → is_expired date_parse cutoff f ≡ false
  MayRun-kept f (s, c, t) = elim (Bool-cases f.is_json) [
    | inl e ↦ rw (e, c, t) refl
    | inr e ↦ rw e refl
  ]

  prune_dir-keeps :
      (dry_run : Bool) (dir : List JobFile) (f : JobFile)
      → MayRun f
      → In f dir
      → In f (prune_dir date_parse cutoff dry_run dir).1
  unfolding prune_dir
  prune_dir-keeps dry_run [] f m i = absurd i
  prune_dir-keeps dry_run (g ∷ dir) f m (inl same) =
      let k : is_expired date_parse cutoff g ≡ false =
        subst (λ (x : JobFile). is_expired date_parse cutoff x ≡ false) same (MayRun-kept f m) in
      rw k (inl same)
  prune_dir-keeps dry_run (g ∷ dir) f m (inr i) =
      let rest = prune_dir-keeps dry_run dir f m i in
      elim (Bool-cases (is_expired date_parse cutoff g)) [
        | inl e ↦ rw e (kept_either dry_run f g (prune_dir date_parse cutoff dry_run dir).1 rest)
        | inr e ↦ rw e (inr rest)
      ]

  prune_dir-count :
      (dir : List JobFile)
      → (prune_dir date_parse cutoff false dir).0 + length (prune_dir date_parse cutoff false dir).1
        ≡ length dir
  unfolding prune_dir
  prune_dir-count [] = omega arith
  prune_dir-count (f ∷ dir) = elim (Bool-cases (is_expired date_parse cutoff f)) [
    | inl e ↦ rw e (omega (arith, prune_dir-count dir))
    | inr e ↦ rw e (omega (arith, prune_dir-count dir))
  ]

  prune_dir-dry :
      (dir : List JobFile)
      → ((prune_dir date_parse cutoff true dir).0 ≡ (prune_dir date_parse cutoff false dir).0)
        × ((prune_dir date_parse cutoff true dir).1 ≡ dir)
  unfolding prune_dir
  prune_dir-dry [] = (refl, refl)
  prune_dir-dry (f ∷ dir) =
      let (n, k) = prune_dir-dry dir in
      elim (Bool-cases (is_expired date_parse cutoff f)) [
        | inl e ↦ rw e (ap (λ (x : ℕ). suc x) n, ap (λ (x : List JobFile). f ∷ x) k)
        | inr e ↦ rw e (n, ap (λ (x : List JobFile). f ∷ x) k)
      ]

  -- a directory in which a file is left stays
  keep_dir-keeps :
      (dry_run : Bool) (dir : List JobFile) (dirs : List (List JobFile)) (f : JobFile)
      → In f dir
      → In dir (keep_dir date_parse cutoff dry_run dir dirs)
  keep_dir-keeps dry_run [] dirs f i = absurd i
  keep_dir-keeps dry_run (g ∷ dir) dirs f i = inl refl

  keep_dir-others :
      (dry_run : Bool) (dir d : List JobFile) (dirs : List (List JobFile))
      → In d dirs
      → In d (keep_dir date_parse cutoff dry_run dir dirs)
  keep_dir-others true [] d dirs i = inr i
  keep_dir-others false [] d dirs i = i
  keep_dir-others dry_run (g ∷ dir) d dirs i = inr i

  keep_dir-count :
      (dir : List JobFile) (dirs : List (List JobFile))
      → sum (map length (keep_dir date_parse cutoff false dir dirs))
        ≡ length dir + sum (map length dirs)
  keep_dir-count [] dirs = omega arith
  keep_dir-count (f ∷ dir) dirs = omega arith

  dry_dir :
      (dir : List JobFile) (dirs : List (List JobFile))
      → keep_dir date_parse cutoff true dir dirs ≡ dir ∷ dirs
  dry_dir [] dirs = refl
  dry_dir (f ∷ dir) dirs = refl

  -- the file is still there, in some directory
  abbrev pub IsLeft : List (List JobFile) → JobFile → Type 0
  IsLeft dirs f = (d : List JobFile) × In d dirs × In f d

  prune_jobs-keeps :
      (dry_run : Bool) (dirs : List (List JobFile)) (dir : List JobFile) (f : JobFile)
      → MayRun f
      → In dir dirs
      → In f dir
      → IsLeft (prune_jobs date_parse cutoff dry_run dirs).1 f
  unfolding prune_jobs
  prune_jobs-keeps dry_run [] dir f m i j = absurd i
  prune_jobs-keeps dry_run (g ∷ dirs) dir f m (inl same) j =
      let kept = prune_dir date_parse cutoff dry_run g in
      let others = prune_jobs date_parse cutoff dry_run dirs in
      let left = prune_dir-keeps dry_run g f m (subst (λ (x : List JobFile). In f x) same j) in
      (kept.1, keep_dir-keeps dry_run kept.1 others.1 f left, left)
  prune_jobs-keeps dry_run (g ∷ dirs) dir f m (inr i) j =
      let (d, k, l) = prune_jobs-keeps dry_run dirs dir f m i j in
      (
        d,
        keep_dir-others dry_run (prune_dir date_parse cutoff dry_run g).1 d
            (prune_jobs date_parse cutoff dry_run dirs).1 k,
        l,
      )

  prune_jobs-count :
      (dirs : List (List JobFile))
      → (prune_jobs date_parse cutoff false dirs).0
          + sum (map length (prune_jobs date_parse cutoff false dirs).1)
        ≡ sum (map length dirs)
  unfolding prune_jobs
  prune_jobs-count [] = omega arith
  prune_jobs-count (dir ∷ dirs) = omega (
    arith,
    prune_dir-count dir,
    prune_jobs-count dirs,
    keep_dir-count (prune_dir date_parse cutoff false dir).1
        (prune_jobs date_parse cutoff false dirs).1,
  )

  prune_jobs-dry :
      (dirs : List (List JobFile))
      → ((prune_jobs date_parse cutoff true dirs).0 ≡ (prune_jobs date_parse cutoff false dirs).0)
        × ((prune_jobs date_parse cutoff true dirs).1 ≡ dirs)
  unfolding prune_jobs
  prune_jobs-dry [] = (refl, refl)
  prune_jobs-dry (dir ∷ dirs) =
      let (n, k) = prune_dir-dry dir in
      let (m, l) = prune_jobs-dry dirs in
      (ap₂ (λ (x y : ℕ). x + y) n m, rw (k, l) (dry_dir dir dirs))

  -- Sweeping leaves each job that is running or being cancelled in its file, and takes as many files as
  -- it says; a dry run says the same number and takes none.
  pub prune_jobs-swept :
      (dirs : List (List JobFile))
      → ((dry_run : Bool) (dir : List JobFile) (f : JobFile)
          → MayRun f
          → In dir dirs
          → In f dir
          → IsLeft (prune_jobs date_parse cutoff dry_run dirs).1 f)
        × ((prune_jobs date_parse cutoff false dirs).0
              + sum (map length (prune_jobs date_parse cutoff false dirs).1)
            ≡ sum (map length dirs))
        × ((prune_jobs date_parse cutoff true dirs).0 ≡ (prune_jobs date_parse cutoff false dirs).0)
        × ((prune_jobs date_parse cutoff true dirs).1 ≡ dirs)
  prune_jobs-swept dirs =
      let (n, k) = prune_jobs-dry dirs in
      (
        (λ dry_run dir f m i j. prune_jobs-keeps dry_run dirs dir f m i j),
        prune_jobs-count dirs,
        n,
        k,
      )
