-- ===== src/Tests/Sweeping.antt =====
-- A directory with a job that runs, an old one that has ended, and one whose process is gone.
use liu_he.Base.{ℕ, ◌≡◌, refl, Bool, true, false, Option, none, some, List, [], ◌∷◌}
use liu_he.Base.Text.{Text, codes, ◌===◌}
use liu_he.Jobs.{running, succeeded, indeterminate}
use liu_he.Jobs.Listing.{StoredJob, JobFile, reconcile_jobs, prune_jobs, prune_dir}

abbrev first_digit : Text → Option ℕ
first_digit [] = none
first_digit (c ∷ _) = some c

abbrev live_job : StoredJob
live_job = record {
  job = record {
    job_id = codes "j1";
    task_id = codes "t";
    state = running;
    pid = 7;
    heartbeat = 0;
  };
  created = codes "1";
  updated = [];
  finished = [];
}

abbrev old_job : StoredJob
old_job = record live_job {
  job = record {
    job_id = codes "j2";
    task_id = codes "t";
    state = succeeded;
    pid = 7;
    heartbeat = 0;
  };
  finished = codes "2";
}

abbrev lost_job : StoredJob
lost_job = record live_job {
  job = record {
    job_id = codes "j3";
    task_id = codes "t";
    state = running;
    pid = 9;
    heartbeat = 0;
  };
}

abbrev file_of : Text → StoredJob → JobFile
file_of id s = record { id = id; is_json = true; content = some s }

abbrev job_dir : List JobFile
job_dir =
    file_of (codes "j1") live_job
    ∷ file_of (codes "j2") old_job
    ∷ file_of (codes "j3") lost_job
    ∷ record { id = codes "x"; is_json = true; content = none }
    ∷ []

abbrev is_first : Text → Bool
is_first id = id === codes "j1"

abbrev none_alive : ℕ → Bool
none_alive pid = false

abbrev keep_order : Text → Text → Bool
keep_order a b = false

lost_is_found :
    (reconcile_jobs 7 none_alive is_first (codes "9") job_dir).0 ≡ (codes "j3", indeterminate) ∷ []
unfolding reconcile_jobs
lost_is_found = refl

one_is_swept : (prune_jobs first_digit b'5' false (job_dir ∷ [] ∷ [])).0 ≡ 1
unfolding prune_jobs prune_dir
one_is_swept = refl
