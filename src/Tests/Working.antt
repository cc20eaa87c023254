-- ===== src/Tests/Working.antt =====
-- The theorems on jobs, at a job that is cancelled and one that outlives its process.
use liu_he.Base.{◌≡◌, refl, true, false, some}
use liu_he.Base.Text.{codes}
use liu_he.Jobs.{
  Job, returned, World, start_job, settle, confirmed, cancel_known, cancel_job, finish_cancel,
  running,
}
use liu_he.Jobs.Honest.{IsHonest, Reach, here, next, ask_cancel, end_run, Reach-IsHonest}

abbrev started : World
started = start_job (codes "j") (codes "t") 7 100

abbrev job : Job
job = record { job_id = codes "j"; task_id = codes "t"; state = running; pid = 7; heartbeat = 100 }

abbrev asked : World
asked = (cancel_job 7 true started).world

-- the run returns after it was told to stop
abbrev stopped : World
stopped = settle (returned true) asked

stopped-Reach : Reach started stopped
unfolding start_job cancel_known
stopped-Reach =
    next (next here (ask_cancel started 7 true refl)) (end_run asked (returned true) refl refl)

Reach-IsHonest_example : IsHonest stopped
Reach-IsHonest_example = Reach-IsHonest (codes "j") (codes "t") 7 100 stopped-Reach

cancel_is_confirmed : (finish_cancel true job stopped).1 ≡ confirmed
unfolding finish_cancel settle start_job cancel_known
cancel_is_confirmed = refl

abbrev orphaned : World
orphaned = record {
  stored = some job;
  registered = false;
  aborted = false;
  settled = false;
  beating = false;
}
