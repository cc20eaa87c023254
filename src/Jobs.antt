-- ===== src/Jobs.antt =====
-- Background jobs of malong/workflow/jobs.js: the record of one job on disk, with what its process
-- knows of it. Each call of the source that does not wait is one function; `cancelJob`, which waits
-- for the run in its middle, is two.
use liu_he.Base.{
  ℕ, Bool, true, false, ◌&&◌, not, Option, none, some, List, [], ◌∷◌, ◌==◌, leb, ltb, if◌then◌else◌,
}
use liu_he.Base.Text.{Text}
pub mod Honest
pub mod Listing
pub mod Shown
pub mod Swept

pub data JobState : Type 0 where
  running cancelling succeeded failed cancelled indeterminate : JobState

abbrev pub is_terminal : JobState → Bool
is_terminal running = false
is_terminal cancelling = false
is_terminal _ = true

pub record Job : Type 0 where
  pub job_id : Text
  pub task_id : Text
  pub state : JobState
  pub pid : ℕ
  pub heartbeat : ℕ

-- How a run ends: it returns, with `ok` false or not, or throws.
pub data Outcome : Type 0 where
  returned : Bool → Outcome
  threw : Outcome

-- `stored` is the record on disk, `registered` says whether the process knows the job, `aborted` and
-- `settled` whether its signal was given and its run has ended, `beating` whether its timer is set.
pub record World : Type 0 where
  pub stored : Option Job
  pub registered : Bool
  pub aborted : Bool
  pub settled : Bool
  pub beating : Bool

unfoldable pub start_job : Text → Text → ℕ → ℕ → World
start_job job_id task_id pid now = record {
  stored =
      some (record {
        job_id = job_id;
        task_id = task_id;
        state = running;
        pid = pid;
        heartbeat = now;
      });
  registered = true;
  aborted = false;
  settled = false;
  beating = true;
}

abbrev pub beat_job : ℕ → World → Option Job → World
beat_job now w none = record w { beating = false }
beat_job now w (some job) =
    if is_terminal job.state
    then record w { beating = false }
    else record w { stored = some (record job { heartbeat = now }) }

-- the timer's callback
unfoldable pub heartbeat : ℕ → World → World
heartbeat now w = if w.beating then beat_job now w w.stored else w

-- the timer of `timeoutMs`
abbrev pub time_out : World → World
time_out w = record w { aborted = true }

abbrev pub final_state : Bool → Outcome → JobState
final_state true _ = cancelled
final_state false (returned true) = succeeded
final_state false (returned false) = failed
final_state false threw = failed

-- `{ ...readJob(), state }`: of a record that is gone only the state is written
abbrev pub with_state : Option Job → JobState → Job
with_state none state = record { job_id = []; task_id = []; state = state; pid = 0; heartbeat = 0 }
with_state (some job) state = record job { state = state }

-- the end of `done`
unfoldable pub settle : Outcome → World → World
settle outcome w = record w {
  stored = some (with_state w.stored (final_state w.aborted outcome));
  settled = true;
  beating = false;
}

-- Is the job of a process that is gone, or of this one, which does not know it?
abbrev pub is_orphan : ℕ → Bool → Bool → Job → Bool
is_orphan own_pid owner_alive registered job =
    if job.pid == own_pid then not registered else if job.pid == 0 then false else not owner_alive

unfoldable pub reconcile_record : ℕ → Bool → Bool → Job → Job
reconcile_record own_pid owner_alive registered job =
    if is_terminal job.state
    then job
    else if is_orphan own_pid owner_alive registered job
    then record job { state = indeterminate }
    else job

abbrev pub reconcile_stored : ℕ → Bool → Bool → Option Job → Option Job
reconcile_stored own_pid owner_alive registered none = none
reconcile_stored own_pid owner_alive registered (some job) =
    some (reconcile_record own_pid owner_alive registered job)

-- `getJob`: the world behind it, in which the answer is what is stored
unfoldable pub get_job : ℕ → Bool → World → World
get_job own_pid owner_alive w =
    if w.registered
    then w
    else record w { stored = reconcile_stored own_pid owner_alive w.registered w.stored }

pub data CancelReply : Type 0 where
  job_not_found : CancelReply
  idempotent : JobState → CancelReply
  ambiguous : JobState → CancelReply
  confirmed : CancelReply

-- `cancelJob` up to its wait: an answer, or none while it waits
pub record Cancelling : Type 0 where
  pub world : World
  pub reply : Option CancelReply

unfoldable pub cancel_known : ℕ → Bool → World → Job → Cancelling
cancel_known own_pid owner_alive w job =
    if is_terminal job.state
    then record { world = w; reply = some (idempotent job.state) }
    else if w.registered
    then record {
      world = record w { stored = some (record job { state = cancelling }); aborted = true };
      reply = none;
    }
    else (let seen = reconcile_record own_pid owner_alive w.registered job in
        record { world = record w { stored = some seen }; reply = some (ambiguous seen.state) })

abbrev pub cancel_stored : ℕ → Bool → World → Option Job → Cancelling
cancel_stored own_pid owner_alive w none = record { world = w; reply = some job_not_found }
cancel_stored own_pid owner_alive w (some job) = cancel_known own_pid owner_alive w job

abbrev pub cancel_job : ℕ → Bool → World → Cancelling
cancel_job own_pid owner_alive w = cancel_stored own_pid owner_alive w w.stored

abbrev pub is_cancelled : Option Job → Bool
is_cancelled none = false
is_cancelled (some job) = elim job.state [ cancelled ↦ true | _ ↦ false ]

-- `readJob() || rec`
abbrev pub stored_or : Job → Option Job → Job
stored_or rec none = rec
stored_or rec (some job) = job

-- `cancelJob` behind its wait, for the record `rec` that it has read at first; `done_first` says that
-- the run ended before the time was over
unfoldable pub finish_cancel : Bool → Job → World → World × CancelReply
finish_cancel done_first rec w = if done_first && is_cancelled w.stored then (w, confirmed) else (
  record w { stored = some (record (stored_or rec w.stored) { state = indeterminate }) },
  ambiguous indeterminate,
)
