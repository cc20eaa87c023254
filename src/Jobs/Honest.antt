-- ===== src/Jobs/Honest.antt =====
-- No record claims an end that its run has not reached.
use liu_he.Base.{
  ℕ, ◌≡◌, ◌≢◌, refl, sym, subst, inl, inr, ◌⊎◌, Bool, true, false, ◌==◌, ==_iff, ◌&&◌, Bool-cases,
  Option, none, some,
}
use liu_he.Base.Text.{Text}
use liu_he.Jobs.{
  JobState, running, cancelling, succeeded, failed, cancelled, indeterminate, is_terminal, Job,
  Outcome, returned, threw, World, start_job, beat_job, heartbeat, time_out, final_state,
  with_state, settle, reconcile_record, reconcile_stored, is_orphan, get_job, ambiguous, confirmed,
  cancel_known, cancel_stored, cancel_job, is_cancelled, finish_cancel,
}

-- what a state says of a run that has ended or not, and was told to stop or not
abbrev pub IsTrue : JobState → Bool → Bool → Type 0
IsTrue running settled aborted = Unit
IsTrue cancelling settled aborted = aborted ≡ true
IsTrue succeeded settled aborted = (settled ≡ true) × (aborted ≡ false)
IsTrue failed settled aborted = (settled ≡ true) × (aborted ≡ false)
IsTrue cancelled settled aborted = (settled ≡ true) × (aborted ≡ true)
IsTrue indeterminate settled aborted = Unit

abbrev pub IsTrueOf : Option Job → Bool → Bool → Type 0
IsTrueOf none settled aborted = Unit
IsTrueOf (some job) settled aborted = IsTrue job.state settled aborted

abbrev pub IsHonest : World → Type 0
IsHonest w = IsTrueOf w.stored w.settled w.aborted

-- One event: a tick of the timer, the end of the time, the end of the run, a call of `cancelJob` up to
-- its wait and behind it, the run forgotten, a new process, a look at the job.
pub data Step : World → World → Type 0 where
  beat : {w : World} (w₀ : World) (now : ℕ) → w ≡ heartbeat now w₀ → Step w₀ w
  run_out : {w : World} (w₀ : World) → w₀.settled ≡ false → w ≡ time_out w₀ → Step w₀ w
  end_run :
      {w : World} (w₀ : World) (o : Outcome) → w₀.settled ≡ false → w ≡ settle o w₀ → Step w₀ w
  ask_cancel :
      {w : World} (w₀ : World) (pid : ℕ) (alive : Bool)
      → w ≡ (cancel_job pid alive w₀).world
      → Step w₀ w
  end_cancel :
      {w : World} (w₀ : World) (done_first : Bool) (rec : Job)
      → (done_first ≡ true → w₀.settled ≡ true)
      → w ≡ (finish_cancel done_first rec w₀).0
      → Step w₀ w
  forget :
      {w : World} (w₀ : World)
      → w₀.settled ≡ true
      → w ≡ record w₀ { registered = false }
      → Step w₀ w
  restart :
      {w : World} (w₀ : World) → w ≡ record w₀ { registered = false; beating = false } → Step w₀ w
  look : {w : World} (w₀ : World) (pid : ℕ) (alive : Bool) → w ≡ get_job pid alive w₀ → Step w₀ w

pub data Reach (w₀ : World) : World → Type 0 where
  here : Reach w₀ w₀
  next : {v w : World} → Reach w₀ v → Step v w → Reach w₀ w

final-IsTrue : (aborted : Bool) (o : Outcome) → IsTrue (final_state aborted o) true aborted
final-IsTrue true o = (refl, refl)
final-IsTrue false (returned true) = (refl, refl)
final-IsTrue false (returned false) = (refl, refl)
final-IsTrue false threw = (refl, refl)

settle-IsTrue :
    (stored : Option Job) (aborted : Bool) (o : Outcome)
    → IsTrueOf (some (with_state stored (final_state aborted o))) true aborted
settle-IsTrue none aborted o = final-IsTrue aborted o
settle-IsTrue (some job) aborted o = final-IsTrue aborted o

beat-IsHonest :
    (now : ℕ) (w : World) (stored : Option Job)
    → IsTrueOf stored w.settled w.aborted
    → w.stored ≡ stored
    → IsHonest (beat_job now w stored)
beat-IsHonest now w none h e = subst (λ (o : Option Job). IsTrueOf o w.settled w.aborted) (sym e) h
beat-IsHonest now w (some job) h e = elim (Bool-cases (is_terminal job.state)) [
  | inl t ↦ rw t (subst (λ (o : Option Job). IsTrueOf o w.settled w.aborted) (sym e) h)
  | inr t ↦ rw t h
]

abort-IsTrue :
    (s : JobState) (settled aborted : Bool)
    → settled ≡ false
    → IsTrue s settled aborted
    → IsTrue s settled true
abort-IsTrue running settled aborted e h = tt
abort-IsTrue cancelling settled aborted e h = refl
abort-IsTrue succeeded settled aborted e h = let k = h.0 in cc
abort-IsTrue failed settled aborted e h = let k = h.0 in cc
abort-IsTrue cancelled settled aborted e h = (h.0, refl)
abort-IsTrue indeterminate settled aborted e h = tt

abort-IsTrueOf :
    (o : Option Job) (settled aborted : Bool)
    → settled ≡ false
    → IsTrueOf o settled aborted
    → IsTrueOf o settled true
abort-IsTrueOf none settled aborted e h = tt
abort-IsTrueOf (some job) settled aborted e h = abort-IsTrue job.state settled aborted e h

reconcile-IsTrue :
    (pid : ℕ) (alive registered : Bool) (job : Job) (settled aborted : Bool)
    → IsTrue job.state settled aborted
    → IsTrue (reconcile_record pid alive registered job).state settled aborted
unfolding reconcile_record
reconcile-IsTrue pid alive registered job settled aborted h =
    elim (Bool-cases (is_terminal job.state)) [
      | inl t ↦ rw t h
      | inr t ↦ elim (Bool-cases (is_orphan pid alive registered job)) [
        | inl o ↦ simp (t, o) tt
        | inr o ↦ simp (t, o) h
      ]
    ]

cancel-IsHonest :
    (pid : ℕ) (alive : Bool) (w : World) (stored : Option Job)
    → IsTrueOf stored w.settled w.aborted
    → w.stored ≡ stored
    → IsHonest (cancel_stored pid alive w stored).world
unfolding cancel_known
cancel-IsHonest pid alive w none h e =
    subst (λ (o : Option Job). IsTrueOf o w.settled w.aborted) (sym e) h
cancel-IsHonest pid alive w (some job) h e = elim (Bool-cases (is_terminal job.state)) [
  | inl t ↦ rw t (subst (λ (o : Option Job). IsTrueOf o w.settled w.aborted) (sym e) h)
  | inr t ↦ elim (Bool-cases w.registered) [
    | inl r ↦ simp (t, r) refl
    | inr r ↦ simp (t, r) (reconcile-IsTrue pid alive false job w.settled w.aborted h)
  ]
]

heartbeat-IsHonest : (now : ℕ) (w : World) → IsHonest w → IsHonest (heartbeat now w)
unfolding heartbeat
heartbeat-IsHonest now w h = elim (Bool-cases w.beating) [
  | inl b ↦ simp b (beat-IsHonest now w w.stored h refl)
  | inr b ↦ simp b h
]

look-IsHonest : (pid : ℕ) (alive : Bool) (w : World) → IsHonest w → IsHonest (get_job pid alive w)
unfolding get_job
look-IsHonest pid alive w h = elim (Bool-cases w.registered) [
  | inl r ↦ simp r h
  | inr r ↦ simp r (stored-IsTrue w.stored h)
]
  where
    stored-IsTrue :
        (o : Option Job)
        → IsTrueOf o w.settled w.aborted
        → IsTrueOf (reconcile_stored pid alive false o) w.settled w.aborted
    stored-IsTrue none k = tt
    stored-IsTrue (some job) k = reconcile-IsTrue pid alive false job w.settled w.aborted k

finish-IsHonest :
    (done_first : Bool) (rec : Job) (w : World)
    → IsHonest w
    → IsHonest (finish_cancel done_first rec w).0
unfolding finish_cancel
finish-IsHonest done_first rec w h = elim (Bool-cases (done_first && is_cancelled w.stored)) [
  | inl e ↦ simp e h
  | inr e ↦ simp e tt
]

Step-IsHonest : {w v : World} → Step w v → IsHonest w → IsHonest v
unfolding settle
Step-IsHonest {v = v} (beat w now e) h = subst IsHonest (sym e) (heartbeat-IsHonest now w h)
Step-IsHonest (run_out w running_on e) h =
    subst IsHonest (sym e) (abort-IsTrueOf w.stored w.settled w.aborted running_on h)
Step-IsHonest (end_run w o running_on e) h =
    subst IsHonest (sym e) (settle-IsTrue w.stored w.aborted o)
Step-IsHonest (ask_cancel w pid alive e) h =
    subst IsHonest (sym e) (cancel-IsHonest pid alive w w.stored h refl)
Step-IsHonest (end_cancel w done_first rec d e) h =
    subst IsHonest (sym e) (finish-IsHonest done_first rec w h)
Step-IsHonest (forget w s e) h = subst IsHonest (sym e) h
Step-IsHonest (restart w e) h = subst IsHonest (sym e) h
Step-IsHonest (look w pid alive e) h = subst IsHonest (sym e) (look-IsHonest pid alive w h)

-- Whatever happens to a job that was started, in any order and over restarts of its process, its record
-- says that it succeeded or failed only if its run has ended without being told to stop, and that
-- it was cancelled only if the run has ended after being told to stop.
pub Reach-IsHonest :
    (job_id task_id : Text) (pid now : ℕ) {w : World}
    → Reach (start_job job_id task_id pid now) w
    → IsHonest w
unfolding start_job
Reach-IsHonest job_id task_id pid now here = tt
Reach-IsHonest job_id task_id pid now (next r st) =
    Step-IsHonest st (Reach-IsHonest job_id task_id pid now r)

cancelled-IsTrue :
    (o : Option Job) (settled aborted : Bool)
    → is_cancelled o ≡ true
    → IsTrueOf o settled aborted
    → (settled ≡ true) × (aborted ≡ true)
cancelled-IsTrue none settled aborted e h = cc
cancelled-IsTrue (some job) settled aborted e h = state_true job.state e h
  where
    state_true :
        (s : JobState)
        → is_cancelled (some (record job { state = s })) ≡ true
        → IsTrue s settled aborted
        → (settled ≡ true) × (aborted ≡ true)
    state_true cancelled k t = t
    state_true running k t = cc
    state_true cancelling k t = cc
    state_true succeeded k t = cc
    state_true failed k t = cc
    state_true indeterminate k t = cc

and-right : (a b : Bool) → (a && b) ≡ true → b ≡ true
and-right true b h = h
and-right false b h = cc

-- In a reachable state `cancelJob` confirms a cancellation only if the run has ended after it was told to
-- stop, and says of every other that its outcome is uncertain, which it also writes to the record.
pub finish_cancel-confirmed :
    (job_id task_id : Text) (pid now : ℕ) {w : World} (done_first : Bool) (rec : Job)
    → Reach (start_job job_id task_id pid now) w
    → let (w', reply) = finish_cancel done_first rec w in
      ((reply ≡ confirmed) × (w.settled ≡ true) × (w.aborted ≡ true) × (w' ≡ w))
      ⊎ ((reply ≡ ambiguous indeterminate)
          × ((j : Job) × (w'.stored ≡ some j) × (j.state ≡ indeterminate)))
unfolding finish_cancel
finish_cancel-confirmed job_id task_id pid now {w} done_first rec r =
    let h = Reach-IsHonest job_id task_id pid now r in
    elim (Bool-cases (done_first && is_cancelled w.stored)) [
      | inl e ↦
          let t =
            cancelled-IsTrue w.stored w.settled w.aborted
              (and-right done_first (is_cancelled w.stored) e) h in
          simp e (inl (refl, t.0, t.1, refl))
      | inr e ↦ simp e (inr (refl, (_, refl, refl)))
    ]

terminal_or_orphan :
    (pid : ℕ) (alive : Bool) (job : Job)
    → job.pid ≢ 0
    → (job.pid ≡ pid) ⊎ (alive ≡ false)
    → is_terminal (reconcile_record pid alive false job).state ≡ true
unfolding reconcile_record
terminal_or_orphan pid alive job named gone = elim (Bool-cases (is_terminal job.state)) [
  | inl t ↦ rw t t
  | inr t ↦ let o : is_orphan pid alive false job ≡ true = orphan gone in simp (t, o) refl
]
  where
    orphan : (job.pid ≡ pid) ⊎ (alive ≡ false) → is_orphan pid alive false job ≡ true
    orphan (inl e) = let k = (==_iff job.pid pid).1 e in simp k refl
    orphan (inr e) = elim (Bool-cases (job.pid == pid)) [
      | inl k ↦ simp k refl
      | inr k ↦ elim (Bool-cases (job.pid == 0)) [
        | inl z ↦ absurd (named ((==_iff job.pid 0).0 z))
        | inr z ↦ simp (k, z, e) refl
      ]
    ]

-- Behind a restart, with another process or with the same number for the new one, the first look at a job
-- ends it: its record has succeeded, failed, been cancelled or become indeterminate.
pub get_job-terminal :
    (w : World) (job : Job) (pid : ℕ) (alive : Bool)
    → w.registered ≡ false
    → w.stored ≡ some job
    → job.pid ≢ 0
    → (job.pid ≡ pid) ⊎ (alive ≡ false)
    → (j : Job) × ((get_job pid alive w).stored ≡ some j) × (is_terminal j.state ≡ true)
unfolding get_job
get_job-terminal w job pid alive off stored named gone = (
  reconcile_record pid alive false job,
  simp (off, stored) refl,
  terminal_or_orphan pid alive job named gone,
)
