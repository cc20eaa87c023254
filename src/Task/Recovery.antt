-- ===== src/Task/Recovery.antt =====
-- After crashes, torn lines and lost snapshots, malong/tools/entry-store.js returns the last task
-- that the event log has, and two writers never commit on the same revision.
use liu_he.Base.{
  ℕ, zero, suc, ◌<◌, ◌≡◌, ◌⊎◌, inl, inr, refl, ap, ◌∙◌, false, Option, none, some, List, [], ◌∷◌,
  ◌++◌, ◌==◌, le→leb, lt→leb_false, ==_refl, Bool-cases, arith,
}
use mathlib.Core.Path.{ap₂}
use mathlib.Core.List.{append-nil}
use liu_he.Task.{
  Task, Event, task_created, stamp_of, max_option, replay, replay_step, replay_event, rebuild_task,
  latest_event_revision,
}
use liu_he.Task.Disk.{
  Line, event, torn, Disk, finished, append_event, parse_lines, read_events, write_snapshot,
  is_current, get_task, put_task, CasResult, committed, revision_conflict, next_revision, Mutation,
  next_task, next_event, update_task_cas, commit, backfill, get_from,
}
use liu_he.Task.Faithful.{IsFaithful}

parse_lines-append : (xs ys : List Line) → parse_lines (xs ++ ys) ≡ parse_lines xs ++ parse_lines ys
unfolding parse_lines
parse_lines-append [] ys = refl
parse_lines-append (event ev ∷ xs) ys = ap (λ (l : List Event). ev ∷ l) (parse_lines-append xs ys)
parse_lines-append (torn ∷ xs) ys = parse_lines-append xs ys

replay-append :
    (t : Option Task) (events : List Event) (ev : Event)
    → replay t (events ++ ev ∷ []) ≡ replay_step (replay t events) ev
unfolding replay
replay-append t [] ev = refl
replay-append t (e ∷ events) ev = replay-append (replay_step t e) events ev

latest-append :
    (rev : Option ℕ) (events : List Event) (ev : Event)
    → latest_event_revision rev (events ++ ev ∷ [])
      ≡ max_option (latest_event_revision rev events) (stamp_of ev)
unfolding latest_event_revision
latest-append rev [] ev = refl
latest-append rev (e ∷ events) ev = latest-append (max_option rev (stamp_of e)) events ev

read_events-append :
    (d : Disk) (ev : Event) → read_events (append_event d ev) ≡ read_events d ++ ev ∷ []
unfolding read_events append_event parse_lines
read_events-append d ev = parse_lines-append (finished d) (event ev ∷ [])

abbrev IsOlder : Option Task → Task → Type 0
IsOlder none t = Unit
IsOlder (some snap) t = (snap ≡ t) ⊎ (snap.revision < t.revision)

-- The log has the task, and the snapshot, if there is one, is this task or an older one.
pub record IsConsistent (d : Disk) (t : Task) : Type 0 where
  pub rebuilt : rebuild_task (read_events d) ≡ some t
  pub latest : latest_event_revision none (read_events d) ≡ some t.revision
  pub snapshot : IsOlder d.snapshot t

write_snapshot-IsConsistent :
    (d : Disk) (t : Task) → IsConsistent d t → IsConsistent (write_snapshot d t) t
unfolding write_snapshot read_events
write_snapshot-IsConsistent d t h = record {
  rebuilt = h.rebuilt;
  latest = h.latest;
  snapshot = inl refl;
}

record Reads (r : Disk × Option Task) (t : Task) : Type 0 where
  result : r.1 ≡ some t
  disk : IsConsistent r.0 t

backfill-Reads :
    (d : Disk) (o : Option Task) (t : Task) → IsConsistent d t → o ≡ some t → Reads (backfill d o) t
unfolding backfill
backfill-Reads d none t h e = cc
backfill-Reads d (some x) t h e =
    let same : x ≡ t = cc in
    rw same (record { result = refl; disk = write_snapshot-IsConsistent d t h })

get_from-Reads :
    (d : Disk) (o : Option Task) (t : Task)
    → IsConsistent d t
    → IsOlder o t
    → Reads (get_from d o) t
unfolding get_from
get_from-Reads d none t h older = backfill-Reads d _ t h h.rebuilt
get_from-Reads d (some snap) t h (inl same) =
    rw (h.latest, same)
      (rw (le→leb t.revision t.revision (omega arith)) (record { result = refl; disk = h }))
get_from-Reads d (some snap) t h (inr less) =
    rw h.latest (rw (lt→leb_false snap.revision t.revision less) (backfill-Reads d _ t h h.rebuilt))

get_task-Reads : (d : Disk) (t : Task) → IsConsistent d t → Reads (get_task d) t
unfolding get_task
get_task-Reads d t h = get_from-Reads d d.snapshot t h h.snapshot

IsOlder-grows :
    (o : Option Task) (t t' : Task) → IsOlder o t → t.revision < t'.revision → IsOlder o t'
IsOlder-grows none t t' h g = tt
IsOlder-grows (some snap) t t' (inl e) g = inr (rw e g)
IsOlder-grows (some snap) t t' (inr l) g = inr (omega arith)

append-IsConsistent :
    (d : Disk) (t t' : Task) (ev : Event)
    → IsConsistent d t
    → replay_event t ev ≡ t'
    → stamp_of ev ≡ some t'.revision
    → t.revision < t'.revision
    → IsConsistent (append_event d ev) t'
append-IsConsistent d t t' ev h replayed stamped grows = record {
  rebuilt =
      ap rebuild_task (read_events-append d ev)
      ∙ unfold rebuild_task in
        replay-append none (read_events d) ev
        ∙ ap (λ (o : Option Task). replay_step o ev) (unfold rebuild_task in h.rebuilt)
        ∙ unfold replay_step in ap some replayed;
  latest =
      ap (latest_event_revision none) (read_events-append d ev)
      ∙ latest-append none (read_events d) ev
      ∙ ap₂ max_option h.latest stamped
      ∙ ap some (omega arith);
  snapshot = unfold append_event in IsOlder-grows d.snapshot t t' h.snapshot grows;
}

pub next_revision-grows : (n : ℕ) → n < next_revision n
next_revision-grows zero = omega arith
next_revision-grows (suc n) = omega arith

event-IsConsistent :
    (d : Disk) (t : Task) (m : Mutation)
    → IsConsistent d t
    → IsFaithful m t
    → IsConsistent (append_event d (next_event m t)) (next_task m t)
event-IsConsistent d t m h f =
    append-IsConsistent d t (next_task m t) (next_event m t) h f.replayed f.stamped
      (next_revision-grows t.revision)

-- What is read after a process died between an event and its snapshot: the replay of the event.
pub crash-Reads :
    (d : Disk) (t : Task) (m : Mutation)
    → IsConsistent d t
    → stamp_of (next_event m t) ≡ some (replay_event t (next_event m t)).revision
    → t.revision < (replay_event t (next_event m t)).revision
    → (get_task (append_event (get_task d).0 (next_event m t))).1
      ≡ some (replay_event t (next_event m t))
crash-Reads d t m h stamped grows =
    (get_task-Reads _ _ (
      append-IsConsistent (get_task d).0 t _ (next_event m t) (get_task-Reads d t h).disk refl
        stamped grows)).result

-- One thing that happens to the files of a task, and to the task that is meant by them.
pub data Step : Disk → Task → Disk → Task → Type 0 where
  -- `getTask`, which may write the snapshot again
  read : (d : Disk) (t : Task) → Step d t (get_task d).0 t
  -- `updateTaskCas`, to its end
  update :
      (d : Disk) (t : Task) (m : Mutation)
      → IsFaithful m t
      → Step d t (update_task_cas d (some t.revision) m).0 (next_task m t)
  -- the process dies between the event and the snapshot
  update_crash :
      (d : Disk) (t : Task) (m : Mutation)
      → IsFaithful m t
      → Step d t (append_event (get_task d).0 (next_event m t)) (next_task m t)
  -- the process dies while it appends the event
  append_crash :
      (d : Disk) (t : Task) → Step d t (record d { lines = finished d; unfinished = some torn }) t
  -- the last newline is lost
  newline_lost :
      (d : Disk) (t : Task) (lines : List Line) (l : Line)
      → d.unfinished ≡ none
      → d.lines ≡ lines ++ l ∷ []
      → Step d t (record d { lines = lines; unfinished = some l }) t
  -- the snapshot is deleted or damaged
  snapshot_lost : (d : Disk) (t : Task) → Step d t (record d { snapshot = none }) t

pub data Reach (d : Disk) (t : Task) : Disk → Task → Type 0 where
  here : Reach d t d t
  next : {e f : Disk} {u v : Task} → Reach d t e u → Step e u f v → Reach d t f v

commit-eq :
    (d : Disk) (o : Option Task) (t : Task) (m : Mutation)
    → o ≡ some t
    → commit (d, o) (some t.revision) m ≡ (
      write_snapshot (append_event d (next_event m t)) (next_task m t),
      committed (next_task m t),
    )
unfolding commit
commit-eq d none t m e = cc
commit-eq d (some cur) t m e = let same : cur ≡ t = cc in rw same (rw (==_refl t.revision) refl)

update-IsConsistent :
    (d : Disk) (t : Task) (m : Mutation)
    → IsConsistent d t
    → IsFaithful m t
    → IsConsistent (update_task_cas d (some t.revision) m).0 (next_task m t)
unfolding update_task_cas
update-IsConsistent d t m h f =
    let r = get_task-Reads d t h in
    rw (commit-eq (get_task d).0 (get_task d).1 t m r.result)
      (write_snapshot-IsConsistent _ _ (event-IsConsistent (get_task d).0 t m r.disk f))

-- the same events, and a snapshot that is not too new
same_events-IsConsistent :
    (d e : Disk) (t : Task)
    → read_events e ≡ read_events d
    → IsOlder e.snapshot t
    → IsConsistent d t
    → IsConsistent e t
same_events-IsConsistent d e t same older h = record {
  rebuilt = ap rebuild_task same ∙ h.rebuilt;
  latest = ap (latest_event_revision none) same ∙ h.latest;
  snapshot = older;
}

torn-events :
    (d : Disk)
    → read_events (record d { lines = finished d; unfinished = some torn }) ≡ read_events d
unfolding read_events parse_lines
torn-events d = parse_lines-append (finished d) (torn ∷ []) ∙ append-nil (parse_lines (finished d))

newline-events :
    (d : Disk) (lines : List Line) (l : Line)
    → d.unfinished ≡ none
    → d.lines ≡ lines ++ l ∷ []
    → read_events (record d { lines = lines; unfinished = some l }) ≡ read_events d
unfolding read_events
newline-events d lines l whole e = rw (whole, e) refl

Step-IsConsistent :
    {d : Disk} {t : Task} {e : Disk} {u : Task} → Step d t e u → IsConsistent d t → IsConsistent e u
Step-IsConsistent (read d t) h = (get_task-Reads d t h).disk
Step-IsConsistent (update d t m f) h = update-IsConsistent d t m h f
Step-IsConsistent (update_crash d t m f) h =
    event-IsConsistent (get_task d).0 t m (get_task-Reads d t h).disk f
Step-IsConsistent (append_crash d t) h = same_events-IsConsistent d _ t (torn-events d) h.snapshot h
Step-IsConsistent (newline_lost d t lines l whole e) h =
    same_events-IsConsistent d _ t (newline-events d lines l whole e) h.snapshot h
Step-IsConsistent (snapshot_lost d t) h =
    same_events-IsConsistent d _ t (unfold read_events in refl) tt h

Reach-IsConsistent :
    {d : Disk} {t : Task} {e : Disk} {u : Task}
    → Reach d t e u
    → IsConsistent d t
    → IsConsistent e u
Reach-IsConsistent here h = h
Reach-IsConsistent (next r st) h = Step-IsConsistent st (Reach-IsConsistent r h)

abbrev pub no_files : Disk
no_files = record { lines = []; unfinished = none; snapshot = none }

pub put_task-IsConsistent : (t : Task) → IsConsistent (put_task no_files t (task_created t)) t
unfolding put_task append_event write_snapshot read_events parse_lines rebuild_task
    latest_event_revision
put_task-IsConsistent t = record { rebuilt = refl; latest = refl; snapshot = inl refl }

-- After a task is created, and after any reads, faithful updates, updates that die between the event
-- and the snapshot, appends that leave a torn line, lost newlines and lost snapshots, `getTask`
-- returns the task as the last event that reached the log left it.
pub get_task-latest :
    (t : Task) {d : Disk} {u : Task}
    → Reach (put_task no_files t (task_created t)) t d u
    → (get_task d).1 ≡ some u
get_task-latest t {d} {u} r =
    (get_task-Reads d u (Reach-IsConsistent r (put_task-IsConsistent t))).result

commit-conflict :
    (d : Disk) (o : Option Task) (u : Task) (rev : ℕ) (n : Mutation)
    → o ≡ some u
    → rev < u.revision
    → commit (d, o) (some rev) n ≡ (d, revision_conflict u.revision)
unfolding commit
commit-conflict d none u rev n e less = cc
commit-conflict d (some cur) u rev n e less =
    let same : cur ≡ u = cc in
    let differs : (u.revision == rev) ≡ false = ground arith in rw same (rw differs refl)

backfill-events : (d : Disk) (o : Option Task) → read_events (backfill d o).0 ≡ read_events d
unfolding backfill write_snapshot read_events
backfill-events d none = refl
backfill-events d (some t) = refl

get_from-events : (d : Disk) (o : Option Task) → read_events (get_from d o).0 ≡ read_events d
unfolding get_from
get_from-events d none = backfill-events d (rebuild_task (read_events d))
get_from-events d (some snap) =
    elim (Bool-cases (is_current snap (latest_event_revision none (read_events d)))) [
      | inl e ↦ rw e refl
      | inr e ↦ rw e (backfill-events d (rebuild_task (read_events d)))
    ]

-- reading a task leaves its events alone
get_task-events : (d : Disk) → read_events (get_task d).0 ≡ read_events d
unfolding get_task
get_task-events d = get_from-events d d.snapshot

-- Of two faithful updates that expect the same revision of a task, the second is refused with the
-- revision that the first has made, and the events stay those of the first.
pub update_task_cas-conflict :
    (d : Disk) (t : Task) (m n : Mutation)
    → IsConsistent d t
    → IsFaithful m t
    → let d' = (update_task_cas d (some t.revision) m).0 in
      let (d'', result) = update_task_cas d' (some t.revision) n in
      (result ≡ revision_conflict (next_revision t.revision)) × (read_events d'' ≡ read_events d')
update_task_cas-conflict d t m n h f =
    let d' = (update_task_cas d (some t.revision) m).0 in
    let r = get_task-Reads d' (next_task m t) (update-IsConsistent d t m h f) in
    let e =
      commit-conflict (get_task d').0 (get_task d').1 (next_task m t) t.revision n r.result
        (next_revision-grows t.revision) in
    unfold update_task_cas in
    (
      ap (λ (x : Disk × CasResult). x.1) e,
      ap (λ (x : Disk × CasResult). read_events x.0) e ∙ get_task-events d',
    )
