-- ===== src/Task/Listing.antt =====
-- `listTasks` of malong/tools/entry-store.js: the tasks of the snapshots that can be read.
use liu_he.Base.{
  ◌≡◌, ◌≢◌, refl, ap, ◌∙◌, Bool-cases, inl, inr, Option, none, some, Option-cases, List, [], ◌∷◌,
  All, map, if◌then◌else◌,
}
use liu_he.Task.{Task, rebuild_task, latest_event_revision}
use liu_he.Task.Disk.{Disk, read_events, is_current, get_task, get_from, backfill}

-- `rebuildTask(...) || t`
abbrev pub rebuilt_or : Task → Option Task → Task
rebuilt_or t none = t
rebuilt_or t (some rebuilt) = rebuilt

abbrev pub listed_task : Disk → Task → Task
listed_task d t =
    if is_current t (latest_event_revision none (read_events d))
    then t
    else rebuilt_or t (rebuild_task (read_events d))

abbrev pub add_listed : Disk → Option Task → List Task → List Task
add_listed d none tasks = tasks
add_listed d (some t) tasks = listed_task d t ∷ tasks

unfoldable pub list_tasks : List Disk → List Task
list_tasks [] = []
list_tasks (d ∷ disks) = add_listed d d.snapshot (list_tasks disks)

-- the snapshot can be read, and the log says how the task began
abbrev pub IsWhole : Disk → Type 0
IsWhole d = ((t : Task) × (d.snapshot ≡ some t)) × (rebuild_task (read_events d) ≢ none)

listed-get_from :
    (d : Disk) (t : Task)
    → rebuild_task (read_events d) ≢ none
    → some (listed_task d t) ≡ (get_from d (some t)).1
unfolding get_from backfill
listed-get_from d t whole =
    elim (Bool-cases (is_current t (latest_event_revision none (read_events d)))) [
      | inl e ↦ rw e refl
      | inr e ↦ elim (Option-cases (rebuild_task (read_events d))) [
        | inl n ↦ absurd (whole n)
        | inr (r, s) ↦ rw (e, s) refl
      ]
    ]

add_listed-IsWhole :
    (d : Disk) (snapshot : Option Task) (tasks : List Task)
    → ((t : Task) × (snapshot ≡ some t)) × (rebuild_task (read_events d) ≢ none)
    → map (λ (t : Task). some t) (add_listed d snapshot tasks)
      ≡ (get_from d snapshot).1 ∷ map (λ (t : Task). some t) tasks
add_listed-IsWhole d none tasks ((t, e), whole) = cc
add_listed-IsWhole d (some t) tasks (_, whole) =
    ap (λ (o : Option Task). o ∷ map (λ (t : Task). some t) tasks) (listed-get_from d t whole)

-- If each snapshot can be read and each log says how its task began, the tasks are listed in their order
-- as getTask reads them.
pub list_tasks-get_task :
    (disks : List Disk)
    → All IsWhole disks
    → map (λ (t : Task). some t) (list_tasks disks) ≡ map (λ (d : Disk). (get_task d).1) disks
unfolding list_tasks get_task
list_tasks-get_task [] whole = refl
list_tasks-get_task (d ∷ disks) whole =
    add_listed-IsWhole d d.snapshot (list_tasks disks) whole.0
    ∙ ap (λ (l : List (Option Task)). (get_from d d.snapshot).1 ∷ l)
        (list_tasks-get_task disks whole.1)
