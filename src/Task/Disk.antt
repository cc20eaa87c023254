-- ===== src/Task/Disk.antt =====
-- The files of one task in malong/tools/entry-store.js: the event log, whose last line may lack its
-- newline, and the snapshot, which is replaced atomically. A lost or damaged snapshot is `none`.
use liu_he.Base.{
  ℕ, zero, suc, Bool, true, false, Option, none, some, List, [], ◌∷◌, ◌++◌, leb, ◌==◌,
  if◌then◌else◌,
}
use liu_he.Task.{Task, Event, rebuild_task, latest_event_revision}

-- a line of the log: an event, or what cannot be parsed
pub data Line : Type 0 where
  event : Event → Line
  torn : Line

pub record Disk : Type 0 where
  pub lines : List Line
  pub unfinished : Option Line
  pub snapshot : Option Task

abbrev pub finished : Disk → List Line
finished d = elim d.unfinished [ none ↦ d.lines | some l ↦ d.lines ++ l ∷ [] ]

-- `appendEventFile`: a newline first, if the last line lacks one
unfoldable pub append_event : Disk → Event → Disk
append_event d ev = record d { lines = finished d ++ event ev ∷ []; unfinished = none }

unfoldable pub parse_lines : List Line → List Event
parse_lines [] = []
parse_lines (event ev ∷ lines) = ev ∷ parse_lines lines
parse_lines (torn ∷ lines) = parse_lines lines

unfoldable pub read_events : Disk → List Event
read_events d = parse_lines (finished d)

unfoldable pub write_snapshot : Disk → Task → Disk
write_snapshot d t = record d { snapshot = some t }

-- is the snapshot at least as new as the events?
abbrev pub is_current : Task → Option ℕ → Bool
is_current snap none = true
is_current snap (some rev) = leb rev snap.revision

unfoldable pub backfill : Disk → Option Task → Disk × Option Task
backfill d none = (d, none)
backfill d (some t) = (write_snapshot d t, some t)

unfoldable pub get_from : Disk → Option Task → Disk × Option Task
get_from d none = backfill d (rebuild_task (read_events d))
get_from d (some snap) =
    if is_current snap (latest_event_revision none (read_events d))
    then (d, some snap)
    else backfill d (rebuild_task (read_events d))

unfoldable pub get_task : Disk → Disk × Option Task
get_task d = get_from d d.snapshot

-- `putTask`, but for the index of request ids
unfoldable pub put_task : Disk → Task → Event → Disk
put_task d task ev = write_snapshot (append_event d ev) task

pub data CasResult : Type 0 where
  committed : Task → CasResult
  task_not_found : CasResult
  revision_conflict : ℕ → CasResult

abbrev pub expected_differs : Option ℕ → Task → Bool
expected_differs none cur = false
expected_differs (some rev) cur = if cur.revision == rev then false else true

-- `(cur.revision || 1) + 1`
abbrev pub next_revision : ℕ → ℕ
next_revision zero = 2
next_revision (suc n) = suc (suc n)

-- What a handler passes to `updateTaskCas`: the mutated copy, and the event with the new revision.
pub record Mutation : Type 0 where
  pub change : Task → Task
  pub describe : Task → ℕ → Event

abbrev pub next_task : Mutation → Task → Task
next_task m cur = record (m.change cur) { revision = next_revision cur.revision }

abbrev pub next_event : Mutation → Task → Event
next_event m cur = m.describe cur (next_revision cur.revision)

unfoldable pub commit : Disk × Option Task → Option ℕ → Mutation → Disk × CasResult
commit (d, none) expected m = (d, task_not_found)
commit (d, some cur) expected m =
    if expected_differs expected cur then (d, revision_conflict cur.revision) else (
      write_snapshot (append_event d (next_event m cur)) (next_task m cur),
      committed (next_task m cur),
    )

unfoldable pub update_task_cas : Disk → Option ℕ → Mutation → Disk × CasResult
update_task_cas d expected m = commit (get_task d) expected m
