-- ===== src/Tests/Tasks.antt =====
-- The theorems on tasks, at a task that is read, cancelled and validated.
use liu_he.Base.{◌≡◌, ◌≢◌, refl, none, some, List, [], ◌∷◌}
use liu_he.Base.Text.{codes, ===_apart}
use liu_he.Task.{Task, Operation, indeterminate, task_created, rebuild_task}
use liu_he.Task.Disk.{
  Disk, get_task, put_task, read_events, update_task_cas, revision_conflict, next_task, next_event,
  next_revision, append_event, get_from, backfill, parse_lines, write_snapshot,
}
use liu_he.Task.Mutation.{
  read_mutation, operation_mutation, reopen_mutation, switch_route_mutation, cancel_mutation,
  check_mutation, or_one, WrittenHash,
}
use liu_he.Task.Listing.{list_tasks, IsWhole}
use liu_he.Task.Faithful.{IsFaithful, IsForgotten, handlers-IsFaithful}
use liu_he.Task.Recovery.{
  here, next, update_crash, snapshot_lost, no_files, get_task-latest, update_task_cas-conflict,
  put_task-IsConsistent,
}
use liu_he.Task.Cancel.{after_crash, reopen-after_crash, check-after_crash}

abbrev patch_op : Operation
patch_op = record { operation_id = codes "op1"; state = indeterminate; detail = [] }

abbrev task : Task
task = record {
  revision = 1;
  node = codes "edit";
  route = codes "fix";
  goal = codes "g";
  goal_revision = 1;
  validated_goal_revision = none;
  lifecycle = codes "active";
  cancelled_from_node = [];
  cancel_reason = [];
  result_kind = [];
  materials = [];
  operations = patch_op ∷ [];
  evidence = [];
  write_bases = [];
  write_base_seq = 0;
}

abbrev written_files : List WrittenHash
written_files = record { file = codes "a.js"; hash = codes "h" } ∷ []

abbrev stored : Disk
stored = put_task no_files task (task_created task)

faithful :
    IsFaithful (read_mutation (codes "m")) task
    × IsFaithful (operation_mutation patch_op [] []) task
    × IsFaithful reopen_mutation task
    × IsFaithful (switch_route_mutation (codes "fix") (codes "g")) task
    × IsForgotten patch_op written_files task
faithful =
    handlers-IsFaithful (codes "m") patch_op [] [] (codes "fix") (codes "g") written_files task
      (λ e. cc) (((λ e. cc), (λ e. cc)), tt)

handlers-IsFaithful_example :
    IsFaithful (read_mutation (codes "m")) task
    × IsFaithful (operation_mutation patch_op [] []) task
    × IsFaithful reopen_mutation task
    × IsFaithful (switch_route_mutation (codes "fix") (codes "g")) task
    × IsForgotten patch_op written_files task
handlers-IsFaithful_example =
    handlers-IsFaithful (codes "m") patch_op [] [] (codes "fix") (codes "g") written_files task
      (λ e. cc) (((λ e. cc), (λ e. cc)), tt)

-- the snapshot is lost after a crash in a read
get_task-latest_example :
    (get_task
      (record (append_event (get_task stored).0 (next_event (read_mutation (codes "m")) task)) {
        snapshot = none;
      })).1
    ≡ some (next_task (read_mutation (codes "m")) task)
get_task-latest_example = get_task-latest task (
    next (next here (update_crash stored task (read_mutation (codes "m")) faithful.0))
      (snapshot_lost _ _))

update_task_cas-conflict_example :
    let d' = (update_task_cas stored (some 1) (read_mutation (codes "m"))).0 in
    let (d'', result) = update_task_cas d' (some 1) reopen_mutation in
    (result ≡ revision_conflict (next_revision 1)) × (read_events d'' ≡ read_events d')
update_task_cas-conflict_example =
    update_task_cas-conflict stored task (read_mutation (codes "m")) reopen_mutation
      (put_task-IsConsistent task) faithful.0

reopen-after_crash_example :
    ((next_task reopen_mutation (next_task (cancel_mutation [] (codes "op1" ∷ [])) task)).node
      ≡ codes "edit")
    × ((u : Task) × (after_crash stored task (cancel_mutation [] (codes "op1" ∷ [])) ≡ some u)
        × (u.lifecycle ≡ codes "cancelled")
        × (u.operations ≡ patch_op ∷ [])
        × ((next_task reopen_mutation u).node ≡ codes "read")
        × ((next_task reopen_mutation u).node ≢ codes "edit"))
reopen-after_crash_example =
    reopen-after_crash stored task [] (codes "op1" ∷ []) (put_task-IsConsistent task) refl
      (===_apart (codes "edit") [] refl) (===_apart (codes "edit") (codes "read") refl)

check-after_crash_example :
    ((next_task (check_mutation [] patch_op (codes "validated")) task).validated_goal_revision
      ≡ some (or_one 1))
    × ((u : Task) × (after_crash stored task (check_mutation [] patch_op (codes "validated"))
          ≡ some u)
        × (u.result_kind ≡ codes "validated")
        × (u.validated_goal_revision ≡ none))
check-after_crash_example = check-after_crash stored task [] patch_op (put_task-IsConsistent task)

abbrev lost_snapshot : Disk
lost_snapshot = record stored { snapshot = none }

-- a task whose snapshot is lost is not listed, though it can be read
lost_is_not_listed : list_tasks (lost_snapshot ∷ []) ≡ []
unfolding list_tasks
lost_is_not_listed = refl

lost_is_read : (get_task lost_snapshot).1 ≡ some task
unfolding get_task get_from backfill read_events parse_lines rebuild_task append_event put_task
    write_snapshot
lost_is_read = refl

stored-IsWhole : IsWhole stored
unfolding put_task write_snapshot append_event read_events parse_lines rebuild_task
stored-IsWhole = ((task, refl), λ e. cc)
