-- ===== src/Task/Cancel.antt =====
-- What the events of a cancelled and of a validated task leave out: the snapshot has more than a
-- replay, so a crash between the two loses it.
use liu_he.Base.{◌≡◌, ◌≢◌, refl, ap, ◌∙◌, sym, Option, some, List, [], ◌∷◌}
use liu_he.Base.Text.{Text, codes}
use liu_he.Task.{Task, Operation, Evidence, replay_event, or_keep}
use liu_he.Task.Disk.{Disk, Mutation, next_task, next_event, append_event, get_task}
use liu_he.Task.Recovery.{IsConsistent, crash-Reads, next_revision-grows}
use liu_he.Task.Mutation.{cancel_mutation, check_mutation, reopen_mutation, restored_node, or_one}

or_keep-left : (s old : Text) → s ≢ [] → or_keep s old ≡ s
or_keep-left [] old h = absurd (h refl)
or_keep-left (c ∷ s) old h = refl

-- the task that is read after the process died between the event of `m` and its snapshot
abbrev pub after_crash : Disk → Task → Mutation → Option Task
after_crash d t m = (get_task (append_event (get_task d).0 (next_event m t))).1

-- A task whose first cancellation starts from a node other than `read` goes back to that node when it
-- is reopened. If the process dies between the event and the snapshot of the cancellation, the task
-- that is read afterwards is cancelled too, but its operations have kept their states, and it goes to
-- `read` when it is reopened.
pub reopen-after_crash :
    (d : Disk) (t : Task) (reason : Text) (ids : List Text)
    → IsConsistent d t
    → t.cancelled_from_node ≡ []
    → t.node ≢ []
    → t.node ≢ codes "read"
    → ((next_task reopen_mutation (next_task (cancel_mutation reason ids) t)).node ≡ t.node)
      × ((u : Task) × (after_crash d t (cancel_mutation reason ids) ≡ some u)
          × (u.lifecycle ≡ codes "cancelled")
          × (u.operations ≡ t.operations)
          × ((next_task reopen_mutation u).node ≡ codes "read")
          × ((next_task reopen_mutation u).node ≢ t.node))
unfolding cancel_mutation reopen_mutation replay_event
reopen-after_crash d t reason ids h first named elsewhere =
    let read : restored_node t ≡ codes "read" = ap (λ (s : Text). or_keep s (codes "read")) first in
    (
      ap (λ (s : Text). or_keep s (codes "read")) (or_keep-left t.node t.cancelled_from_node named)
          ∙ or_keep-left t.node (codes "read") named,
      (
        replay_event t (next_event (cancel_mutation reason ids) t),
        crash-Reads d t (cancel_mutation reason ids) h refl (next_revision-grows t.revision),
        refl,
        refl,
        read,
        λ e. elsewhere (sym e ∙ read),
      ),
    )

-- A check that validates a task records the goal revision in the snapshot only: if the process dies
-- before the snapshot, the task that is read afterwards is validated, with the goal revision that was
-- recorded before.
pub check-after_crash :
    (d : Disk) (t : Task) (evidence : List Evidence) (op : Operation)
    → IsConsistent d t
    → ((next_task (check_mutation evidence op (codes "validated")) t).validated_goal_revision
        ≡ some (or_one t.goal_revision))
      × ((u : Task) × (after_crash d t (check_mutation evidence op (codes "validated")) ≡ some u)
          × (u.result_kind ≡ codes "validated")
          × (u.validated_goal_revision ≡ t.validated_goal_revision))
unfolding check_mutation replay_event
check-after_crash d t evidence op h = (
  refl,
  (
    replay_event t (next_event (check_mutation evidence op (codes "validated")) t),
    crash-Reads d t (check_mutation evidence op (codes "validated")) h refl
        (next_revision-grows t.revision),
    refl,
    refl,
  ),
)
