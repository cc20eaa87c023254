-- ===== src/Task.antt =====
-- malong/tools/entry-store.js: tasks as a log of events with a snapshot, and the handlers' mutations.
-- Fields that no operation reads are one `detail`. An absent string is the empty one, as both are
-- falsy; an absent revision is `none`.
pub mod Disk
pub mod Listing
pub mod Mutation
pub mod Faithful
pub mod Recovery
pub mod Cancel
use liu_he.Base.{
  ℕ, zero, suc, ◌+◌, max, Bool, true, false, Option, none, some, List, [], ◌∷◌, ◌++◌, if◌then◌else◌,
}
use liu_he.Base.Text.{Text, ◌===◌}

pub data OperationState : Type 0 where
  prepared running succeeded failed indeterminate abandoned : OperationState

pub record Operation : Type 0 where
  pub operation_id : Text
  pub state : OperationState
  pub detail : Text

pub record Evidence : Type 0 where
  pub evidence_id : Text
  pub detail : Text

-- an entry of `write_bases`, of the name `wbase_` and its number; its size and times are left out
pub record WriteBase : Type 0 where
  pub seq : ℕ
  pub file : Text
  pub hash : Text
  pub operation_id : Text

pub record Task : Type 0 where
  pub revision : ℕ
  pub node : Text
  pub route : Text
  pub goal : Text
  pub goal_revision : ℕ
  pub validated_goal_revision : Option ℕ
  pub lifecycle : Text
  pub cancelled_from_node : Text
  pub cancel_reason : Text
  pub result_kind : Text
  pub materials : List Text
  pub operations : List Operation
  pub evidence : List Evidence
  pub write_bases : List WriteBase
  pub write_base_seq : ℕ

-- the fields that `applyRevisionFields` reads from an event
pub record Stamp : Type 0 where
  pub revision : Option ℕ
  pub node : Text
  pub result_kind : Text

pub data Event : Type 0 where
  task_created : Task → Event
  material_added : Text → Stamp → Event
  operation_event : Operation → Stamp → Event
  evidence_event : List Evidence → Option Operation → Stamp → Event
  node_changed : Text → Stamp → Event
  route_changed : Text → Option Text → Option ℕ → Stamp → Event
  lifecycle_event : Text → Stamp → Event
  other_event : Stamp → Event

abbrev pub get_or {ℓ} : {A : Type ℓ} → Option A → A → A
get_or none d = d
get_or (some a) d = a

-- `if (s) t.field = s`
abbrev pub or_keep : Text → Text → Text
or_keep [] old = old
or_keep (c ∷ s) old = c ∷ s

-- `upsertById`
unfoldable pub upsert_operation : List Operation → Operation → List Operation
upsert_operation [] item = item ∷ []
upsert_operation (x ∷ list) item =
    let rest = upsert_operation list item in
    if x.operation_id === item.operation_id then item ∷ list else x ∷ rest

unfoldable pub upsert_evidence : List Evidence → Evidence → List Evidence
upsert_evidence [] item = item ∷ []
upsert_evidence (x ∷ list) item =
    let rest = upsert_evidence list item in
    if x.evidence_id === item.evidence_id then item ∷ list else x ∷ rest

unfoldable pub upsert_all : List Evidence → List Evidence → List Evidence
upsert_all list [] = list
upsert_all list (e ∷ items) = upsert_all (upsert_evidence list e) items

abbrev pub upsert_some : List Operation → Option Operation → List Operation
upsert_some list none = list
upsert_some list (some item) = upsert_operation list item

unfoldable pub apply_revision_fields : Task → Stamp → Task
apply_revision_fields t ev = record t {
  revision = get_or ev.revision t.revision;
  node = or_keep ev.node t.node;
  result_kind = or_keep ev.result_kind t.result_kind;
}

-- one round of the loop in `rebuildTask`, once a task has been created
unfoldable pub replay_event : Task → Event → Task
unfolding apply_revision_fields upsert_all
replay_event t (task_created task) = task
replay_event t (material_added material ev) = record t {
  materials = t.materials ++ material ∷ [];
  revision = get_or ev.revision t.revision;
  node = or_keep ev.node t.node;
}
replay_event t (operation_event op ev) =
    apply_revision_fields (record t { operations = upsert_operation t.operations op }) ev
replay_event t (evidence_event evidences op ev) =
    apply_revision_fields
      (record t {
        evidence = upsert_all t.evidence evidences;
        operations = upsert_some t.operations op;
      })
      ev
replay_event t (node_changed node ev) = record t {
  node = node;
  revision = get_or ev.revision t.revision;
}
replay_event t (route_changed route goal goal_revision ev) =
    apply_revision_fields
      (record t {
        route = or_keep route t.route;
        goal = get_or goal t.goal;
        goal_revision = get_or goal_revision t.goal_revision;
      })
      ev
replay_event t (lifecycle_event lifecycle ev) =
    apply_revision_fields (record t { lifecycle = lifecycle }) ev
replay_event t (other_event ev) = t

abbrev created : Event → Option Task
created (task_created task) = some task
created _ = none

unfoldable pub replay_step : Option Task → Event → Option Task
replay_step none ev = created ev
replay_step (some t) ev = some (replay_event t ev)

-- `rebuildTask` on the events that could be parsed
unfoldable pub replay : Option Task → List Event → Option Task
unfolding replay_step
replay t [] = t
replay t (ev ∷ events) = replay (replay_step t ev) events

unfoldable pub rebuild_task : List Event → Option Task
unfolding replay
rebuild_task events = replay none events

abbrev pub stamp_of : Event → Option ℕ
stamp_of (task_created task) = some task.revision
stamp_of (material_added _ ev) = ev.revision
stamp_of (operation_event _ ev) = ev.revision
stamp_of (evidence_event _ _ ev) = ev.revision
stamp_of (node_changed _ ev) = ev.revision
stamp_of (route_changed _ _ _ ev) = ev.revision
stamp_of (lifecycle_event _ ev) = ev.revision
stamp_of (other_event ev) = ev.revision

abbrev pub max_option : Option ℕ → Option ℕ → Option ℕ
max_option none r = r
max_option (some a) none = some a
max_option (some a) (some b) = some (max a b)

unfoldable pub latest_event_revision : Option ℕ → List Event → Option ℕ
latest_event_revision rev [] = rev
latest_event_revision rev (ev ∷ events) =
    latest_event_revision (max_option rev (stamp_of ev)) events
