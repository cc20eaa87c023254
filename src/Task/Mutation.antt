-- ===== src/Task/Mutation.antt =====
-- The mutations that the handlers pass to `updateTaskCas`: `operationEvent` of
-- malong/tools/entry-shared.js, and those of the code_read, code_patch, code_batch, code_check and
-- code_control handlers.
use liu_he.Base.{
  ℕ, zero, suc, ◌-◌, ◌||◌, some, List, [], ◌∷◌, ◌++◌, map, any, drop, length, if◌then◌else◌,
}
use liu_he.Base.Text.{Text, ◌===◌, codes, is_missing}
use liu_he.Task.{
  Task, Operation, abandoned, Evidence, material_added, operation_event, evidence_event,
  route_changed, lifecycle_event, or_keep, upsert_operation,
}
use liu_he.Task.Disk.{Mutation}

-- code_read: one more material
unfoldable pub read_mutation : Text → Mutation
read_mutation material = record {
  change = λ t. record t { materials = t.materials ++ material ∷ []; node = codes "read" };
  describe = λ t rev.
      material_added material
        (record { revision = some rev; node = codes "read"; result_kind = [] });
}

-- `operationEvent`
unfoldable pub operation_mutation : Operation → Text → Text → Mutation
operation_mutation op node result_kind = record {
  change = λ t. record t {
    operations = upsert_operation t.operations op;
    node = or_keep node t.node;
    result_kind = or_keep result_kind t.result_kind;
  };
  describe = λ t rev.
      operation_event op (record { revision = some rev; node = node; result_kind = result_kind });
}

-- a file that was written, with its new hash
pub record WrittenHash : Type 0 where
  pub file : Text
  pub hash : Text

-- one round of the loop in `addWriteBasesToTask`
abbrev pub add_base : Text → Task → WrittenHash → Task
add_base operation_id t f = if is_missing f.file || is_missing f.hash then t else record t {
  write_base_seq = suc t.write_base_seq;
  write_bases =
      t.write_bases
      ++ record {
        seq = suc t.write_base_seq;
        file = f.file;
        hash = f.hash;
        operation_id = operation_id;
      }
        ∷ [];
}

abbrev pub add_bases : Text → Task → List WrittenHash → Task
add_bases operation_id t [] = t
add_bases operation_id t (f ∷ files) = add_bases operation_id (add_base operation_id t f) files

-- MAX_WRITE_BASES
abbrev pub max_write_bases : ℕ
max_write_bases = 50

-- `slice(-MAX_WRITE_BASES)` where there are more
abbrev pub keep_bases : Task → Task
keep_bases t = record t {
  write_bases = drop (length t.write_bases - max_write_bases) t.write_bases;
}

unfoldable pub add_write_bases_to_task : Task → List WrittenHash → Text → Task
add_write_bases_to_task t [] operation_id = t
add_write_bases_to_task t (f ∷ files) operation_id =
    keep_bases (add_bases operation_id t (f ∷ files))

-- the commit of code_patch and code_batch once the files are written
unfoldable pub write_mutation : Operation → List WrittenHash → Mutation
write_mutation op files = record {
  change = λ t.
      add_write_bases_to_task
        (record t {
          operations = upsert_operation t.operations op;
          node = codes "edit";
          result_kind = codes "partial";
        })
        files op.operation_id;
  describe = λ t rev.
      operation_event op
        (record { revision = some rev; node = codes "edit"; result_kind = codes "partial" });
}

-- `t.goal_revision || 1`
abbrev pub or_one : ℕ → ℕ
or_one zero = 1
or_one (suc n) = suc n

-- the commit of code_check
unfoldable pub check_mutation : List Evidence → Operation → Text → Mutation
check_mutation evidence op result_kind = record {
  change = λ t. record t {
    operations = upsert_operation t.operations op;
    evidence = t.evidence ++ evidence;
    node = codes "check";
    result_kind = result_kind;
    validated_goal_revision =
        if result_kind === codes "validated"
        then some (or_one t.goal_revision)
        else t.validated_goal_revision;
  };
  describe = λ t rev.
      evidence_event evidence (some op)
        (record { revision = some rev; node = codes "check"; result_kind = result_kind });
}

unfoldable pub abandon : List Text → Operation → Operation
abandon ids o = if any (λ id. id === o.operation_id) ids then record o { state = abandoned } else o

-- `doCancel` of code_control
unfoldable pub cancel_mutation : Text → List Text → Mutation
unfolding abandon
cancel_mutation reason abandoned_ids = record {
  change = λ t. record t {
    lifecycle = codes "cancelled";
    cancelled_from_node = or_keep t.node t.cancelled_from_node;
    node = codes "cancelled";
    cancel_reason = or_keep reason t.cancel_reason;
    operations = map (abandon abandoned_ids) t.operations;
  };
  describe = λ t rev.
      lifecycle_event (codes "cancelled")
        (record { revision = some rev; node = codes "cancelled"; result_kind = [] });
}

-- `task.cancelled_from_node || 'read'`
abbrev pub restored_node : Task → Text
restored_node t = or_keep t.cancelled_from_node (codes "read")

-- `doReopen` of code_control
unfoldable pub reopen_mutation : Mutation
reopen_mutation = record {
  change = λ t. record t { lifecycle = codes "active"; node = restored_node t };
  describe = λ t rev.
      lifecycle_event (codes "active")
        (record { revision = some rev; node = restored_node t; result_kind = [] });
}

-- `doSwitchRoute` of code_control, once the route has been found valid
unfoldable pub switch_route_mutation : Text → Text → Mutation
switch_route_mutation route goal = record {
  change =
      λ t. record t { route = route; goal = goal; goal_revision = suc (or_one t.goal_revision) };
  describe = λ t rev.
      route_changed route (some goal) (some (suc (or_one t.goal_revision)))
        (record { revision = some rev; node = []; result_kind = [] });
}
