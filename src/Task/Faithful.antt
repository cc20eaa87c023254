-- ===== src/Task/Faithful.antt =====
-- Which handlers of malong/tools write an event that says all that they change.
use liu_he.Base.{
  ◌+◌, ◌≡◌, ◌≢◌, refl, sym, ap, ◌∙◌, suc, inl, inr, Bool-cases, ◌||◌, some, List, [], ◌∷◌, length,
  All, arith,
}
use liu_he.Base.Text.{Text, codes, is_missing, missing-cases}
use liu_he.Task.{Task, Operation, stamp_of, replay_event, or_keep, upsert_operation}
use liu_he.Task.Disk.{Mutation, next_task, next_event, next_revision}
use liu_he.Task.Mutation.{
  read_mutation, operation_mutation, reopen_mutation, switch_route_mutation, WrittenHash, add_base,
  add_bases, add_write_bases_to_task, write_mutation,
}

-- Replaying the event gives the task that the snapshot gets, and the event has the new revision.
pub record IsFaithful (m : Mutation) (t : Task) : Type 0 where
  pub replayed : replay_event t (next_event m t) ≡ next_task m t
  pub stamped : stamp_of (next_event m t) ≡ some (next_revision t.revision)

read-IsFaithful : (material : Text) (t : Task) → IsFaithful (read_mutation material) t
unfolding read_mutation replay_event
read-IsFaithful material t = record { replayed = refl; stamped = refl }

operation-IsFaithful :
    (op : Operation) (node result_kind : Text) (t : Task)
    → IsFaithful (operation_mutation op node result_kind) t
unfolding operation_mutation replay_event
operation-IsFaithful op node result_kind t = record { replayed = refl; stamped = refl }

or_keep-restored :
    (from node : Text) → or_keep (or_keep from (codes "read")) node ≡ or_keep from (codes "read")
or_keep-restored [] node = refl
or_keep-restored (c ∷ from) node = refl

reopen-IsFaithful : (t : Task) → IsFaithful reopen_mutation t
unfolding reopen_mutation replay_event
reopen-IsFaithful t = record {
  replayed =
      ap
        (λ (node : Text). record t {
          lifecycle = codes "active";
          revision = next_revision t.revision;
          node = node;
        })
        (or_keep-restored t.cancelled_from_node t.node);
  stamped = refl;
}

switch_route-IsFaithful :
    (route goal : Text) (t : Task) → route ≢ [] → IsFaithful (switch_route_mutation route goal) t
unfolding switch_route_mutation replay_event
switch_route-IsFaithful [] goal t h = absurd (h refl)
switch_route-IsFaithful (c ∷ route) goal t h = record { replayed = refl; stamped = refl }

-- the fields that adding bases leaves alone
abbrev with_bases : Task → Task → Task
with_bases t t' = record t { write_bases = t'.write_bases; write_base_seq = t'.write_base_seq }

add_base-elsewhere : (id : Text) (t : Task) (f : WrittenHash) → with_bases (add_base id t f) t ≡ t
add_base-elsewhere id t f = elim (Bool-cases (is_missing f.file || is_missing f.hash)) [
  | inl e ↦ rw e refl
  | inr e ↦ rw e refl
]

add_bases-elsewhere :
    (id : Text) (t : Task) (files : List WrittenHash) → with_bases (add_bases id t files) t ≡ t
add_bases-elsewhere id t [] = refl
add_bases-elsewhere id t (f ∷ files) =
    ap (λ (x : Task). with_bases x t) (add_bases-elsewhere id (add_base id t f) files)
    ∙ add_base-elsewhere id t f

added-elsewhere :
    (id : Text) (t : Task) (files : List WrittenHash)
    → with_bases (add_write_bases_to_task t files id) t ≡ t
unfolding add_write_bases_to_task
added-elsewhere id t [] = refl
added-elsewhere id t (f ∷ files) = add_bases-elsewhere id t (f ∷ files)

-- the file and the hash are given
abbrev pub IsNamed : WrittenHash → Type 0
IsNamed f = (f.file ≢ []) × (f.hash ≢ [])

add_base-seq :
    (id : Text) (t : Task) (f : WrittenHash)
    → IsNamed f
    → (add_base id t f).write_base_seq ≡ suc t.write_base_seq
add_base-seq id t f h = elim (missing-cases f.file) [
  | inl (m, e) ↦ absurd (h.0 e)
  | inr (m, e) ↦ elim (missing-cases f.hash) [
    | inl (n, k) ↦ absurd (h.1 k)
    | inr (n, k) ↦ rw (m, n) refl
  ]
]

add_bases-seq :
    (id : Text) (t : Task) (files : List WrittenHash)
    → All IsNamed files
    → (add_bases id t files).write_base_seq ≡ t.write_base_seq + length files
add_bases-seq id t [] h = omega arith
add_bases-seq id t (f ∷ files) h =
    omega (arith, add_bases-seq id (add_base id t f) files h.1, add_base-seq id t f h.0)

added-seq :
    (id : Text) (t : Task) (files : List WrittenHash)
    → All IsNamed files
    → (add_write_bases_to_task t files id).write_base_seq ≡ t.write_base_seq + length files
unfolding add_write_bases_to_task
added-seq id t [] h = omega arith
added-seq id t (f ∷ files) h = add_bases-seq id t (f ∷ files) h

-- Replaying the event gives the task of the snapshot less the bases of the write, of which the snapshot
-- has counted one for each file.
pub record IsForgotten (op : Operation) (files : List WrittenHash) (t : Task) : Type 0 where
  pub replayed :
      replay_event t (next_event (write_mutation op files) t)
      ≡ record (next_task (write_mutation op files) t) {
        write_bases = t.write_bases;
        write_base_seq = t.write_base_seq;
      }
  pub counted :
      (next_task (write_mutation op files) t).write_base_seq ≡ t.write_base_seq + length files
  pub stamped : stamp_of (next_event (write_mutation op files) t) ≡ some (next_revision t.revision)

write-IsForgotten :
    (op : Operation) (files : List WrittenHash) (t : Task)
    → All IsNamed files
    → IsForgotten op files t
unfolding write_mutation replay_event
write-IsForgotten op files t h =
    let edited : Task = record t {
      operations = upsert_operation t.operations op;
      node = codes "edit";
      result_kind = codes "partial";
    } in
    record {
      replayed =
          ap (λ (t' : Task). record t' { revision = next_revision t.revision })
            (sym (added-elsewhere op.operation_id edited files));
      counted = added-seq op.operation_id edited files h;
      stamped = refl;
    }

-- A read, an operation's state alone, a reopening and a switch to a named route write events whose replay
-- gives exactly the task that the snapshot gets, at the new revision. The commit of files that were
-- written, each with a name and a hash, does not: its replay gives the task less the write bases, one for
-- each file, that only the snapshot counts.
pub handlers-IsFaithful :
    (material : Text) (op : Operation) (node result_kind route goal : Text)
    (files : List WrittenHash) (t : Task)
    → route ≢ []
    → All IsNamed files
    → IsFaithful (read_mutation material) t
      × IsFaithful (operation_mutation op node result_kind) t
      × IsFaithful reopen_mutation t
      × IsFaithful (switch_route_mutation route goal) t
      × IsForgotten op files t
handlers-IsFaithful material op node result_kind route goal files t h named = (
  read-IsFaithful material t,
  operation-IsFaithful op node result_kind t,
  reopen-IsFaithful t,
  switch_route-IsFaithful route goal t h,
  write-IsForgotten op files t named,
)
