-- ===== src/Journal/Batch.antt =====
-- `restoreJournal` of malong/write-journal.js, with the undo of a whole batch: all its members are
-- looked at before any is restored. `later` is the order of the host's language on the times.
use liu_he.Base.{Bool, not, Option, none, some, List, [], ◌∷◌, ◌++◌, any, if◌then◌else◌}
use liu_he.Base.Text.{Text, ◌===◌, is_missing}
use mathlib.Core.List.{reverse}
use liu_he.Base.Sort.{sort_by}
use liu_he.Journal.{StateFile, StateRead, missing, unparseable, parsed, Manifest, Txn}
use liu_he.Journal.Undo.{
  UndoError, txn_not_found, journal_not_found, journal_unreadable, not_committed, path_blocked,
  file_locked, external_change, target_missing, UndoStatus, newly_undone, already_undone,
  undone_partial, Fault, UndoReply, refused, batch_blocked, answered, Workspace, is_safe_txn_id,
  find_txn, mark_undone, write_back, is_committed, is_undone, is_foreign, Host, undo_single,
}

-- a directory of the batch, with its state and its manifest
pub record Member : Type 0 where
  pub txn : Txn
  pub state : StateFile
  pub manifest : Manifest

-- what is to be done with a member
pub data Step : Type 0 where
  already : Step
  delete : Step
  restore : Text → Step

pub data Judgement : Type 0 where
  blocked : UndoError → Judgement
  planned : Step → Judgement

abbrev pub member_of : Text → Txn → StateRead → Option Manifest → List Member
member_of batch t (parsed s) (some m) =
    if s.batch_id === batch then record { txn = t; state = s; manifest = m } ∷ [] else []
member_of batch t (parsed s) none = []
member_of batch t missing m = []
member_of batch t unparseable m = []

abbrev pub members_in : Text → List Txn → List Member
members_in batch [] = []
members_in batch (t ∷ txns) = member_of batch t t.state t.manifest ++ members_in batch txns

-- what was done with the members so far
pub record Progress : Type 0 where
  pub world : Workspace
  pub done : List Text
  pub failures : List Fault

abbrev pub start_from : Workspace → Progress
start_from w = record { world = w; done = []; failures = [] }

module _ (later : Text → Text → Bool) where
  abbrev pub by_time : List Member → List Member
  by_time = sort_by (λ a b. later a.manifest.created_at b.manifest.created_at)

  -- `_batchMemberJournals`
  unfoldable pub batch_member_journals : Text → List Txn → List Member
  batch_member_journals batch txns = by_time (members_in batch txns)

  -- the members, with the transaction that the caller named
  abbrev pub with_self : Member → List Member → List Member
  with_self self members =
      if any (λ m. m.txn.txn_id === self.txn.txn_id) members
      then members
      else by_time (members ++ self ∷ [])

  -- all that an undo of this one is an undo of
  abbrev pub members_of : Member → Workspace → List Member
  members_of self w = with_self self (batch_member_journals self.state.batch_id w.txns)

module _ (hash : Text → Text) (host : Host) where
  abbrev pub judge_created : StateFile → Option Text → Judgement
  judge_created s none = planned already
  judge_created s (some content) =
      if is_foreign hash s content then blocked external_change else planned delete

  abbrev pub judge_edit : StateFile → Text → Option Text → Judgement
  judge_edit s backup none = blocked target_missing
  judge_edit s backup (some content) =
      if hash content === hash backup
      then planned already
      else if is_foreign hash s content
      then blocked external_change
      else planned (restore backup)

  abbrev pub judge_backup : StateFile → Option Text → Option Text → Judgement
  judge_backup s none content = blocked journal_not_found
  judge_backup s (some backup) content =
      if s.creates then judge_created s content else judge_edit s backup content

  unfoldable pub judge_member : Workspace → Member → Judgement
  judge_member w m =
      if is_undone m.state.state
      then planned already
      else if not (is_committed m.state.state)
      then blocked not_committed
      else if host.is_blocked m.manifest.file
      then blocked path_blocked
      else judge_backup m.state m.txn.backup (w.files m.manifest.file)

  abbrev pub fault_of : Member → UndoError → Fault
  fault_of m code = record { txn_id = m.txn.txn_id; file = m.manifest.file; code = code }

  abbrev pub add_verdict :
      Member → Judgement → List Fault × List (Member × Step) → List Fault × List (Member × Step)
  add_verdict m (blocked code) (faults, plan) = (fault_of m code ∷ faults, plan)
  add_verdict m (planned step) (faults, plan) = (faults, (m, step) ∷ plan)

  abbrev pub plan_of : Workspace → List Member → List Fault × List (Member × Step)
  plan_of w [] = ([], [])
  plan_of w (m ∷ members) = add_verdict m (judge_member w m) (plan_of w members)

  -- under the lock of the file
  abbrev pub with_lock : Member → Option Text → Progress → Progress
  with_lock m content p =
      if host.is_locked m.manifest.file
      then record p { failures = p.failures ++ fault_of m file_locked ∷ [] }
      else record p {
        world = mark_undone m.txn.txn_id (write_back m.manifest.file content p.world);
        done = p.done ++ m.manifest.file ∷ [];
      }

  abbrev pub take_step : Progress → Member × Step → Progress
  take_step p (m, already) = record p { world = mark_undone m.txn.txn_id p.world }
  take_step p (m, delete) = with_lock m none p
  take_step p (m, restore backup) = with_lock m (some backup) p

  abbrev pub take_steps : Progress → List (Member × Step) → Progress
  take_steps p [] = p
  take_steps p (x ∷ plan) = take_steps (take_step p x) plan

  abbrev pub batch_status : List Text → List Fault → UndoStatus
  batch_status done (f ∷ failures) = undone_partial
  batch_status (x ∷ done) [] = newly_undone
  batch_status [] [] = already_undone

  abbrev pub finish_batch : Progress → UndoReply × Workspace
  finish_batch p = (answered (batch_status p.done p.failures) p.done p.failures, p.world)

  abbrev pub run_plan : Workspace → List Fault × List (Member × Step) → UndoReply × Workspace
  run_plan w (f ∷ faults, plan) = (batch_blocked (f ∷ faults), w)
  run_plan w ([], plan) = finish_batch (take_steps (start_from w) (reverse plan))

  unfoldable pub restore_members : List Member → Workspace → UndoReply × Workspace
  restore_members members w = run_plan w (plan_of w members)

module _ (later : Text → Text → Bool) (hash : Text → Text) (host : Host) where
  unfoldable pub restore_batch_journals : Member → Workspace → UndoReply × Workspace
  restore_batch_journals self w = restore_members hash host (members_of later self w) w

  abbrev restore_read : Txn → StateRead → Option Manifest → Workspace → UndoReply × Workspace
  restore_read t (parsed s) (some m) w =
      if not (is_missing s.batch_id)
      then restore_batch_journals (record { txn = t; state = s; manifest = m }) w
      else undo_single hash host t s m w
  restore_read t (parsed s) none w = (refused journal_unreadable, w)
  restore_read t missing m w = (refused journal_unreadable, w)
  restore_read t unparseable m w = (refused journal_unreadable, w)

  abbrev restore_found : Option Txn → Workspace → UndoReply × Workspace
  restore_found none w = (refused journal_not_found, w)
  restore_found (some t) w = restore_read t t.state t.manifest w

  unfoldable pub restore_journal : Text → Workspace → UndoReply × Workspace
  restore_journal id w =
      if is_safe_txn_id id then restore_found (find_txn id w.txns) w else (refused txn_not_found, w)
