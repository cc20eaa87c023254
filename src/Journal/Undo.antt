-- ===== src/Journal/Undo.antt =====
-- `restoreJournal` of malong/write-journal.js for a write that belongs to no batch: the undo that a
-- caller asks for. What the paths and the locks of the host answer are parameters.
use liu_he.Base.{
  ℕ, Bool, true, false, not, ◌&&◌, ◌==◌, Option, none, some, List, [], ◌∷◌, any, length, leb, ltb,
  if◌then◌else◌,
}
use liu_he.Base.Text.{Text, ◌===◌, is_missing, starts_with, backslash}
use liu_he.Journal.{
  TxnState, committed, undone, committed_recovered, StateFile, Manifest, Txn, Files, put_file,
  update_journal_state,
}

pub data UndoError : Type 0 where
  txn_not_found journal_not_found journal_unreadable not_committed path_blocked : UndoError
  backup_escape file_locked external_change target_missing : UndoError

pub data UndoStatus : Type 0 where
  newly_undone already_undone already_restored undone_partial : UndoStatus

-- a file of a batch that stands in the way, or that could not be restored
pub record Fault : Type 0 where
  pub txn_id : Text
  pub file : Text
  pub code : UndoError

pub data UndoReply : Type 0 where
  refused : UndoError → UndoReply
  batch_blocked : List Fault → UndoReply
  answered : UndoStatus → List Text → List Fault → UndoReply

pub record Workspace : Type 0 where
  pub txns : List Txn
  pub files : Files

abbrev slash_code : ℕ
slash_code = 47

abbrev dot : ℕ
dot = 46

abbrev pub is_safe_txn_id : Text → Bool
is_safe_txn_id id =
    ltb 0 (length id)
    && leb (length id) 100
    && not (any (λ c. c == slash_code) id)
    && not (any (λ c. c == backslash) id)
    && not (id === dot ∷ dot ∷ [])
    && not (starts_with (dot ∷ []) id)

abbrev pub find_txn : Text → List Txn → Option Txn
find_txn id [] = none
find_txn id (t ∷ txns) = let rest = find_txn id txns in if t.txn_id === id then some t else rest

abbrev pub update_txn : Text → (StateFile → StateFile) → List Txn → List Txn
update_txn id patch [] = []
update_txn id patch (t ∷ txns) =
    (if t.txn_id === id then update_journal_state patch t else t) ∷ update_txn id patch txns

abbrev pub to_undone : StateFile → StateFile
to_undone s = record s { state = undone }

-- `markUndone`
abbrev pub mark_undone : Text → Workspace → Workspace
mark_undone id w = record w { txns = update_txn id to_undone w.txns }

abbrev pub write_back : Text → Option Text → Workspace → Workspace
write_back file content w = record w { files = put_file file content w.files }

abbrev pub is_committed : TxnState → Bool
is_committed committed = true
is_committed committed_recovered = true
is_committed _ = false

abbrev pub is_undone : TxnState → Bool
is_undone undone = true
is_undone _ = false

-- a content that is not what was written
abbrev pub is_foreign : (Text → Text) → StateFile → Text → Bool
is_foreign hash s content = not (is_missing s.new_hash) && not (hash content === s.new_hash)

-- What the host says of a file: its path may not be touched, another writer has its lock, its name leads
-- out of the backups, and, of a directory of the journal, its backup is a link that leads out.
pub record Host : Type 0 where
  pub is_blocked : Text → Bool
  pub is_locked : Text → Bool
  pub leaves_backup : Text → Bool
  pub links_out : Text → Bool

module _ (hash : Text → Text) (host : Host) where
  abbrev pub undo_created :
      Text → StateFile → Text → Workspace → Option Text → UndoReply × Workspace
  undo_created id s file w none = (answered newly_undone [] [], mark_undone id w)
  undo_created id s file w (some content) =
      if is_foreign hash s content
      then (refused external_change, w)
      else (answered newly_undone (file ∷ []) [], mark_undone id (write_back file none w))

  abbrev pub undo_edit :
      Text → StateFile → Text → Text → Workspace → Option Text → UndoReply × Workspace
  undo_edit id s file backup w none = (refused target_missing, w)
  undo_edit id s file backup w (some content) =
      if hash content === hash backup
      then (answered already_restored [] [], mark_undone id w)
      else if is_foreign hash s content
      then (refused external_change, w)
      else (answered newly_undone (file ∷ []) [], mark_undone id (write_back file (some backup) w))

  abbrev pub undo_backup : Text → StateFile → Text → Workspace → Option Text → UndoReply × Workspace
  undo_backup id s file w none = (refused journal_not_found, w)
  undo_backup id s file w (some backup) =
      if host.links_out id
      then (refused backup_escape, w)
      else if host.is_locked file
      then (refused file_locked, w)
      else if s.creates
      then undo_created id s file w (w.files file)
      else undo_edit id s file backup w (w.files file)

  abbrev pub undo_single : Txn → StateFile → Manifest → Workspace → UndoReply × Workspace
  undo_single t s m w =
      if is_undone s.state
      then (answered already_undone [] [], w)
      else if not (is_committed s.state)
      then (refused not_committed, w)
      else if host.is_blocked m.file
      then (refused path_blocked, w)
      else if host.leaves_backup m.file
      then (refused backup_escape, w)
      else undo_backup t.txn_id s m.file w t.backup
