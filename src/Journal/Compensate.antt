-- ===== src/Journal/Compensate.antt =====
-- The rollback of writeSymbols in malong/write-runtime.js, when a file of a batch that is all or nothing
-- fails: each file that was written is put back, if it still holds what was written.
use liu_he.Base.{
  Bool, true, false, not, ◌&&◌, Option, none, some, List, [], ◌∷◌, ◌++◌, if◌then◌else◌,
}
use liu_he.Base.Text.{Text, ◌===◌, is_missing}
use liu_he.Journal.{StateFile, Txn}
use liu_he.Journal.Undo.{Workspace, Host, find_txn, update_txn, write_back}
use liu_he.Journal.Partial.{to_rolled_back}

-- an entry of `written`
pub record WrittenFile : Type 0 where
  pub file : Text
  pub txn_id : Text
  pub new_hash : Text
  pub creates : Bool

abbrev pub backup_of : Option Txn → Option Text
backup_of none = none
backup_of (some t) = t.backup

abbrev pub to_pending : StateFile → StateFile
to_pending s = record s { index_pending = true }

abbrev pub patch_state : Text → (StateFile → StateFile) → Workspace → Workspace
patch_state id patch w = record w { txns = update_txn id patch w.txns }

module _ (hash : Text → Text) (host : Host) (index : Option (Text → Bool)) (now : Text) where
  abbrev pub holds_own : WrittenFile → Option Text → Bool
  holds_own f none = false
  holds_own f (some content) = not (is_missing f.new_hash) && hash content === f.new_hash

  -- the index is repaired, or that is noted in the journal
  abbrev pub index_again : Option (Text → Bool) → WrittenFile → Workspace → Workspace
  index_again none f w = w
  index_again (some repair) f w = if repair f.file then w else patch_state f.txn_id to_pending w

  abbrev pub put_back : WrittenFile → Option Text → Workspace × List Text → Workspace × List Text
  put_back f content (w, done) =
      if holds_own f (w.files f.file)
      then (
        patch_state f.txn_id (to_rolled_back now) (write_back f.file content w),
        done ++ f.file ∷ [],
      )
      else (w, done)

  -- the index of a file that was created is not touched
  abbrev pub restore_own : WrittenFile → Text → Workspace × List Text → Workspace × List Text
  restore_own f backup (w, done) =
      if holds_own f (w.files f.file)
      then (
        index_again index f
            (patch_state f.txn_id (to_rolled_back now) (write_back f.file (some backup) w)),
        done ++ f.file ∷ [],
      )
      else (w, done)

  abbrev pub compensate_with :
      WrittenFile → Option Text → Workspace × List Text → Workspace × List Text
  compensate_with f none acc = acc
  compensate_with f (some backup) acc =
      if host.is_locked f.file
      then acc
      else if f.creates
      then put_back f none acc
      else restore_own f backup acc

  abbrev pub compensate_one : WrittenFile → Workspace × List Text → Workspace × List Text
  compensate_one f acc = compensate_with f (backup_of (find_txn f.txn_id (acc.0).txns)) acc

  abbrev pub compensate_from : List WrittenFile → Workspace × List Text → Workspace × List Text
  compensate_from [] acc = acc
  compensate_from (f ∷ fs) acc = compensate_from fs (compensate_one f acc)

  unfoldable pub compensate : List WrittenFile → Workspace → Workspace × List Text
  compensate fs w = compensate_from fs (w, [])
