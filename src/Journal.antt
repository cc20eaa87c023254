-- ===== src/Journal.antt =====
-- The undo journal of malong/write-journal.js: one directory per write, with a backup of the file as it
-- was, a manifest and a state, by which a crash is judged and a write is undone. The hash of a content,
-- the processes that run and the time are parameters; calls of the file system do not fail.
pub mod Recover
pub mod Put
pub mod Judged
pub mod Crash
pub mod Stages
pub mod Restarted
pub mod Undo
pub mod Undone
pub mod Careful
pub mod Batch
pub mod Stepped
pub mod Final
pub mod Blocked
pub mod Whole
pub mod Partial
pub mod Group
pub mod Counted
pub mod RolledBack
pub mod Grouped
pub mod TakenBack
pub mod Atomic
pub mod Transactions
pub mod Settled
pub mod Standing
pub mod Compensate
pub mod Compensated
pub mod Restored
pub mod Prune
pub mod Swept
pub mod Overdue
use liu_he.Base.{ℕ, zero, Bool, true, false, Option, none, some, List, [], ◌∷◌, ltb, if◌then◌else◌}
use liu_he.Base.Text.{Text, ◌===◌}

pub data TxnState : Type 0 where
  created staged committed rolled_back abandoned : TxnState
  needs_review failed undone committed_recovered indeterminate : TxnState

-- state.json; `creates` says that the file did not exist, an absent text is empty
pub record StateFile : Type 0 where
  pub state : TxnState
  pub creates : Bool
  pub new_hash : Text
  pub batch_id : Text
  pub index_pending : Bool
  pub committed_at : Text
  pub rolled_back_at : Text
  pub abandoned_at : Text
  pub failed_at : Text

-- state.json is missing, cannot be parsed, or is read
pub data StateRead : Type 0 where
  missing : StateRead
  unparseable : StateRead
  parsed : StateFile → StateRead

pub record Manifest : Type 0 where
  pub file : Text
  pub created_at : Text

-- a directory of the journal; `name_pid` is the process id in its name, 0 is none
pub record Txn : Type 0 where
  pub txn_id : Text
  pub name_pid : ℕ
  pub pid : ℕ
  pub backup : Option Text
  pub manifest : Option Manifest
  pub state : StateRead

-- the files of the workspace, by their paths
abbrev pub Files : Type 0
Files = Text → Option Text

abbrev pub put_file : Text → Option Text → Files → Files
put_file path content files other = if other === path then content else files other

-- `updateJournalState`: what cannot be read stays
abbrev pub update_read : (StateFile → StateFile) → StateRead → StateRead
update_read patch missing = missing
update_read patch unparseable = unparseable
update_read patch (parsed s) = parsed (patch s)

unfoldable pub update_journal_state : (StateFile → StateFile) → Txn → Txn
update_journal_state patch t = record t { state = update_read patch t.state }

-- `journalWriterAlive`: the process in the file, or the one in the name
unfoldable pub journal_writer_alive : (ℕ → Bool) → Txn → Bool
journal_writer_alive running t =
    if ltb 0 t.pid then running t.pid else if ltb 0 t.name_pid then running t.name_pid else false

-- What a caller passes to `createJournal`, with the state that it asks for.
pub record Intent : Type 0 where
  pub txn_id : Text
  pub own_pid : ℕ
  pub file : Text
  pub content : Text
  pub creates : Bool
  pub batch_id : Text
  pub now : Text

abbrev pub first_state : Intent → StateFile
first_state i = record {
  state = staged;
  creates = i.creates;
  new_hash = [];
  batch_id = i.batch_id;
  index_pending = false;
  committed_at = [];
  rolled_back_at = [];
  abandoned_at = [];
  failed_at = [];
}

-- the steps of `createJournal`: the directory, the process id, the backup, the manifest, the state
abbrev pub make_dir : Intent → Txn
make_dir i = record {
  txn_id = i.txn_id;
  name_pid = i.own_pid;
  pid = 0;
  backup = none;
  manifest = none;
  state = missing;
}

abbrev pub note_pid : Intent → Txn → Txn
note_pid i t = record t { pid = i.own_pid }

abbrev pub back_up : Intent → Txn → Txn
back_up i t = record t { backup = some i.content }

abbrev pub write_manifest : Intent → Txn → Txn
write_manifest i t = record t { manifest = some (record { file = i.file; created_at = i.now }) }

abbrev pub write_state : Intent → Txn → Txn
write_state i t = record t { state = parsed (first_state i) }

unfoldable pub create_journal : Intent → Txn
create_journal i = write_state i (write_manifest i (back_up i (note_pid i (make_dir i))))

-- the updates of a writer
abbrev pub to_staged : Text → StateFile → StateFile
to_staged new_hash s = record s { state = staged; new_hash = new_hash }

abbrev pub to_committed : Text → StateFile → StateFile
to_committed now s = record s { state = committed; committed_at = now }

abbrev pub to_failed : StateFile → StateFile
to_failed s = record s { state = failed }

abbrev pub to_indeterminate : StateFile → StateFile
to_indeterminate s = record s { state = indeterminate }
