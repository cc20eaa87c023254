-- ===== src/Journal/Transactions.antt =====
-- `recoverTransactions` of malong/write-journal.js: what becomes after a restart of the transactions of
-- malong/tools/tool-edit-transaction/transaction-store.js. The guards on the path of a backup are a
-- parameter, and so is the repair of the index of a file.
use liu_he.Base.{
  ℕ, ◌+◌, Bool, true, false, not, ◌&&◌, ◌||◌, Option, none, some, List, [], ◌∷◌, ◌++◌, ltb, length,
  if◌then◌else◌,
}
use liu_he.Base.Text.{Text, ◌===◌, is_missing}
use liu_he.Journal.{Files}

pub data Phase : Type 0 where
  staged needs_review committed_recovered : Phase
  other : Phase

-- a file of a transaction; `backup` is none if there is no file of that name, or it cannot be read
pub record FileEntry : Type 0 where
  pub file : Text
  pub backup_name : Text
  pub backup : Option Text
  pub new_hash : Text

-- `created` is 0 if it is no number
pub record TxnManifest : Type 0 where
  pub phase : Phase
  pub created : ℕ
  pub files : List FileEntry
  pub index_pending : Bool
  pub pending_files : List Text

-- a directory of .ai-transactions; its manifest may not be readable
pub record TxnDir : Type 0 where
  pub txn_id : Text
  pub manifest : Option TxnManifest

pub record TxnStore : Type 0 where
  pub recent : List TxnDir
  pub current : List TxnDir

pub data TxnAction : Type 0 where
  repaired repair_failed : ℕ → TxnAction
  orphan_removed abandoned : TxnAction
  insufficient_data external_change : TxnAction
  recovered : ℕ → TxnAction

-- what a file says of its transaction
pub data FileState : Type 0 where
  unknown unchanged landed changed : FileState

abbrev pub Outcome : Type 0
Outcome = Option TxnDir × Option TxnAction

abbrev pub with_manifest : TxnDir → TxnManifest → TxnDir
with_manifest d m = record d { manifest = some m }

abbrev pub is_staged : Phase → Bool
is_staged staged = true
is_staged needs_review = false
is_staged committed_recovered = false
is_staged other = false

-- every file is tried
abbrev pub index_all : (Text → Bool) → List Text → Bool
index_all index [] = true
index_all index (f ∷ fs) = let rest = index_all index fs in index f && rest

abbrev pub after_repair : Bool → TxnManifest → TxnManifest
after_repair true m = record m { index_pending = false; pending_files = [] }
after_repair false m = m

abbrev pub repair_action : Bool → ℕ → TxnAction
repair_action true n = repaired n
repair_action false n = repair_failed n

-- a transaction that has ended, whose index is to be repaired if that is pending
abbrev pub repair_index : Option (Text → Bool) → TxnDir → TxnManifest → Outcome
repair_index none d m = (some d, none)
repair_index (some index) d m =
    if m.index_pending
    then (
      some (with_manifest d (after_repair (index_all index m.pending_files) m)),
      some (repair_action (index_all index m.pending_files) (length m.pending_files)),
    )
    else (some d, none)

abbrev pub is_unknown : FileState → Bool
is_unknown unknown = true
is_unknown unchanged = false
is_unknown landed = false
is_unknown changed = false

abbrev pub has_landed : FileState → Bool
has_landed landed = true
has_landed unknown = false
has_landed unchanged = false
has_landed changed = false

abbrev pub has_changed : FileState → Bool
has_changed changed = true
has_changed unknown = false
has_changed unchanged = false
has_changed landed = false

abbrev pub left_dir : Option TxnDir → List TxnDir → List TxnDir
left_dir none dirs = dirs
left_dir (some d) dirs = d ∷ dirs

abbrev pub keep_action : Text → Option TxnAction → List (Text × TxnAction) → List (Text × TxnAction)
keep_action id none actions = actions
keep_action id (some a) actions = (id, a) ∷ actions

abbrev pub recover_each : (TxnDir → Outcome) → List TxnDir → List TxnDir × List (Text × TxnAction)
recover_each recover [] = ([], [])
recover_each recover (d ∷ dirs) =
    let (rest, actions) = recover_each recover dirs in
    let (d', action) = recover d in (left_dir d' rest, keep_action d.txn_id action actions)

module _ (hash : Text → Text) (is_inside : Text → Text → Bool) (index : Option (Text → Bool))
    (now : ℕ) (files : Files) where
  abbrev pub compare_file : FileEntry → Option Text → Option Text → FileState
  compare_file e (some content) (some backup) =
      if hash content === hash backup
      then unchanged
      else if not (is_missing e.new_hash) && hash content === e.new_hash
      then landed
      else changed
  compare_file e none backup = unknown
  compare_file e (some content) none = unknown

  unfoldable pub file_state : Text → FileEntry → FileState
  file_state id e =
      if is_inside id e.backup_name then compare_file e (files e.file) e.backup else unknown

  -- `knownCount`, `anyLanded` and `anyExternal`
  abbrev pub any_state : (FileState → Bool) → Text → List FileEntry → Bool
  any_state p id [] = false
  any_state p id (e ∷ es) = let rest = any_state p id es in p (file_state id e) || rest

  abbrev pub is_young : ℕ → Bool
  is_young created = ltb 0 created && ltb now (created + 60000)

  abbrev pub recover_empty : TxnDir → TxnManifest → Outcome
  recover_empty d m = if is_young m.created then (some d, none) else (none, some orphan_removed)

  abbrev to_phase : TxnDir → TxnManifest → Phase → TxnAction → Outcome
  to_phase d m phase action = (some (with_manifest d (record m { phase = phase })), some action)

  abbrev pub recover_files : TxnDir → TxnManifest → List FileEntry → Outcome
  recover_files d m es =
      if not (any_state (λ s. not (is_unknown s)) d.txn_id es)
      then to_phase d m needs_review insufficient_data
      else if any_state has_changed d.txn_id es
      then to_phase d m needs_review external_change
      else if not (any_state has_landed d.txn_id es)
      then (none, some abandoned)
      else to_phase d m committed_recovered (recovered (length es))

  abbrev pub recover_staged : TxnDir → TxnManifest → List FileEntry → Outcome
  recover_staged d m [] = recover_empty d m
  recover_staged d m (e ∷ es) = recover_files d m (e ∷ es)

  abbrev pub recover_manifest : TxnDir → Option TxnManifest → Outcome
  recover_manifest d none = (some d, none)
  recover_manifest d (some m) =
      if is_staged m.phase then recover_staged d m m.files else repair_index index d m

  unfoldable pub recover_dir : TxnDir → Outcome
  recover_dir d = recover_manifest d d.manifest

  -- what was committed, of which only the index may need a repair
  abbrev pub recover_recent_manifest : TxnDir → Option TxnManifest → Outcome
  recover_recent_manifest d none = (some d, none)
  recover_recent_manifest d (some m) = repair_index index d m

  unfoldable pub recover_transactions : TxnStore → TxnStore × List (Text × TxnAction)
  recover_transactions s =
      let (recent, first) = recover_each (λ d. recover_recent_manifest d d.manifest) s.recent in
      let (current, rest) = recover_each recover_dir s.current in
      (record { recent = recent; current = current }, first ++ rest)
