-- ===== src/Journal/Recover.antt =====
-- `recoverJournals` of malong/write-journal.js, up to its batches: what becomes of each directory of the
-- journal after a restart. `index` repairs the index of a file, if there is an index.
use liu_he.Base.{
  ℕ, Bool, true, false, ◌&&◌, ◌||◌, not, Option, none, some, List, [], ◌∷◌, if◌then◌else◌,
}
use liu_he.Base.Text.{Text, ◌===◌, is_missing}
use liu_he.Journal.{
  TxnState, created, staged, committed, rolled_back, abandoned, needs_review, failed, StateFile,
  StateRead, missing, unparseable, parsed, Manifest, Txn, Files, journal_writer_alive, to_committed,
}

pub data Action : Type 0 where
  in_flight_kept orphan_removed unparseable_state_kept : Action
  index_repaired index_repair_failed : Action
  marked_abandoned marked_committed kept_external_change : Action
  never_executed assets_lost rollback_failed : Action

-- the directory, unless it is removed, and what is reported of it
abbrev pub Recovered : Type 0
Recovered = Option Txn × Option Action

abbrev pub to_abandoned : Text → StateFile → StateFile
to_abandoned now s = record s { state = abandoned; abandoned_at = now }

abbrev pub to_review : StateFile → StateFile
to_review s = record s { state = needs_review }

-- what has neither a backup nor a target, for a transaction that never ran
abbrev pub drop_state : StateFile → StateFile
drop_state s = record s { state = abandoned }

-- the states that recovery leaves as they are
abbrev pub is_ended : TxnState → Bool
is_ended committed = true
is_ended rolled_back = true
is_ended abandoned = true
is_ended needs_review = true
is_ended failed = true
is_ended _ = false

abbrev pub is_unfinished : TxnState → Bool
is_unfinished created = true
is_unfinished staged = true
is_unfinished _ = false

abbrev pub is_created : TxnState → Bool
is_created created = true
is_created _ = false

module _ (hash : Text → Text) (running : ℕ → Bool) (index : Option (Text → Bool)) (now : Text)
    (files : Files) where
  -- may the file differ from the backup?
  abbrev pub may_differ : Option Text → Option Text → Bool
  may_differ (some backup) (some content) = not (hash content === hash backup)
  may_differ (some backup) none = false
  may_differ none _ = false

  abbrev pub is_unsafe : Txn → Option Manifest → Bool
  is_unsafe t none = false
  is_unsafe t (some m) = may_differ t.backup (files m.file)

  abbrev pub keep_txn : Txn → Action → Recovered
  keep_txn t action = (some t, some action)

  abbrev pub recover_orphan : Txn → Recovered
  recover_orphan t =
      if journal_writer_alive running t
      then keep_txn t in_flight_kept
      else if is_unsafe t t.manifest
      then keep_txn t unparseable_state_kept
      else (none, some orphan_removed)

  -- a write whose index is still to be repaired
  abbrev pub repair : Txn → StateFile → Option Manifest → (Text → Bool) → Recovered
  repair t s none repair_index = keep_txn t index_repair_failed
  repair t s (some m) repair_index =
      if repair_index m.file
      then keep_txn (record t { state = parsed (record s { index_pending = false }) })
          index_repaired
      else keep_txn t index_repair_failed

  abbrev pub recover_ended : Txn → StateFile → Option (Text → Bool) → Recovered
  recover_ended t s none = (some t, none)
  recover_ended t s (some repair_index) =
      if s.index_pending then repair t s t.manifest repair_index else (some t, none)

  abbrev pub set_state : Txn → StateFile → Action → Recovered
  set_state t s action = (some (record t { state = parsed s }), some action)

  -- there is nothing to compare
  abbrev pub recover_without : Txn → StateFile → Recovered
  recover_without t s =
      if is_created s.state || s.creates
      then set_state t (drop_state s) never_executed
      else set_state t (to_review s) assets_lost

  -- the file as it is, the backup, and the hash of what was to be written
  abbrev pub judge : Txn → StateFile → Text → Text → Recovered
  judge t s content backup =
      if hash content === hash backup
      then set_state t (to_abandoned now s) marked_abandoned
      else if not (is_missing s.new_hash) && hash content === s.new_hash
      then set_state t (to_committed now s) marked_committed
      else set_state t (to_review s) kept_external_change

  abbrev pub compare : Txn → StateFile → Option Text → Option Text → Recovered
  compare t s (some backup) (some content) =
      if is_unfinished s.state then judge t s content backup else recover_without t s
  compare t s (some backup) none = recover_without t s
  compare t s none content = recover_without t s

  abbrev pub recover_unfinished : Txn → StateFile → Option Manifest → Recovered
  recover_unfinished t s none = set_state t (to_review s) rollback_failed
  recover_unfinished t s (some m) =
      if journal_writer_alive running t
      then keep_txn t in_flight_kept
      else compare t s t.backup (files m.file)

  abbrev pub recover_read : Txn → StateRead → Recovered
  recover_read t missing = recover_orphan t
  recover_read t unparseable = keep_txn t unparseable_state_kept
  recover_read t (parsed s) =
      if is_ended s.state then recover_ended t s index else recover_unfinished t s t.manifest

  unfoldable pub recover_txn : Txn → Recovered
  recover_txn t = recover_read t t.state

  abbrev pub add_txn : Option Txn → List Txn → List Txn
  add_txn none txns = txns
  add_txn (some t) txns = t ∷ txns

  abbrev pub add_action : Text → Option Action → List (Text × Action) → List (Text × Action)
  add_action id none actions = actions
  add_action id (some a) actions = (id, a) ∷ actions

  unfoldable pub recover_journals : List Txn → List Txn × List (Text × Action)
  recover_journals [] = ([], [])
  recover_journals (t ∷ txns) =
      let (kept, actions) = recover_journals txns in
      let (t', action) = recover_txn t in (add_txn t' kept, add_action t.txn_id action actions)
