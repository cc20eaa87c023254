-- ===== src/Journal/Partial.antt =====
-- The batches of malong/write-journal.js: their markers, their lock, and `recoverBatches`, which takes
-- back what a batch that died had written. `age` is the time since the lock's file was written.
use liu_he.Base.{
  ℕ, Bool, true, false, not, ◌&&◌, ◌==◌, Option, none, some, List, [], ◌∷◌, ◌++◌, length, ltb,
  is_some, if◌then◌else◌,
}
use liu_he.Base.Text.{Text, ◌===◌, is_missing}
use liu_he.Journal.{
  committed, rolled_back, StateFile, StateRead, missing, unparseable, parsed, Manifest, Txn,
}
use liu_he.Journal.Recover.{to_review}
use liu_he.Journal.Undo.{Workspace, Host, find_txn, update_txn, write_back}

pub data Mode : Type 0 where
  strict best_effort : Mode

pub record Marker : Type 0 where
  pub batch_id : Text
  pub files : List Text
  pub txn_ids : List Text
  pub is_pending : Bool
  pub mode : Mode

-- `pid` is 0 if it cannot be read
pub record BatchLock : Type 0 where
  pub pid : ℕ
  pub age : ℕ

pub data BatchAction : Type 0 where
  best_effort_partial_kept : BatchAction
  partial_rollback partial_rollback_skipped : Text → BatchAction

-- the workspace with its batches; a marker that cannot be parsed is none
pub record Batches : Type 0 where
  pub world : Workspace
  pub markers : List (Option Marker)
  pub lock : Option BatchLock

module _ (running : ℕ → Bool) (own_pid : ℕ) where
  abbrev lock_is_held : BatchLock → Bool
  lock_is_held l =
      if ltb 0 l.pid
      then (if l.pid == own_pid then true else running l.pid)
      else not (ltb 30000 l.age)

  -- `_isBatchLockAlive`, which removes a lock that is not
  abbrev pub is_batch_lock_alive : Option BatchLock → Bool × Option BatchLock
  is_batch_lock_alive none = (false, none)
  is_batch_lock_alive (some l) = if lock_is_held l then (true, some l) else (false, none)

  -- `_acquireBatchLock`
  abbrev pub acquire_batch_lock : Option BatchLock → Bool × Option BatchLock
  acquire_batch_lock lock =
      let (alive, left) = is_batch_lock_alive lock in
      if alive then (false, left) else (true, some (record { pid = own_pid; age = 0 }))

  -- `createBatchMarker`: none if the lock is busy
  abbrev pub create_batch_marker : Text → List Text → Mode → Batches → Option Batches
  create_batch_marker id files mode b =
      let (got, lock) = acquire_batch_lock b.lock in
      if got
      then some (record b {
        markers =
            b.markers
            ++ some (record {
              batch_id = id;
              files = files;
              txn_ids = [];
              is_pending = true;
              mode = mode;
            })
              ∷ [];
        lock = lock;
      })
      else none

abbrev pub is_committed_read : StateRead → Bool
is_committed_read (parsed s) = elim s.state [ committed ↦ true | _ ↦ false ]
is_committed_read _ = false

abbrev pub is_committed_txn : Option Txn → Bool
is_committed_txn none = false
is_committed_txn (some t) = is_committed_read t.state

abbrev pub committed_ids : List Txn → List Text → List Text
committed_ids txns [] = []
committed_ids txns (id ∷ ids) =
    let rest = committed_ids txns ids in
    if is_committed_txn (find_txn id txns) then id ∷ rest else rest

abbrev pub to_rolled_back : Text → StateFile → StateFile
to_rolled_back now s = record s { state = rolled_back; rolled_back_at = now }

module _ (hash : Text → Text) (host : Host) (now : Text) where
  abbrev pub patch_txn : Text → (StateFile → StateFile) → Workspace → Workspace
  patch_txn id patch w = record w { txns = update_txn id patch w.txns }

  -- the file still holds what the batch wrote
  abbrev pub is_own : StateFile → Option Text → Bool
  is_own s none = false
  is_own s (some content) = not (is_missing s.new_hash) && hash content === s.new_hash

  abbrev pub roll_back_file :
      Text → StateFile → Text → Option Text → Workspace → Workspace × List BatchAction
  roll_back_file id s file backup w =
      if s.creates && is_own s (w.files file)
      then if host.is_locked file
        then (patch_txn id to_review w, [])
        else (patch_txn id (to_rolled_back now) (write_back file none w), [])
      else if is_some backup && is_own s (w.files file)
      then if host.is_locked file
        then (patch_txn id to_review w, partial_rollback_skipped id ∷ [])
        else (
          patch_txn id (to_rolled_back now) (write_back file backup w),
          partial_rollback id ∷ [],
        )
      else (patch_txn id to_review w, [])

  abbrev pub roll_back_read :
      Txn → StateRead → Option Manifest → Workspace → Workspace × List BatchAction
  roll_back_read t (parsed s) (some m) w =
      if host.is_blocked m.file
      then (patch_txn t.txn_id to_review w, partial_rollback_skipped t.txn_id ∷ [])
      else roll_back_file t.txn_id s m.file t.backup w
  roll_back_read t (parsed s) none w = (w, [])
  roll_back_read t missing m w = (w, [])
  roll_back_read t unparseable m w = (w, [])

  abbrev pub roll_back_found : Option Txn → Workspace → Workspace × List BatchAction
  roll_back_found none w = (w, [])
  roll_back_found (some t) w = roll_back_read t t.state t.manifest w

  abbrev pub roll_back_all : List Text → Workspace → Workspace × List BatchAction
  roll_back_all [] w = (w, [])
  roll_back_all (id ∷ ids) w =
      let (w1, one) = roll_back_found (find_txn id w.txns) w in
      let (w2, rest) = roll_back_all ids w1 in (w2, one ++ rest)

  abbrev pub total_files : Marker → ℕ
  total_files m = if ltb 0 (length m.files) then length m.files else length m.txn_ids

  abbrev pub recover_partial : Mode → List Text → Workspace → Workspace × List BatchAction
  recover_partial best_effort ids w = (w, best_effort_partial_kept ∷ [])
  recover_partial strict ids w = roll_back_all ids w

  abbrev pub recover_marker : Marker → Workspace → Workspace × List BatchAction
  recover_marker m w =
      let ids = committed_ids w.txns m.txn_ids in
      if m.is_pending && (ltb 0 (length ids) && ltb (length ids) (total_files m))
      then recover_partial m.mode ids w
      else (w, [])

  -- markers that can be parsed go, whatever comes of them
  abbrev pub recover_markers :
      List (Option Marker) → Workspace → Workspace × List (Option Marker) × List BatchAction
  recover_markers [] w = (w, [], [])
  recover_markers (none ∷ markers) w =
      let (w', left, actions) = recover_markers markers w in (w', none ∷ left, actions)
  recover_markers (some m ∷ markers) w =
      let (w1, one) = recover_marker m w in
      let (w2, left, rest) = recover_markers markers w1 in (w2, left, one ++ rest)

module _ (hash : Text → Text) (host : Host) (running : ℕ → Bool) (own_pid : ℕ) (now : Text) where
  abbrev recover_unlocked : Batches → Batches × List BatchAction
  recover_unlocked b =
      let (w, left, actions) = recover_markers hash host now b.markers b.world in
      (record { world = w; markers = left; lock = none }, actions)

  unfoldable pub recover_batches : Batches → Batches × List BatchAction
  recover_batches b =
      let (alive, lock) = is_batch_lock_alive running own_pid b.lock in
      if alive then (b, []) else recover_unlocked b
