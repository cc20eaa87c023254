-- ===== src/Journal/Group.antt =====
-- A strict batch of write_symbols in malong/write-runtime.js that dies on its way, and the restart behind
-- it: the files of the batch one after the other, its marker, and both recoveries.
use liu_he.Base.{
  ℕ, suc, ◌≡◌, ◌≢◌, Bool, true, false, Option, some, List, [], ◌∷◌, All, map, if◌then◌else◌,
}
use liu_he.Base.Text.{Text}
use liu_he.Journal.{Txn, Files, Intent}
use liu_he.Journal.Recover.{recover_journals}
use liu_he.Journal.Judged.{IsDropped}
use liu_he.Journal.Crash.{crash_after, before_write, add_journal, IsWritten}
use liu_he.Journal.Undo.{Workspace, Host}
use liu_he.Journal.Partial.{Marker, strict, BatchLock, Batches, recover_batches}

-- a file of the batch, and how many of its steps have been taken: the sixth puts it into the marker
pub record Turn : Type 0 where
  pub intent : Intent
  pub content : Text
  pub steps : ℕ

-- the steps among them that writeSymbol takes as well
abbrev pub write_steps_of : ℕ → ℕ
write_steps_of (suc (suc (suc (suc (suc (suc n)))))) = suc (suc (suc (suc (suc n))))
write_steps_of n = n

abbrev pub is_marked : ℕ → Bool
is_marked (suc (suc (suc (suc (suc (suc n)))))) = true
is_marked n = false

-- the workspace that the batch leaves, from the files that it found
abbrev pub group_world : (Text → Text) → List Turn → Files → Workspace
group_world hash [] files = record { txns = []; files = files }
group_world hash (t ∷ turns) files =
    let d = crash_after (write_steps_of t.steps) hash t.intent t.content files in
    let rest = group_world hash turns d.files in
    record { txns = add_journal d.journal rest.txns; files = rest.files }

abbrev pub marked_ids : List Turn → List Text
marked_ids [] = []
marked_ids (t ∷ turns) =
    let rest = marked_ids turns in if is_marked t.steps then t.intent.txn_id ∷ rest else rest

abbrev pub group_marker : Text → List Turn → Marker
group_marker id turns = record {
  batch_id = id;
  files = map (λ t. t.intent.file) turns;
  txn_ids = marked_ids turns;
  is_pending = true;
  mode = strict;
}

module _ (hash : Text → Text) (host : Host) (running : ℕ → Bool) (own_pid : ℕ)
    (index : Option (Text → Bool)) (now : Text) where
  -- the journal is recovered, then its batches
  abbrev pub restart_group : Text → Option BatchLock → List Turn → Files → Batches
  restart_group id lock turns files =
      let w = group_world hash turns files in
      let kept = (recover_journals hash running index now w.files w.txns).0 in
      (recover_batches hash host running own_pid now (record {
        world = record { txns = kept; files = w.files };
        markers = some (group_marker id turns) ∷ [];
        lock = lock;
      })).0

-- The directories that recovery leaves of a batch, with the writes among them that reached their file.
pub data AreSettled (hash : Text → Text) (files : Files)
    : List Turn → List Txn → List Turn → Type 0 where
  settled : AreSettled hash files [] [] []
  removed :
      {t : Turn} {turns : List Turn} {txns : List Txn} {written : List Turn}
      → files t.intent.file ≡ before_write t.intent
      → AreSettled hash files turns txns written
      → AreSettled hash files (t ∷ turns) txns written
  dropped :
      {t : Turn} {turns : List Turn} {txns : List Txn} {written : List Turn} {x : Txn}
      → IsDropped t.intent.txn_id (some x)
      → files t.intent.file ≡ before_write t.intent
      → AreSettled hash files turns txns written
      → AreSettled hash files (t ∷ turns) (x ∷ txns) written
  reached :
      {t : Turn} {turns : List Turn} {txns : List Txn} {written : List Turn} {x : Txn}
      → IsWritten hash t.intent t.content (some x)
      → files t.intent.file ≡ some t.content
      → is_marked t.steps ≡ true
      → AreSettled hash files turns txns written
      → AreSettled hash files (t ∷ turns) (x ∷ txns) (t ∷ written)

-- writes with different files and different directories
abbrev pub AreApart : List Turn → Type 0
AreApart [] = Unit
AreApart (t ∷ turns) =
    All (λ u. (u.intent.file ≢ t.intent.file) × (u.intent.txn_id ≢ t.intent.txn_id)) turns
    × AreApart turns
