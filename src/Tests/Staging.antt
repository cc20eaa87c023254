-- ===== src/Tests/Staging.antt =====
-- A transaction of which one file was written before its process died, and a restart that comes twice.
use liu_he.Base.{◌≡◌, refl, true, false, none, some, [], ◌∷◌, Bool}
use liu_he.Base.Text.{Text, codes}
use liu_he.Journal.{Files}
use liu_he.Journal.Transactions.{
  staged, FileEntry, TxnManifest, TxnDir, TxnStore, recover_dir, recover_transactions,
}
use liu_he.Journal.Settled.{recover_transactions-again}
use liu_he.Journal.Standing.{IsJudged, recover_dir-IsJudged}

abbrev same : Text → Text
same s = s

abbrev inside : Text → Text → Bool
inside id name = true

abbrev all_new : Files
all_new path = some (codes "new")

abbrev entry : FileEntry
entry = record {
  file = codes "a.js";
  backup_name = codes "0";
  backup = some (codes "old");
  new_hash = codes "new";
}

abbrev half_staged : TxnManifest
half_staged = record {
  phase = staged;
  created = 5;
  files = entry ∷ record entry { file = codes "b.js"; backup = some (codes "new") } ∷ [];
  index_pending = false;
  pending_files = [];
}

abbrev staged_dir : TxnDir
staged_dir = record { txn_id = codes "t"; manifest = some half_staged }

recover_dir-IsJudged_example :
    IsJudged same inside none 9 all_new staged_dir half_staged half_staged.files
      (recover_dir same inside none 9 all_new staged_dir)
recover_dir-IsJudged_example =
    recover_dir-IsJudged same inside none 9 all_new staged_dir half_staged entry
      (record entry { file = codes "b.js"; backup = some (codes "new") } ∷ []) refl refl refl

abbrev store : TxnStore
store = record { recent = []; current = staged_dir ∷ [] }

recover_transactions-again_example :
    recover_transactions same inside none 9 all_new
      (recover_transactions same inside none 9 all_new store).0
    ≡ ((recover_transactions same inside none 9 all_new store).0, [])
recover_transactions-again_example = recover_transactions-again same inside 9 all_new store
