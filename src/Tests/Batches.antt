-- ===== src/Tests/Batches.antt =====
-- Batches that are undone, that die, and that are rolled back.
use liu_he.Base.{◌≡◌, ◌≢◌, ◌⊎◌, refl, ◌∷◌, if◌then◌else◌, true, false, none, some, []}
use liu_he.Base.Text.{Text, codes, ◌===◌, ===_iff}
use liu_he.Journal.{
  Txn, StateFile, Manifest, Intent, Files, parsed, committed, needs_review, first_state, to_staged,
  to_committed, journal_writer_alive,
}
use liu_he.Journal.Group.{Turn, restart_group, AreApart}
use liu_he.Journal.Atomic.{IsWhole, restart_group-IsWhole}
use mathlib.Core.List.{List}
use liu_he.Journal.Undo.{Workspace, find_txn}
use liu_he.Journal.Whole.{IsRefused, IsTakenBack, restore_journal-whole}
use liu_he.Journal.Compensate.{WrittenFile, backup_of, compensate}
use liu_he.Journal.Restored.{IsRolledBack, compensate-IsRolledBack}
use liu_he.Base.{All, ◌≢◌}
use liu_he.Journal.Batch.{restore_journal, members_of, batch_member_journals, Member}
use liu_he.Tests.Undoing.{
  hash, hash-injective, nobody, edit, files, edit-MayDie, open_host, no_order, written, manifest,
}

-- two files of one batch
abbrev batch_state : StateFile
batch_state = record (first_state edit) {
  batch_id = codes "b";
  state = committed;
  new_hash = hash (codes "old");
}

abbrev other_state : StateFile
other_state = record batch_state { creates = true; new_hash = hash (codes "made") }

abbrev first_txn : Txn
first_txn = record written { state = parsed batch_state }

abbrev other_txn : Txn
other_txn = record written {
  txn_id = codes "txn_2";
  backup = some [];
  manifest = some (record { file = codes "b.js"; created_at = codes "2" });
  state = parsed other_state;
}

abbrev batch_files : Files
batch_files path = if path === codes "b.js" then some (codes "made") else files path

abbrev batch_workspace : Workspace
batch_workspace = record { txns = first_txn ∷ other_txn ∷ []; files = batch_files }

abbrev self : Member
self = record { txn = first_txn; state = batch_state; manifest = manifest }

other_file : codes "a.js" ≢ codes "b.js"
other_file e = let k = (===_iff (codes "a.js") (codes "b.js")).1 e in cc

restore_journal-whole_example :
    IsRefused hash open_host
      (members_of no_order self batch_workspace)
      batch_workspace
      (restore_journal no_order hash open_host (codes "txn_1") batch_workspace)
    ⊎ IsTakenBack
        (members_of no_order self batch_workspace)
        batch_workspace
        (restore_journal no_order hash open_host (codes "txn_1") batch_workspace)
unfolding batch_member_journals
restore_journal-whole_example =
    restore_journal-whole no_order hash open_host hash-injective (codes "txn_1") batch_workspace
      first_txn batch_state manifest refl refl refl refl refl ((other_file, tt), (tt, tt))
      (refl, (refl, tt)) (tt, (tt, tt))

-- a batch of two files that dies between the renaming of the first and that of the second
abbrev creation : Intent
creation = record edit { txn_id = codes "txn_2"; file = codes "b.js"; content = []; creates = true }

abbrev half_done : List Turn
half_done =
    record { intent = edit; content = codes "new"; steps = 9 }
    ∷ record { intent = creation; content = codes "made"; steps = 7 }
    ∷ []

half_done-AreApart : AreApart half_done
half_done-AreApart = (
  (
    (
      λ e. let k = (===_iff (codes "b.js") (codes "a.js")).1 e in cc,
      λ e. let k = (===_iff (codes "txn_2") (codes "txn_1")).1 e in cc,
    ),
    tt,
  ),
  (tt, tt),
)

restart_group-IsWhole_example :
    IsWhole hash open_host nobody 8 none
      (codes "2")
      half_done
      files
      (restart_group hash open_host nobody 8 none
        (codes "2")
        (codes "b")
        none
        half_done
        files).world
restart_group-IsWhole_example =
    restart_group-IsWhole hash open_host nobody 8 none (codes "2") hash-injective (λ a. refl)
      (codes "b") none half_done files refl half_done-AreApart
      ((edit-MayDie, (refl, refl)), (((refl, refl, λ e. (refl, λ k. cc)), (refl, refl)), tt))

-- two files of a batch that were written before a third one failed, one of them changed since
abbrev written_files : List WrittenFile
written_files =
    record {
      file = codes "a.js";
      txn_id = codes "txn_1";
      new_hash = hash (codes "old");
      creates = false;
    }
    ∷ record {
      file = codes "b.js";
      txn_id = codes "txn_2";
      new_hash = hash (codes "else");
      creates = true;
    }
    ∷ []

compensate-IsRolledBack_example :
    let r = compensate hash open_host none (codes "2") written_files batch_workspace in
    All
      (λ f.
        IsRolledBack hash open_host f
          (backup_of (find_txn f.txn_id batch_workspace.txns))
          (batch_workspace.files f.file)
          (r.0.files f.file))
      written_files
    × ((path : Text)
        → All (λ f. path ≢ f.file) written_files
        → r.0.files path ≡ batch_workspace.files path)
compensate-IsRolledBack_example =
    compensate-IsRolledBack hash open_host none (codes "2") written_files batch_workspace
      (((λ e. let k = (===_iff (codes "b.js") (codes "a.js")).1 e in cc), tt), (tt, tt))

compensate_runs :
    (compensate hash open_host none (codes "2") written_files batch_workspace).1 ≡ codes "a.js" ∷ []
unfolding compensate liu_he.Journal.update_journal_state
compensate_runs = refl
