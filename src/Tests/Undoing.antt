-- ===== src/Tests/Undoing.antt =====
-- Writes that die, writes that are undone, and a journal that is swept.
use liu_he.Base.{
  ℕ, ◌≡◌, ◌⊎◌, ◌+◌, refl, inl, ◌∷◌, if◌then◌else◌, Bool, true, false, Option, none, some, [], In,
  length,
}
use mathlib.Core.List.{tail-eq_of_cons-eq}
use liu_he.Base.Text.{Text, codes, ◌===◌}
use liu_he.Journal.{
  Txn, StateFile, Manifest, Intent, Files, parsed, needs_review, first_state, to_staged,
  to_committed, journal_writer_alive,
}
use liu_he.Journal.Crash.{crash_after, MayDie, IsSettled, restart}
use liu_he.Journal.Restarted.{recover-after_crash}
use liu_he.Journal.Undo.{Workspace, Host, answered, already_undone, to_undone}
use liu_he.Journal.Careful.{IsCareful, restore_journal-IsCareful}
use liu_he.Journal.Recover.{recover_txn, assets_lost}
use liu_he.Journal.Judged.{recover_txn-unlisted}
use liu_he.Journal.Prune.{PruneOptions, prune_journals}
use liu_he.Journal.Overdue.{IsOverdue}
use liu_he.Journal.Swept.{IsCalled, prune_journals-swept}
use liu_he.Journal.Batch.{restore_journal}
use liu_he.Journal.Undone.{write_done, IsReverted, restore_journal-reverts}

-- a hash that tells all contents apart
abbrev pub hash : Text → Text
hash s = 1 ∷ s

pub hash-injective : (a b : Text) → hash a ≡ hash b → a ≡ b
hash-injective a b e = tail-eq_of_cons-eq e

abbrev pub nobody : ℕ → Bool
nobody pid = false

abbrev pub edit : Intent
edit = record {
  txn_id = codes "txn_1";
  own_pid = 7;
  file = codes "a.js";
  content = codes "old";
  creates = false;
  batch_id = [];
  now = codes "1";
}

abbrev pub files : Files
files path = if path === codes "a.js" then some (codes "old") else none

pub edit-MayDie : MayDie nobody edit (codes "new") files
edit-MayDie = (refl, refl, λ e. cc)

recover-after_crash_example :
    let d = crash_after 7 hash edit (codes "new") files in
    IsSettled hash nobody none
      (codes "2")
      edit
      (codes "new")
      d.files
      (restart hash nobody none (codes "2") d.files d.journal)
recover-after_crash_example =
    recover-after_crash hash nobody none (codes "2") hash-injective (λ a. refl) 7 edit (codes "new")
      files edit-MayDie

abbrev pub open_host : Host
open_host = record {
  is_blocked = λ file. false;
  is_locked = λ file. false;
  leaves_backup = λ file. false;
  links_out = λ id. false;
}

abbrev pub no_order : Text → Text → Bool
no_order a b = false

abbrev workspace : Workspace
workspace = record { txns = []; files = files }

restore_journal-reverts_example :
    IsReverted hash open_host edit workspace (write_done hash edit (codes "new") workspace) (
      restore_journal no_order hash open_host
        (codes "txn_1")
        (write_done hash edit (codes "new") workspace))
    × (restore_journal no_order hash open_host
          (codes "txn_1")
          (restore_journal no_order hash open_host
            (codes "txn_1")
            (write_done hash edit (codes "new") workspace)).1
        ≡ (
          answered already_undone [] [],
          (restore_journal no_order hash open_host
              (codes "txn_1")
              (write_done hash edit (codes "new") workspace)).1,
        ))
restore_journal-reverts_example =
    restore_journal-reverts no_order hash open_host hash-injective edit (codes "new") workspace refl
      refl (refl, refl, refl, refl) refl

-- a write of the file that somebody has changed since
abbrev written_state : StateFile
written_state = to_committed (codes "1") (to_staged (hash (codes "mine")) (first_state edit))

abbrev pub manifest : Manifest
manifest = record { file = codes "a.js"; created_at = codes "1" }

abbrev pub written : Txn
written = record {
  txn_id = codes "txn_1";
  name_pid = 7;
  pid = 7;
  backup = some (codes "older");
  manifest = some manifest;
  state = parsed written_state;
}

abbrev changed : Workspace
changed = record { txns = written ∷ []; files = files }

restore_journal-IsCareful_example :
    IsCareful hash written_state
      (codes "a.js")
      (some (codes "older"))
      changed
      (restore_journal no_order hash open_host (codes "txn_1") changed)
restore_journal-IsCareful_example =
    restore_journal-IsCareful no_order hash open_host (codes "txn_1") changed written written_state
      manifest refl refl refl refl refl

abbrev undone_state : StateFile
undone_state = to_undone written_state

abbrev undone_txn : Txn
undone_txn = record written { state = parsed undone_state }

recover_txn-unlisted_example : recover_txn hash nobody none (codes "2") files undone_txn ≡ (
  some (record undone_txn { state = parsed (record undone_state { state = needs_review }) }),
  some assets_lost,
)
unfolding journal_writer_alive
recover_txn-unlisted_example =
    recover_txn-unlisted hash nobody none (codes "2") files undone_txn undone_state manifest refl
      refl refl (inl refl)

abbrev sweep_options : PruneOptions
sweep_options = record { max_age_hours = 1; dry_run = false; force = true }

abbrev no_date : Text → Option ℕ
no_date s = none

abbrev long_ago : Text → Option ℕ
long_ago id = some 0

prune_journals-swept_example :
    let r = prune_journals no_date long_ago sweep_options 4000000 (written ∷ []) none in
    ((t : Txn)
      → In t (written ∷ [])
      → In t r.txns
        ⊎ ((false ≡ false)
            × IsCalled sweep_options 4000000 none
            × IsOverdue no_date long_ago sweep_options 4000000 t))
    × ((t : Txn)
        → In t r.txns
        → In t (written ∷ [])
          × (false ≡ false
              → IsCalled sweep_options 4000000 none
              → IsOverdue no_date long_ago sweep_options 4000000 t
              → ⊥))
    × (false ≡ false → r.pruned + length r.txns ≡ 1)
prune_journals-swept_example =
    prune_journals-swept no_date long_ago sweep_options 4000000 (written ∷ []) none
