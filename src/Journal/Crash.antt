-- ===== src/Journal/Crash.antt =====
-- The write of writeSymbol in malong/write-runtime.js between its journal and its commit, step by step,
-- and a crash behind any of the steps: what recovery makes of the journal, and what the file holds.
use liu_he.Base.{ℕ, suc, ◌≡◌, ◌⊎◌, ◌≢◌, Bool, true, false, Option, none, some, List, [], ◌∷◌, take}
use liu_he.Base.Text.{Text}
use liu_he.Journal.{
  Txn, StateFile, parsed, committed, Files, Intent, put_file, update_journal_state, make_dir,
  note_pid, back_up, write_manifest, write_state, to_staged, to_committed, create_journal,
}
use liu_he.Journal.Recover.{recover_txn}
use liu_he.Journal.Judged.{content_before, IsDropped}

-- the directory of one write, and the files
pub record WriteDisk : Type 0 where
  pub journal : Option Txn
  pub files : Files

abbrev on_journal : (Txn → Txn) → WriteDisk → WriteDisk
on_journal f d = elim d.journal [ none ↦ d | some t ↦ record d { journal = some (f t) } ]

abbrev pub rename_over : Text → Text → WriteDisk → WriteDisk
rename_over file content d = record d { files = put_file file (some content) d.files }

-- what the write puts on the disk, in its order
abbrev pub write_steps : (Text → Text) → Intent → Text → List (WriteDisk → WriteDisk)
write_steps hash i content =
    (λ d. record d { journal = some (make_dir i) })
    ∷ on_journal (note_pid i)
    ∷ on_journal (back_up i)
    ∷ on_journal (write_manifest i)
    ∷ on_journal (write_state i)
    ∷ on_journal (update_journal_state (to_staged (hash content)))
    ∷ rename_over i.file content
    ∷ on_journal (update_journal_state (to_committed i.now))
    ∷ []

abbrev pub run_steps : List (WriteDisk → WriteDisk) → WriteDisk → WriteDisk
run_steps [] d = d
run_steps (f ∷ fs) d = run_steps fs (f d)

-- the directory of a write that is about to take place
abbrev pub staged_write : (Text → Text) → Intent → Text → Txn
staged_write hash i content = update_journal_state (to_staged (hash content)) (create_journal i)

-- the disk when the process dies after `n` steps
unfoldable pub crash_after : ℕ → (Text → Text) → Intent → Text → Files → WriteDisk
crash_after n hash i content files =
    run_steps (take n (write_steps hash i content)) (record { journal = none; files = files })

abbrev pub before_write : Intent → Option Text
before_write i = content_before i.creates i.content

-- a directory of this write that says committed, with what an undo needs
abbrev pub IsWritten : (Text → Text) → Intent → Text → Option Txn → Type 0
IsWritten hash i content none = ⊥
IsWritten hash i content (some t) =
    (s : StateFile) × (t.state ≡ parsed s)
    × (s.state ≡ committed)
    × (s.creates ≡ i.creates)
    × (s.new_hash ≡ hash content)
    × (t.txn_id ≡ i.txn_id)
    × (t.backup ≡ some i.content)
    × (t.manifest ≡ some (record { file = i.file; created_at = i.now }))

-- What a write relies on: its process is gone, the file is as the write found it, and a file that it
-- creates gets some content.
abbrev pub MayDie : (ℕ → Bool) → Intent → Text → Files → Type 0
MayDie running i content files =
    (running i.own_pid ≡ false)
    × (files i.file ≡ before_write i)
    × (i.creates ≡ true → (i.content ≡ []) × (content ≢ []))

module _ (hash : Text → Text) (running : ℕ → Bool) (index : Option (Text → Bool)) (now : Text) where
  -- the directory after a restart, with these files
  abbrev pub restart : Files → Option Txn → Option Txn
  restart files none = none
  restart files (some t) = (recover_txn hash running index now files t).0

  abbrev pub IsSettled : Intent → Text → Files → Option Txn → Type 0
  IsSettled i content files o =
      (IsDropped i.txn_id o × (files i.file ≡ before_write i))
      ⊎ (IsWritten hash i content o × (files i.file ≡ some content))

-- the write has reached its file
abbrev pub is_renamed : ℕ → Bool
is_renamed (suc (suc (suc (suc (suc (suc (suc n))))))) = true
is_renamed _ = false

abbrev pub add_journal : Option Txn → List Txn → List Txn
add_journal none txns = txns
add_journal (some t) txns = t ∷ txns
