-- ===== src/Journal/Undone.antt =====
-- A single write that is undone by restoreJournal of malong/write-journal.js.
use liu_he.Base.{
  ◌≡◌, refl, sym, ap, subst, ◌∙◌, inl, inr, Bool, true, false, Bool-cases, Option, none, some, List,
  [], ◌∷◌,
}
use liu_he.Base.Text.{Text, ===_refl, is_missing, same-cases}
use liu_he.Journal.{
  StateFile, Intent, first_state, to_staged, to_committed, update_journal_state, create_journal,
}
use liu_he.Journal.Judged.{content_before}
use liu_he.Journal.Crash.{add_journal, crash_after, before_write}
use liu_he.Journal.Undo.{
  Workspace, Host, UndoReply, answered, newly_undone, already_undone, already_restored, undo_backup,
  undo_created, undo_edit, is_foreign, UndoStatus, update_txn, to_undone, is_safe_txn_id,
}
use liu_he.Journal.Batch.{restore_journal}
use liu_he.Journal.Put.{put_file-same, put_file-back, put_file-unchanged}

-- the workspace behind a write that has come to its end
abbrev pub write_done : (Text → Text) → Intent → Text → Workspace → Workspace
write_done hash i content w =
    let d = crash_after 8 hash i content w.files in
    record { txns = add_journal d.journal w.txns; files = d.files }

-- the host lets the undo of this write pass
abbrev pub IsOpen : Host → Intent → Type 0
IsOpen host i =
    (host.is_blocked i.file ≡ false)
    × (host.leaves_backup i.file ≡ false)
    × (host.links_out i.txn_id ≡ false)
    × (host.is_locked i.file ≡ false)

-- the state of a write that has come to its end
abbrev done_state : (Text → Text) → Intent → Text → StateFile
done_state hash i content = to_committed i.now (to_staged (hash content) (first_state i))

module _ (hash : Text → Text) (host : Host) where
  -- The write is taken back, and the answer says so.
  abbrev pub IsReverted : Intent → Workspace → Workspace → UndoReply × Workspace → Type 0
  IsReverted i w w' r =
      ((status : UndoStatus) × (done : List Text) × (r.0 ≡ answered status done []))
      × ((path : Text) → r.1.files path ≡ w.files path)
      × (r.1.txns ≡ update_txn i.txn_id to_undone w'.txns)

  own-content :
      (i : Intent) (content : Text) → is_foreign hash (done_state hash i content) content ≡ false
  own-content i content = elim (Bool-cases (is_missing (hash content))) [
    | inl e ↦ rw e refl
    | inr e ↦ rw (e, ===_refl (hash content)) refl
  ]

  created-IsReverted :
      (i : Intent) (content : Text) (w : Workspace)
      → w.files i.file ≡ none
      → let w' = write_done hash i content w in
        IsReverted i w w'
          (undo_created hash host i.txn_id (done_state hash i content) i.file w' (some content))
  unfolding crash_after
  created-IsReverted i content w h =
      rw (own-content i content) (
        (newly_undone, i.file ∷ [], refl),
        put_file-back i.file none (some content) w.files h,
        refl,
      )

  edit-IsReverted :
      ((a b : Text) → hash a ≡ hash b → a ≡ b)
      → (i : Intent) (content : Text) (w : Workspace) → w.files i.file ≡ some i.content
      → let w' = write_done hash i content w in
        IsReverted i w w' (
          undo_edit hash host i.txn_id
            (done_state hash i content)
            i.file
            i.content
            w'
            (some content))
  unfolding crash_after
  edit-IsReverted injective i content w h = elim (same-cases (hash content) (hash i.content)) [
    | inl k ↦ rw k.0 (
      (already_restored, [], refl),
      put_file-unchanged i.file (some content) w.files
          (h ∙ ap some (sym (injective content i.content k.1))),
      refl,
    )
    | inr k ↦
        rw (k.0, own-content i content)
          (
            (newly_undone, i.file ∷ [], refl),
            put_file-back i.file (some i.content) (some content) w.files h,
            refl,
          )
  ]

  backup-created :
      (id : Text) (s : StateFile) (file b : Text) (w : Workspace) (o : Option Text)
      → host.links_out id ≡ false
      → host.is_locked file ≡ false
      → s.creates ≡ true
      → w.files file ≡ o
      → undo_backup hash host id s file w (some b) ≡ undo_created hash host id s file w o
  backup-created id s file b w o el ek ec ef =
      simp (el, ek, ec) (ap (undo_created hash host id s file w) ef)

  backup-edit :
      (id : Text) (s : StateFile) (file b : Text) (w : Workspace) (o : Option Text)
      → host.links_out id ≡ false
      → host.is_locked file ≡ false
      → s.creates ≡ false
      → w.files file ≡ o
      → undo_backup hash host id s file w (some b) ≡ undo_edit hash host id s file b w o
  backup-edit id s file b w o el ek ec ef =
      simp (el, ek, ec) (ap (undo_edit hash host id s file b w) ef)

  backup-IsReverted :
      ((a b : Text) → hash a ≡ hash b → a ≡ b)
      → (i : Intent) (content : Text) (w : Workspace) → w.files i.file ≡ before_write i
      → host.links_out i.txn_id ≡ false
      → host.is_locked i.file ≡ false
      → let w' = write_done hash i content w in
        IsReverted i w w'
          (undo_backup hash host i.txn_id (done_state hash i content) i.file w' (some i.content))
  unfolding crash_after
  backup-IsReverted injective i content w h el ek =
      let s = done_state hash i content in
      let w' = write_done hash i content w in
      let found = put_file-same i.file (some content) w.files in
      elim (Bool-cases i.creates) [
        | inl e ↦
            subst (IsReverted i w w')
              (sym (backup-created i.txn_id s i.file i.content w' (some content) el ek e found))
              (created-IsReverted i content w (h ∙ ap (λ c. content_before c i.content) e))
        | inr e ↦
            subst (IsReverted i w w')
              (sym (backup-edit i.txn_id s i.file i.content w' (some content) el ek e found))
              (edit-IsReverted injective i content w (h ∙ ap (λ c. content_before c i.content) e))
      ]

module _ (later : Text → Text → Bool) (hash : Text → Text) (host : Host) where
  opened :
      (i : Intent) (content : Text) (w : Workspace)
      → is_safe_txn_id i.txn_id ≡ true
      → is_missing i.batch_id ≡ true
      → host.is_blocked i.file ≡ false
      → host.leaves_backup i.file ≡ false
      → restore_journal later hash host i.txn_id (write_done hash i content w)
        ≡ undo_backup hash host i.txn_id
            (done_state hash i content)
            i.file
            (write_done hash i content w)
            (some i.content)
  unfolding restore_journal crash_after update_journal_state create_journal
  opened i content w safe single eb el = rw (safe, ===_refl i.txn_id, single, eb, el) refl

  undone-again :
      (i : Intent) (content : Text) (w : Workspace) (r : Workspace)
      → is_safe_txn_id i.txn_id ≡ true
      → is_missing i.batch_id ≡ true
      → r.txns ≡ update_txn i.txn_id to_undone (write_done hash i content w).txns
      → restore_journal later hash host i.txn_id r ≡ (answered already_undone [] [], r)
  unfolding restore_journal crash_after update_journal_state create_journal
  undone-again i content w r safe single e =
      rw (safe, e, ===_refl i.txn_id, ===_refl i.txn_id, single) refl

  -- If the host has no objection, hashes tell contents apart, and the write belongs to no batch
  -- and found the file as its backup says, then undoing a write that has come to its end answers
  -- without a failure, gives every file its content from before the write, and marks that write
  -- alone as undone; undoing it once more changes nothing and says that it was undone already.
  pub restore_journal-reverts :
      ((a b : Text) → hash a ≡ hash b → a ≡ b)
      → (i : Intent) (content : Text) (w : Workspace) → is_safe_txn_id i.txn_id ≡ true
      → is_missing i.batch_id ≡ true
      → IsOpen host i
      → w.files i.file ≡ before_write i
      → let r = restore_journal later hash host i.txn_id (write_done hash i content w) in
        IsReverted hash host i w (write_done hash i content w) r
        × (restore_journal later hash host i.txn_id r.1 ≡ (answered already_undone [] [], r.1))
  restore_journal-reverts injective i content w safe single o h =
      let run = opened i content w safe single o.0 o.1 in
      let once =
        subst (IsReverted hash host i w (write_done hash i content w)) (sym run)
          (backup-IsReverted hash host injective i content w h o.2 o.3) in
      (once, undone-again i content w _ safe single once.2)
