-- ===== src/Journal/Careful.antt =====
-- What restoreJournal of malong/write-journal.js may do with a single write, whatever the journal says.
use liu_he.Base.{
  ◌≡◌, refl, sym, ap, subst, ◌∙◌, ◌⊎◌, inl, inr, Bool, true, false, Bool-cases, Option, none, some,
  List, [],
}
use liu_he.Base.Text.{Text, missing-cases, ◌===◌, is_missing, same-cases}
use liu_he.Journal.Batch.{restore_journal}
use liu_he.Journal.{parsed, StateFile, Manifest, Txn}
use liu_he.Journal.Put.{put_file-other}
use liu_he.Journal.Undo.{
  Workspace, Host, UndoError, UndoReply, refused, answered, UndoStatus, undo_single, undo_backup,
  undo_created, undo_edit, is_undone, is_committed, is_foreign, mark_undone, write_back, find_txn,
  is_safe_txn_id,
}

module _ (hash : Text → Text) where
  -- what the write had put there, if it recorded a hash
  abbrev pub IsOwn : StateFile → Text → Type 0
  IsOwn s content = (s.new_hash ≡ []) ⊎ (hash content ≡ s.new_hash)

  not_foreign-IsOwn :
      (s : StateFile) (content : Text) → is_foreign hash s content ≡ false → IsOwn s content
  not_foreign-IsOwn s content e = elim (missing-cases s.new_hash) [
    | inl h ↦ inl h.1
    | inr h ↦ elim (same-cases (hash content) s.new_hash) [
      | inl k ↦ inr k.1
      | inr k ↦ let never = (rw (h.0, k.0) at e) in cc
    ]
  ]

  -- Either it was refused and nothing has changed, or at most the file of the manifest has, which held
  -- what the write had put there, and it is as the backup or gone.
  abbrev pub IsCareful : StateFile → Text → Option Text → Workspace → UndoReply × Workspace → Type 0
  IsCareful s file backup w r =
      ((code : UndoError) × (r ≡ (refused code, w)))
      ⊎ (((status : UndoStatus) × (done : List Text) × (r.0 ≡ answered status done []))
          × ((path : Text)
              → (r.1.files path ≡ w.files path)
                ⊎ ((path ≡ file)
                    × ((found : Text) × (w.files path ≡ some found) × IsOwn s found)
                    × ((r.1.files path ≡ none) ⊎ (r.1.files path ≡ backup)))))

module _ (hash : Text → Text) (host : Host) where
  written_back :
      (s : StateFile) (file : Text) (backup content : Option Text) (w : Workspace) (id found : Text)
      → w.files file ≡ some found
      → is_foreign hash s found ≡ false
      → (content ≡ none) ⊎ (content ≡ backup)
      → (path : Text)
      → let w' = mark_undone id (write_back file content w) in
        (w'.files path ≡ w.files path)
        ⊎ ((path ≡ file)
            × ((found : Text) × (w.files path ≡ some found) × IsOwn hash s found)
            × ((w'.files path ≡ none) ⊎ (w'.files path ≡ backup)))
  written_back s file backup content w id found h k c path = elim (same-cases path file) [
    | inl e ↦ inr (e.1, (found, ap w.files e.1 ∙ h, not_foreign-IsOwn hash s found k), rw e.0 c)
    | inr e ↦ inl (put_file-other file path content w.files e.1)
  ]

  IsCareful-created :
      (id : Text) (s : StateFile) (file : Text) (backup : Option Text) (w : Workspace)
      (o : Option Text)
      → w.files file ≡ o
      → IsCareful hash s file backup w (undo_created hash host id s file w o)
  IsCareful-created id s file backup w none h = inr ((_, _, refl), λ path. inl refl)
  IsCareful-created id s file backup w (some c) h = elim (Bool-cases (is_foreign hash s c)) [
    | inl e ↦ rw e (inl (_, refl))
    | inr e ↦ rw e (inr ((_, _, refl), written_back s file backup none w id c h e (inl refl)))
  ]

  IsCareful-edit :
      (id : Text) (s : StateFile) (file b : Text) (w : Workspace) (o : Option Text)
      → w.files file ≡ o
      → IsCareful hash s file (some b) w (undo_edit hash host id s file b w o)
  IsCareful-edit id s file b w none h = inl (_, refl)
  IsCareful-edit id s file b w (some c) h = elim (Bool-cases (hash c === hash b)) [
    | inl k ↦ rw k (inr ((_, _, refl), λ path. inl refl))
    | inr k ↦ elim (Bool-cases (is_foreign hash s c)) [
      | inl e ↦ rw (k, e) (inl (_, refl))
      | inr e ↦
          rw (k, e)
            (inr ((_, _, refl), written_back s file (some b) (some b) w id c h e (inr refl)))
    ]
  ]

  IsCareful-backup :
      (id : Text) (s : StateFile) (file : Text) (w : Workspace) (b : Option Text)
      → IsCareful hash s file b w (undo_backup hash host id s file w b)
  IsCareful-backup id s file w none = inl (_, refl)
  IsCareful-backup id s file w (some b) = elim (Bool-cases (host.links_out id)) [
    | inl e1 ↦ rw e1 (inl (_, refl))
    | inr e1 ↦ elim (Bool-cases (host.is_locked file)) [
      | inl e2 ↦ rw (e1, e2) (inl (_, refl))
      | inr e2 ↦ elim (Bool-cases s.creates) [
        | inl e3 ↦ simp (e1, e2, e3) (IsCareful-created id s file (some b) w (w.files file) refl)
        | inr e3 ↦ simp (e1, e2, e3) (IsCareful-edit id s file b w (w.files file) refl)
      ]
    ]
  ]

  undo_single-IsCareful :
      (t : Txn) (s : StateFile) (m : Manifest) (w : Workspace)
      → IsCareful hash s m.file t.backup w (undo_single hash host t s m w)
  undo_single-IsCareful t s m w = elim (Bool-cases (is_undone s.state)) [
    | inl e1 ↦ rw e1 (inr ((_, _, refl), λ path. inl refl))
    | inr e1 ↦ elim (Bool-cases (is_committed s.state)) [
      | inr e2 ↦ rw (e1, e2) (inl (_, refl))
      | inl e2 ↦ elim (Bool-cases (host.is_blocked m.file)) [
        | inl e3 ↦ rw (e1, e2, e3) (inl (_, refl))
        | inr e3 ↦ elim (Bool-cases (host.leaves_backup m.file)) [
          | inl e4 ↦ rw (e1, e2, e3, e4) (inl (_, refl))
          | inr e4 ↦ simp (e1, e2, e3, e4) (IsCareful-backup t.txn_id s m.file w t.backup)
        ]
      ]
    ]
  ]

module _ (later : Text → Text → Bool) (hash : Text → Text) (host : Host) where
  named-single :
      (id : Text) (w : Workspace) (t : Txn) (s : StateFile) (m : Manifest)
      → is_safe_txn_id id ≡ true
      → find_txn id w.txns ≡ some t
      → t.state ≡ parsed s
      → t.manifest ≡ some m
      → is_missing s.batch_id ≡ true
      → restore_journal later hash host id w ≡ undo_single hash host t s m w
  unfolding restore_journal
  named-single id w t s m e1 e2 e3 e4 e5 = rw (e1, e2, e3, e4, e5) refl

  -- For a write that belongs to no batch, whatever the journal says, an undo is either refused and
  -- changes nothing, or changes at most the file of the manifest; a file that it changes held the
  -- content that the write had recorded (or no hash was recorded), and is afterwards gone or as
  -- the backup.
  pub restore_journal-IsCareful :
      (id : Text) (w : Workspace) (t : Txn) (s : StateFile) (m : Manifest)
      → is_safe_txn_id id ≡ true
      → find_txn id w.txns ≡ some t
      → t.state ≡ parsed s
      → t.manifest ≡ some m
      → is_missing s.batch_id ≡ true
      → IsCareful hash s m.file t.backup w (restore_journal later hash host id w)
  restore_journal-IsCareful id w t s m e1 e2 e3 e4 e5 =
      subst (IsCareful hash s m.file t.backup w) (sym (named-single id w t s m e1 e2 e3 e4 e5))
        (undo_single-IsCareful hash host t s m w)
