-- ===== src/Journal/Whole.antt =====
-- The undo of a batch by restoreBatchJournals of malong/write-journal.js takes back all of it or nothing.
use liu_he.Base.{
  ◌≡◌, refl, sym, ap, subst, ◌∙◌, ◌⊎◌, inl, inr, ◌≢◌, Bool, true, false, some, List, [], ◌∷◌, All,
}
use liu_he.Base.Text.{Text, is_missing}
use liu_he.Journal.{parsed, StateFile, Manifest, Txn}
use liu_he.Journal.Undo.{
  Workspace, is_safe_txn_id, find_txn, Host, UndoReply, UndoStatus, Fault, answered, batch_blocked,
}
use liu_he.Journal.Batch.{
  Member, Step, plan_of, run_plan, finish_batch, batch_status, restore_members,
  restore_batch_journals, restore_journal, members_of, start_from,
}
use liu_he.Journal.Blocked.{Names, plan-Names}
use liu_he.Journal.Stepped.{IsReadable, IsUndone, take_steps-reverse}
use liu_he.Journal.Final.{
  IsBack, Apart, AreFree, left_by, left_by-elsewhere, left_by-failures, left_by-IsUndone,
  left_by-IsBack,
}

Faults-cases : (l : List Fault) → (l ≡ []) ⊎ ((f : Fault) × (fs : List Fault) × (l ≡ f ∷ fs))
Faults-cases [] = inl refl
Faults-cases (f ∷ fs) = inr (f, fs, refl)

-- The answer is that the members are undone, and their files and their states are.
abbrev pub IsTakenBack : List Member → Workspace → UndoReply × Workspace → Type 0
IsTakenBack members w r =
    ((status : UndoStatus) × (done : List Text) × (r.0 ≡ answered status done []))
    × All (λ m. IsBack m (w.files m.manifest.file) (r.1.files m.manifest.file)) members
    × All (λ m. IsUndone (find_txn m.txn.txn_id r.1.txns)) members
    × ((file : Text) → All (λ m. file ≢ m.manifest.file) members → r.1.files file ≡ w.files file)

module _ (hash : Text → Text) (host : Host) where
  abbrev pub IsRefused : List Member → Workspace → UndoReply × Workspace → Type 0
  IsRefused members w r =
      ((fault : Fault) × (faults : List Fault) × (r ≡ (batch_blocked (fault ∷ faults), w))
        × All (Names hash host w members) (fault ∷ faults))

module _ (hash : Text → Text) (host : Host)
    (injective : (a b : Text) → hash a ≡ hash b → a ≡ b) where
  run_plan-refused :
      (w : Workspace) (plan : List Fault × List (Member × Step)) (f : Fault) (fs : List Fault)
      → plan.0 ≡ f ∷ fs
      → run_plan hash host w plan ≡ (batch_blocked (f ∷ fs), w)
  run_plan-refused w plan f fs e = ap (λ l. run_plan hash host w (l, plan.1)) e

  run_plan-left_by :
      (w : Workspace) (members : List Member)
      → (plan_of hash host w members).0 ≡ []
      → run_plan hash host w (plan_of hash host w members)
        ≡ finish_batch hash host (left_by hash host w members)
  run_plan-left_by w members e =
      ap (λ l. run_plan hash host w (l, (plan_of hash host w members).1)) e
      ∙ ap (finish_batch hash host)
          (take_steps-reverse hash host (start_from w) (plan_of hash host w members).1)

  pub restore_members-whole :
      (w : Workspace) (members : List Member)
      → Apart members
      → AreFree hash host members
      → All (λ m. IsReadable (find_txn m.txn.txn_id w.txns)) members
      → IsRefused hash host members w (restore_members hash host members w)
        ⊎ IsTakenBack members w (restore_members hash host members w)
  unfolding restore_members
  restore_members-whole w members apart free readable =
      elim (Faults-cases (plan_of hash host w members).0) [
        | inl e ↦
            let p = left_by hash host w members in
            inr (
              subst (IsTakenBack members w) (sym (run_plan-left_by w members e)) (
                (
                  batch_status hash host p.done p.failures,
                  p.done,
                  ap (answered (batch_status hash host p.done p.failures) p.done)
                      (left_by-failures hash host w members free),
                ),
                left_by-IsBack hash host injective w members apart free e,
                left_by-IsUndone hash host w members free e readable,
                λ file h. left_by-elsewhere hash host w members file free h,
              ))
        | inr e ↦ inl (
          e.0,
          e.1,
          run_plan-refused w (plan_of hash host w members) e.0 e.1 e.2,
          subst (All (Names hash host w members)) e.2 (plan-Names hash host w members),
        )
      ]

module _ (later : Text → Text → Bool) (hash : Text → Text) (host : Host) where
  named-batch :
      (id : Text) (w : Workspace) (t : Txn) (s : StateFile) (m : Manifest)
      → is_safe_txn_id id ≡ true
      → find_txn id w.txns ≡ some t
      → t.state ≡ parsed s
      → t.manifest ≡ some m
      → is_missing s.batch_id ≡ false
      → restore_journal later hash host id w
        ≡ restore_batch_journals later hash host (record { txn = t; state = s; manifest = m }) w
  unfolding restore_journal
  named-batch id w t s m e1 e2 e3 e4 e5 = rw (e1, e2, e3, e4, e5) refl

  -- When a caller undoes a write of a batch whose members have different files that nobody has
  -- locked, and states that can be read, and hashes tell contents apart, then either the answer
  -- lists members in the way, each with its directory, its file and a reason that is true of it, and
  -- nothing has changed, or no restoration failed, the file of each
  -- member is as before its write (or as it was found, if the member had been undone before), each
  -- member is marked as undone, and all other files are as they were.
  pub restore_journal-whole :
      ((a b : Text) → hash a ≡ hash b → a ≡ b)
      → (id : Text) (w : Workspace) (t : Txn) (s : StateFile) (m : Manifest)
      → is_safe_txn_id id ≡ true
      → find_txn id w.txns ≡ some t
      → t.state ≡ parsed s
      → t.manifest ≡ some m
      → is_missing s.batch_id ≡ false
      → let members = members_of later (record { txn = t; state = s; manifest = m }) w in
        Apart members
        → AreFree hash host members
        → All (λ m. IsReadable (find_txn m.txn.txn_id w.txns)) members
        → IsRefused hash host members w (restore_journal later hash host id w)
          ⊎ IsTakenBack members w (restore_journal later hash host id w)
  unfolding restore_batch_journals
  restore_journal-whole injective id w t s m e1 e2 e3 e4 e5 apart free readable =
      let members = members_of later (record { txn = t; state = s; manifest = m }) w in
      subst (λ r. IsRefused hash host members w r ⊎ IsTakenBack members w r)
        (sym (named-batch id w t s m e1 e2 e3 e4 e5))
        (restore_members-whole hash host injective w members apart free readable)
