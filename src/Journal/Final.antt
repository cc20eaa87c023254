-- ===== src/Journal/Final.antt =====
-- What restoreBatchJournals of malong/write-journal.js leaves of a batch of which no member is in the way.
use liu_he.Base.{
  ◌≡◌, refl, sym, ap, subst, ◌∙◌, ◌⊎◌, inl, inr, ◌≢◌, Bool, true, false, Bool-cases, Option, none,
  some, List, [], ◌∷◌, All, All-map, All-map2,
}
use mathlib.Core.List.{cons≢nil}
use liu_he.Base.Text.{Text, same-cases}
use liu_he.Journal.Undo.{UndoError, Workspace, find_txn, Host, is_undone, is_committed, is_foreign}
use liu_he.Journal.Batch.{
  Member, Step, Judgement, blocked, planned, Progress, plan_of, judge_member, judge_backup,
  judge_created, judge_edit, start_from, take_step,
}
use liu_he.Journal.Stepped.{
  IsReadable, IsUndone, IsUndone-mark, IsReadable-mark, find_txn-IsUndone, undo_all, result,
  take_step-here, take_step-elsewhere, take_step-marks,
}

-- what the file of a member was before its write
abbrev pub was : Bool → Option Text → Option Text
was true backup = none
was false backup = backup

-- The file is as before the write, or, if the member had been undone before, as it was found.
abbrev pub IsBack : Member → Option Text → Option Text → Type 0
IsBack m found content =
    (content ≡ was m.state.creates m.txn.backup)
    ⊎ ((is_undone m.state.state ≡ true) × (content ≡ found))

-- files that are all different
abbrev pub Apart : List Member → Type 0
Apart [] = Unit
Apart (m ∷ members) = All (λ m'. m.manifest.file ≢ m'.manifest.file) members × Apart members

Judgement-cases :
    (v : Judgement)
    → ((code : UndoError) × (v ≡ blocked code)) ⊎ ((step : Step) × (v ≡ planned step))
Judgement-cases (blocked code) = inl (code, refl)
Judgement-cases (planned step) = inr (step, refl)

module _ (hash : Text → Text) (host : Host) where
  -- A plan brings the file back.
  abbrev IsSound : Member → Option Text → Judgement → Type 0
  IsSound m found (blocked code) = Unit
  IsSound m found (planned step) = IsBack m found (result hash host step found)

  created-IsSound :
      (m : Member) (o : Option Text)
      → m.state.creates ≡ true
      → IsSound m o (judge_created hash host m.state o)
  created-IsSound m none e = inl (rw e refl)
  created-IsSound m (some c) e = elim (Bool-cases (is_foreign hash m.state c)) [
    | inl k ↦ rw k tt
    | inr k ↦ rw k (inl (rw e refl))
  ]

  edit-IsSound :
      ((a b : Text) → hash a ≡ hash b → a ≡ b)
      → (m : Member) (b : Text) (o : Option Text) → m.state.creates ≡ false
      → m.txn.backup ≡ some b
      → IsSound m o (judge_edit hash host m.state b o)
  edit-IsSound injective m b none e eb = tt
  edit-IsSound injective m b (some c) e eb = elim (same-cases (hash c) (hash b)) [
    | inl k ↦ rw k.0 (inl (rw (e, eb, injective c b k.1) refl))
    | inr k ↦ elim (Bool-cases (is_foreign hash m.state c)) [
      | inl f ↦ rw (k.0, f) tt
      | inr f ↦ rw (k.0, f) (inl (rw (e, eb) refl))
    ]
  ]

  judge_backup-IsSound :
      ((a b : Text) → hash a ≡ hash b → a ≡ b)
      → (m : Member) (b o : Option Text) → m.txn.backup ≡ b
      → IsSound m o (judge_backup hash host m.state b o)
  judge_backup-IsSound injective m none o eb = tt
  judge_backup-IsSound injective m (some b) o eb = elim (Bool-cases m.state.creates) [
    | inl k ↦ simp k (created-IsSound m o k)
    | inr k ↦ simp k (edit-IsSound injective m b o k eb)
  ]

  judge_member-IsSound :
      ((a b : Text) → hash a ≡ hash b → a ≡ b)
      → (w : Workspace) (m : Member)
      → IsSound m (w.files m.manifest.file) (judge_member hash host w m)
  unfolding judge_member
  judge_member-IsSound injective w m = elim (Bool-cases (is_undone m.state.state)) [
    | inl u ↦ rw u (inr (u, refl))
    | inr u ↦ elim (Bool-cases (is_committed m.state.state)) [
      | inl c ↦ elim (Bool-cases (host.is_blocked m.manifest.file)) [
        | inl b ↦ rw (u, c, b) tt
        | inr b ↦
            rw (u, c, b)
              (judge_backup-IsSound injective m m.txn.backup (w.files m.manifest.file) refl)
      ]
      | inr c ↦ rw (u, c) tt
    ]
  ]

  -- nobody else writes to their files
  abbrev pub AreFree : List Member → Type 0
  AreFree = All (λ m. host.is_locked m.manifest.file ≡ false)

  -- what an undo of these members leaves, if none is in the way
  abbrev pub left_by : Workspace → List Member → Progress
  left_by w members = undo_all hash host (start_from w) (plan_of hash host w members).1

  pub left_by-elsewhere :
      (w : Workspace) (members : List Member) (file : Text)
      → AreFree members
      → All (λ m. file ≢ m.manifest.file) members
      → (left_by w members).world.files file ≡ w.files file
  left_by-elsewhere w [] file free apart = refl
  left_by-elsewhere w (m ∷ members) file free apart =
      elim (Judgement-cases (judge_member hash host w m)) [
        | inl v ↦ rw v.1 (left_by-elsewhere w members file free.1 apart.1)
        | inr v ↦ rw v.1 (
            take_step-elsewhere hash host (left_by w members) m v.0 file apart.0 free.0
            ∙ left_by-elsewhere w members file free.1 apart.1)
      ]

  pub left_by-failures :
      (w : Workspace) (members : List Member) → AreFree members → (left_by w members).failures ≡ []
  left_by-failures w [] free = refl
  left_by-failures w (m ∷ members) free = elim (Judgement-cases (judge_member hash host w m)) [
    | inl v ↦ rw v.1 (left_by-failures w members free.1)
    | inr v ↦ rw v.1 (
        (take_step-marks hash host (left_by w members) m v.0 free.0).1
        ∙ left_by-failures w members free.1)
  ]

  left_by-IsReadable :
      (w : Workspace) (members : List Member) (id : Text)
      → AreFree members
      → IsReadable (find_txn id w.txns)
      → IsReadable (find_txn id (left_by w members).world.txns)
  left_by-IsReadable w [] id free h = h
  left_by-IsReadable w (m ∷ members) id free h =
      elim (Judgement-cases (judge_member hash host w m)) [
        | inl v ↦ rw v.1 (left_by-IsReadable w members id free.1 h)
        | inr v ↦ rw v.1 (
            subst (λ ts. IsReadable (find_txn id ts))
              (sym (take_step-marks hash host (left_by w members) m v.0 free.0).0)
              (IsReadable-mark id m.txn.txn_id (left_by w members).world.txns
                (left_by-IsReadable w members id free.1 h)))
      ]

  left_by-step :
      (w : Workspace) (m : Member) (members : List Member) (step : Step)
      → judge_member hash host w m ≡ planned step
      → left_by w (m ∷ members) ≡ take_step hash host (left_by w members) (m, step)
  left_by-step w m members step e = rw e refl

  pub left_by-IsUndone :
      (w : Workspace) (members : List Member)
      → AreFree members
      → (plan_of hash host w members).0 ≡ []
      → All (λ m. IsReadable (find_txn m.txn.txn_id w.txns)) members
      → All (λ m. IsUndone (find_txn m.txn.txn_id (left_by w members).world.txns)) members
  left_by-IsUndone w [] free none_blocked readable = tt
  left_by-IsUndone w (m ∷ members) free none_blocked readable =
      elim (Judgement-cases (judge_member hash host w m)) [
        | inl v ↦ absurd (cons≢nil (rw v.1 at none_blocked))
        | inr v ↦
            let marks = sym (take_step-marks hash host (left_by w members) m v.0 free.0).0 in
            let before = (left_by w members).world.txns in
            subst (λ p. All (λ m'. IsUndone (find_txn m'.txn.txn_id p.world.txns)) (m ∷ members))
              (sym (left_by-step w m members v.0 v.1))
              (
                subst (λ ts. IsUndone (find_txn m.txn.txn_id ts)) marks
                    (find_txn-IsUndone m.txn.txn_id before
                      (left_by-IsReadable w members m.txn.txn_id free.1 readable.0)),
                All-map (λ m'. IsUndone (find_txn m'.txn.txn_id before))
                    (λ m'. IsUndone (
                      find_txn m'.txn.txn_id
                        (take_step hash host (left_by w members) (m, v.0)).world.txns))
                    (λ m' h.
                      subst (λ ts. IsUndone (find_txn m'.txn.txn_id ts)) marks
                        (IsUndone-mark m'.txn.txn_id m.txn.txn_id before h))
                    members (left_by-IsUndone w members free.1 (rw v.1 at none_blocked) readable.1),
              )
      ]

  pub left_by-IsBack :
      ((a b : Text) → hash a ≡ hash b → a ≡ b)
      → (w : Workspace) (members : List Member) → Apart members
      → AreFree members
      → (plan_of hash host w members).0 ≡ []
      → All
          (λ m.
            IsBack m (w.files m.manifest.file) ((left_by w members).world.files m.manifest.file))
          members
  left_by-IsBack injective w [] apart free none_blocked = tt
  left_by-IsBack injective w (m ∷ members) apart free none_blocked =
      elim (Judgement-cases (judge_member hash host w m)) [
        | inl v ↦ absurd (cons≢nil (rw v.1 at none_blocked))
        | inr v ↦
            let found = w.files m.manifest.file in
            let later = take_step hash host (left_by w members) (m, v.0) in
            let sound = subst (IsSound m found) v.1 (judge_member-IsSound injective w m) in
            let here =
              take_step-here hash host (left_by w members) m v.0 free.0
              ∙ ap (result hash host v.0)
                  (left_by-elsewhere w members m.manifest.file free.1 apart.0) in
            subst
              (λ p.
                All (λ m'. IsBack m' (w.files m'.manifest.file) (p.world.files m'.manifest.file))
                  (m ∷ members))
              (sym (left_by-step w m members v.0 v.1))
              (
                subst (IsBack m found) (sym here) sound,
                All-map2 (λ m'. m.manifest.file ≢ m'.manifest.file)
                    (λ m'.
                      IsBack m' (w.files m'.manifest.file)
                        ((left_by w members).world.files m'.manifest.file))
                    (λ m'.
                      IsBack m' (w.files m'.manifest.file) (later.world.files m'.manifest.file))
                    (λ m' ne h.
                      subst (IsBack m' (w.files m'.manifest.file))
                        (sym (
                          take_step-elsewhere hash host (left_by w members) m v.0 m'.manifest.file
                            (λ e. ne (sym e)) free.0))
                        h)
                    members apart.0
                    (left_by-IsBack injective w members apart.1 free.1 (rw v.1 at none_blocked)),
              )
      ]
