-- ===== src/Journal/Blocked.antt =====
-- Why restoreBatchJournals of malong/write-journal.js refuses to undo a batch.
use liu_he.Base.{
  ◌≡◌, ◌≢◌, refl, inl, inr, true, false, Bool-cases, Option, none, some, List, [], ◌∷◌, All,
  All-map, In,
}
use liu_he.Base.Text.{Text, ◌===◌, same-cases, missing-cases}
use liu_he.Journal.{TxnState, committed, undone, committed_recovered, StateFile}
use liu_he.Journal.Undo.{
  UndoError, not_committed, path_blocked, journal_not_found, target_missing, external_change,
  txn_not_found, journal_unreadable, backup_escape, file_locked, Workspace, Host, Fault, is_undone,
  is_committed, is_foreign,
}
use liu_he.Journal.Batch.{
  Member, Judgement, blocked, planned, judge_created, judge_edit, judge_backup, judge_member,
  add_verdict, plan_of,
}

module _ (hash : Text → Text) (host : Host) where
  -- The reason is true of the member: its write has not come to its end, its path may not be touched, it
  -- has no backup, the file is gone that the write changed, or the file holds something that is not what
  -- the write noted.
  abbrev pub Why : Workspace → Member → UndoError → Type 0
  Why w m not_committed =
      (m.state.state ≢ undone) × (m.state.state ≢ committed) × (m.state.state ≢ committed_recovered)
  Why w m path_blocked = host.is_blocked m.manifest.file ≡ true
  Why w m journal_not_found = m.txn.backup ≡ none
  Why w m target_missing = (m.state.creates ≡ false) × (w.files m.manifest.file ≡ none)
  Why w m external_change =
      (content : Text) × (w.files m.manifest.file ≡ some content)
      × (m.state.new_hash ≢ [])
      × (hash content ≢ m.state.new_hash)
  Why w m txn_not_found = ⊥
  Why w m journal_unreadable = ⊥
  Why w m backup_escape = ⊥
  Why w m file_locked = ⊥

  -- The fault is that of a member which is in the way: it has the names of its directory and of its
  -- file, and a reason that is true of it.
  abbrev pub Names : Workspace → List Member → Fault → Type 0
  Names w members f =
      (m : Member) × In m members
      × (f.txn_id ≡ m.txn.txn_id)
      × (f.file ≡ m.manifest.file)
      × Why w m f.code

  abbrev IsJustified : Workspace → Member → Judgement → Type 0
  IsJustified w m (blocked code) = Why w m code
  IsJustified w m (planned step) = Unit

not_ended :
    (x : TxnState)
    → is_undone x ≡ false
    → is_committed x ≡ false
    → (x ≢ undone) × (x ≢ committed) × (x ≢ committed_recovered)
not_ended x h k = (
  λ e. let never : true ≡ false = rw e at h in cc,
  λ e. let never : true ≡ false = rw e at k in cc,
  λ e. let never : true ≡ false = rw e at k in cc,
)

foreign_parts :
    (hash : Text → Text) (s : StateFile) (content : Text)
    → is_foreign hash s content ≡ true
    → (s.new_hash ≢ []) × (hash content ≢ s.new_hash)
foreign_parts hash s content h = elim (missing-cases s.new_hash) [
  | inl (m, e) ↦ let never : false ≡ true = rw m at h in cc
  | inr (m, e) ↦ elim (same-cases (hash content) s.new_hash) [
    | inl (n, k) ↦ let never : false ≡ true = rw (m, n) at h in cc
    | inr (n, k) ↦ (e, k)
  ]
]

module _ (hash : Text → Text) (host : Host) where
  created-IsJustified :
      (w : Workspace) (m : Member) (o : Option Text)
      → w.files m.manifest.file ≡ o
      → IsJustified hash host w m (judge_created hash host m.state o)
  created-IsJustified w m none e = tt
  created-IsJustified w m (some c) e = elim (Bool-cases (is_foreign hash m.state c)) [
    | inl f ↦ let (a, b) = foreign_parts hash m.state c f in rw f (c, e, a, b)
    | inr f ↦ rw f tt
  ]

  edit-IsJustified :
      (w : Workspace) (m : Member) (backup : Text) (o : Option Text)
      → m.state.creates ≡ false
      → w.files m.manifest.file ≡ o
      → IsJustified hash host w m (judge_edit hash host m.state backup o)
  edit-IsJustified w m backup none c e = (c, e)
  edit-IsJustified w m backup (some x) c e = elim (Bool-cases (hash x === hash backup)) [
    | inl s ↦ rw s tt
    | inr s ↦ elim (Bool-cases (is_foreign hash m.state x)) [
      | inl f ↦ let (a, b) = foreign_parts hash m.state x f in rw (s, f) (x, e, a, b)
      | inr f ↦ rw (s, f) tt
    ]
  ]

  backup-IsJustified :
      (w : Workspace) (m : Member) (o : Option Text)
      → m.txn.backup ≡ o
      → IsJustified hash host w m (judge_backup hash host m.state o (w.files m.manifest.file))
  backup-IsJustified w m none e = e
  backup-IsJustified w m (some b) e = elim (Bool-cases m.state.creates) [
    | inl c ↦ simp c (created-IsJustified w m (w.files m.manifest.file) refl)
    | inr c ↦ simp c (edit-IsJustified w m b (w.files m.manifest.file) c refl)
  ]

  judge_member-IsJustified :
      (w : Workspace) (m : Member) → IsJustified hash host w m (judge_member hash host w m)
  unfolding judge_member
  judge_member-IsJustified w m = elim (Bool-cases (is_undone m.state.state)) [
    | inl u ↦ rw u tt
    | inr u ↦ elim (Bool-cases (is_committed m.state.state)) [
      | inr c ↦ simp (u, c) (not_ended m.state.state u c)
      | inl c ↦ elim (Bool-cases (host.is_blocked m.manifest.file)) [
        | inl b ↦ simp (u, c, b) refl
        | inr b ↦ simp (u, c, b) (backup-IsJustified w m m.txn.backup refl)
      ]
    ]
  ]

  Names-later :
      (w : Workspace) (m : Member) (members : List Member) (f : Fault)
      → Names hash host w members f
      → Names hash host w (m ∷ members) f
  Names-later w m members f (n, i, a, b, c) = (n, inr i, a, b, c)

  verdict-Names :
      (w : Workspace) (m : Member) (members : List Member) (j : Judgement)
      → IsJustified hash host w m j
      → All (Names hash host w members) (plan_of hash host w members).0
      → All
          (Names hash host w (m ∷ members))
          (add_verdict hash host m j (plan_of hash host w members)).0
  verdict-Names w m members (blocked code) e h = (
    (m, inl refl, refl, refl, e),
    All-map (Names hash host w members) (Names hash host w (m ∷ members)) (Names-later w m members)
        (plan_of hash host w members).0 h,
  )
  verdict-Names w m members (planned step) e h =
      All-map (Names hash host w members) (Names hash host w (m ∷ members))
        (Names-later w m members) (plan_of hash host w members).0 h

  pub plan-Names :
      (w : Workspace) (members : List Member)
      → All (Names hash host w members) (plan_of hash host w members).0
  plan-Names w [] = tt
  plan-Names w (m ∷ members) =
      verdict-Names w m members (judge_member hash host w m) (judge_member-IsJustified w m)
        (plan-Names w members)
