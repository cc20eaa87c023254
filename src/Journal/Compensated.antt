-- ===== src/Journal/Compensated.antt =====
-- What the rollback of writeSymbols in malong/write-runtime.js leaves in each file.
use liu_he.Base.{
  if◌then◌else◌, ◌≡◌, refl, sym, ap, ◌∙◌, inl, inr, ◌≢◌, Bool, Bool-cases, Option, none, some, List,
  [], ◌∷◌, All, All-map, All-map2,
}
use liu_he.Base.Text.{Text, ◌===◌}
use liu_he.Journal.{StateFile, Txn, update_journal_state}
use liu_he.Journal.Put.{put_file-same, put_file-other}
use liu_he.Journal.Undo.{Workspace, Host, find_txn, update_txn}
use liu_he.Journal.Partial.{to_rolled_back}
use liu_he.Journal.Compensate.{
  to_pending, WrittenFile, backup_of, holds_own, index_again, compensate_with, compensate_one,
  compensate_from, compensate,
}

backup_of-update :
    (id other : Text) (f : StateFile → StateFile) (txns : List Txn)
    → backup_of (find_txn id (update_txn other f txns)) ≡ backup_of (find_txn id txns)
unfolding update_journal_state
backup_of-update id other f [] = refl
backup_of-update id other f (t ∷ txns) = elim (Bool-cases (t.txn_id === other)) [
  | inl e ↦ elim (Bool-cases (t.txn_id === id)) [
    | inl k ↦ rw (e, k) refl
    | inr k ↦ rw (e, k) (backup_of-update id other f txns)
  ]
  | inr e ↦ elim (Bool-cases (t.txn_id === id)) [
    | inl k ↦ rw (e, k) refl
    | inr k ↦ rw (e, k) (backup_of-update id other f txns)
  ]
]

module _ (hash : Text → Text) (host : Host) (index : Option (Text → Bool)) (now : Text) where
  -- what a file holds when it has been seen to
  abbrev pub expected_with : WrittenFile → Option Text → Option Text → Option Text
  expected_with f none content = content
  expected_with f (some backup) content =
      if host.is_locked f.file
      then content
      else if holds_own hash host index now f content
      then (if f.creates then none else some backup)
      else content

  abbrev pub expected : WrittenFile → Workspace → Option Text
  expected f w = expected_with f (backup_of (find_txn f.txn_id w.txns)) (w.files f.file)

module _ (hash : Text → Text) (host : Host) (index : Option (Text → Bool)) (now : Text) where
  index_again-files :
      (o : Option (Text → Bool)) (f : WrittenFile) (w : Workspace)
      → (index_again hash host index now o f w).files ≡ w.files
  index_again-files none f w = refl
  index_again-files (some repair) f w = elim (Bool-cases (repair f.file)) [
    | inl e ↦ rw e refl
    | inr e ↦ rw e refl
  ]

  index_again-backup :
      (o : Option (Text → Bool)) (f : WrittenFile) (w : Workspace) (id : Text)
      → backup_of (find_txn id (index_again hash host index now o f w).txns)
        ≡ backup_of (find_txn id w.txns)
  index_again-backup none f w id = refl
  index_again-backup (some repair) f w id = elim (Bool-cases (repair f.file)) [
    | inl e ↦ rw e refl
    | inr e ↦ rw e (backup_of-update id f.txn_id (to_pending) w.txns)
  ]

  compensate_with-here :
      (f : WrittenFile) (b : Option Text) (w : Workspace) (done : List Text)
      → (compensate_with hash host index now f b (w, done)).0.files f.file
        ≡ expected_with hash host index now f b (w.files f.file)
  compensate_with-here f none w done = refl
  compensate_with-here f (some b) w done = elim (Bool-cases (host.is_locked f.file)) [
    | inl l ↦ rw l refl
    | inr l ↦ elim (Bool-cases (holds_own hash host index now f (w.files f.file))) [
      | inl o ↦ elim (Bool-cases f.creates) [
        | inl c ↦ simp (l, c, o) (put_file-same f.file none w.files)
        | inr c ↦
            simp (l, c, o)
              (ap (λ g. g f.file) (index_again-files index f _)
                ∙ put_file-same f.file (some b) w.files)
      ]
      | inr o ↦ elim (Bool-cases f.creates) [
        | inl c ↦ simp (l, c, o) refl
        | inr c ↦ simp (l, c, o) refl
      ]
    ]
  ]

  compensate_with-elsewhere :
      (f : WrittenFile) (b : Option Text) (w : Workspace) (done : List Text) (path : Text)
      → path ≢ f.file
      → (compensate_with hash host index now f b (w, done)).0.files path ≡ w.files path
  compensate_with-elsewhere f none w done path n = refl
  compensate_with-elsewhere f (some b) w done path n = elim (Bool-cases (host.is_locked f.file)) [
    | inl l ↦ rw l refl
    | inr l ↦ elim (Bool-cases (holds_own hash host index now f (w.files f.file))) [
      | inl o ↦ elim (Bool-cases f.creates) [
        | inl c ↦ simp (l, c, o) (put_file-other f.file path none w.files n)
        | inr c ↦
            simp (l, c, o)
              (ap (λ g. g path) (index_again-files index f _)
                ∙ put_file-other f.file path (some b) w.files n)
      ]
      | inr o ↦ elim (Bool-cases f.creates) [
        | inl c ↦ simp (l, c, o) refl
        | inr c ↦ simp (l, c, o) refl
      ]
    ]
  ]

  compensate_with-backup :
      (f : WrittenFile) (b : Option Text) (w : Workspace) (done : List Text) (id : Text)
      → backup_of (find_txn id (compensate_with hash host index now f b (w, done)).0.txns)
        ≡ backup_of (find_txn id w.txns)
  compensate_with-backup f none w done id = refl
  compensate_with-backup f (some b) w done id = elim (Bool-cases (host.is_locked f.file)) [
    | inl l ↦ rw l refl
    | inr l ↦ elim (Bool-cases (holds_own hash host index now f (w.files f.file))) [
      | inl o ↦ elim (Bool-cases f.creates) [
        | inl c ↦ simp (l, c, o) (backup_of-update id f.txn_id (to_rolled_back now) w.txns)
        | inr c ↦
            simp (l, c, o)
              (index_again-backup index f _ id
                ∙ backup_of-update id f.txn_id (to_rolled_back now) w.txns)
      ]
      | inr o ↦ elim (Bool-cases f.creates) [
        | inl c ↦ simp (l, c, o) refl
        | inr c ↦ simp (l, c, o) refl
      ]
    ]
  ]

-- files that are all different
abbrev pub DifferentFiles : List WrittenFile → Type 0
DifferentFiles [] = Unit
DifferentFiles (f ∷ fs) = All (λ g. g.file ≢ f.file) fs × DifferentFiles fs

module _ (hash : Text → Text) (host : Host) (index : Option (Text → Bool)) (now : Text) where
  compensate_from-elsewhere :
      (fs : List WrittenFile) (w : Workspace) (done : List Text) (path : Text)
      → All (λ f. path ≢ f.file) fs
      → (compensate_from hash host index now fs (w, done)).0.files path ≡ w.files path
  compensate_from-elsewhere [] w done path h = refl
  compensate_from-elsewhere (f ∷ fs) w done path h =
      let (w', done') = compensate_one hash host index now f (w, done) in
      compensate_from-elsewhere fs w' done' path h.1
      ∙ compensate_with-elsewhere hash host index now f (backup_of (find_txn f.txn_id w.txns)) w
          done path h.0

  -- Another file is seen to in the same way, before or after.
  expected-kept :
      (f g : WrittenFile) (w : Workspace) (done : List Text)
      → g.file ≢ f.file
      → expected hash host index now g (compensate_one hash host index now f (w, done)).0
        ≡ expected hash host index now g w
  expected-kept f g w done n =
      let b = backup_of (find_txn f.txn_id w.txns) in
      let w' = (compensate_one hash host index now f (w, done)).0 in
      ap (λ b'. expected_with hash host index now g b' (w'.files g.file))
        (compensate_with-backup hash host index now f b w done g.txn_id)
      ∙ ap (expected_with hash host index now g (backup_of (find_txn g.txn_id w.txns)))
          (compensate_with-elsewhere hash host index now f b w done g.file n)

  compensate_from-expected :
      (fs : List WrittenFile) (w : Workspace) (done : List Text)
      → DifferentFiles fs
      → All
          (λ f.
            (compensate_from hash host index now fs (w, done)).0.files f.file
            ≡ expected hash host index now f w)
          fs
  compensate_from-expected [] w done a = tt
  compensate_from-expected (f ∷ fs) w done a =
      let r = compensate_one hash host index now f (w, done) in
      (
        compensate_from-elsewhere fs r.0 r.1 f.file
              (All-map (λ g. g.file ≢ f.file) (λ g. f.file ≢ g.file) (λ g n e. n (sym e)) fs a.0)
            ∙ compensate_with-here hash host index now f (backup_of (find_txn f.txn_id w.txns)) w
                done,
        All-map2 (λ g. g.file ≢ f.file)
            (λ g.
              (compensate_from hash host index now fs r).0.files g.file
              ≡ expected hash host index now g r.0)
            (λ g.
              (compensate_from hash host index now fs r).0.files g.file
              ≡ expected hash host index now g w)
            (λ g n h. h ∙ expected-kept f g w done n) fs a.0
            (compensate_from-expected fs r.0 r.1 a.1),
      )

  pub compensate-expected :
      (fs : List WrittenFile) (w : Workspace)
      → DifferentFiles fs
      → let r = compensate hash host index now fs w in
        All (λ f. r.0.files f.file ≡ expected hash host index now f w) fs
        × ((path : Text) → All (λ f. path ≢ f.file) fs → r.0.files path ≡ w.files path)
  unfolding compensate
  compensate-expected fs w a =
      (compensate_from-expected fs w [] a, λ path n. compensate_from-elsewhere fs w [] path n)
