-- ===== src/Journal/Standing.antt =====
-- What the files of a staged transaction say of it to recoverTransactions of malong/write-journal.js.
use liu_he.Base.{
  ℕ, ◌≡◌, ◌≢◌, ◌↔◌, refl, ap, ◌⊎◌, inl, inr, Bool, true, false, Bool-cases, not, Option, none, some,
  List, [], ◌∷◌, All, All-map, In, length, if◌then◌else◌,
}
use liu_he.Base.Text.{Text, ◌===◌, same-cases, missing-cases}
use liu_he.Journal.{Files}
use liu_he.Journal.Transactions.{
  staged, needs_review, committed_recovered, FileEntry, TxnManifest, TxnDir, abandoned,
  insufficient_data, external_change, recovered, Outcome, FileState, unknown, with_manifest,
  is_staged, compare_file, file_state, is_unknown, has_landed, has_changed, recover_dir,
}
use liu_he.Journal.Settled.{Some, None, IsRight, recover_dir-IsRight}

-- The backup lies inside its directory, and both it and the file can be read; `R` is said of the file's
-- content and the backup.
abbrev pub Compared : (Text → Text → Type 0) → Bool → Option Text → Option Text → Type 0
Compared R true (some content) (some backup) = R content backup
Compared R true (some content) none = ⊥
Compared R true none backup = ⊥
Compared R false content backup = ⊥

module _ (hash : Text → Text) where
  abbrev pub IsAnything : FileEntry → Text → Text → Type 0
  IsAnything e content backup = Unit

  -- it is not as before, but what was to be written
  abbrev pub IsNew : FileEntry → Text → Text → Type 0
  IsNew e content backup =
      (hash content ≢ hash backup) × (e.new_hash ≢ []) × (hash content ≡ e.new_hash)

  -- it is neither as before nor what was to be written
  abbrev pub IsElse : FileEntry → Text → Text → Type 0
  IsElse e content backup =
      (hash content ≢ hash backup) × (e.new_hash ≢ [] → hash content ≢ e.new_hash)

module _ (hash : Text → Text) (is_inside : Text → Text → Bool) (index : Option (Text → Bool))
    (now : ℕ) (files : Files) where
  abbrev compared : FileEntry → Bool → Option Text → Option Text → FileState
  compared e i content backup =
      if i then compare_file hash is_inside index now files e content backup else unknown

  known_iff :
      (e : FileEntry) (i : Bool) (content backup : Option Text)
      → (not (is_unknown (compared e i content backup)) ≡ true)
        ↔ Compared (IsAnything hash e) i content backup
  known_iff e false content backup = (λ h. cc, λ h. absurd h)
  known_iff e true none backup = (λ h. cc, λ h. absurd h)
  known_iff e true (some c) none = (λ h. cc, λ h. absurd h)
  known_iff e true (some c) (some b) = elim (Bool-cases (hash c === hash b)) [
    | inl k ↦ rw k (λ h. tt, λ h. refl)
    | inr k ↦ elim (missing-cases e.new_hash) [
      | inl (m, x) ↦ simp (k, m) (λ h. tt, λ h. refl)
      | inr (m, x) ↦ elim (Bool-cases (hash c === e.new_hash)) [
        | inl n ↦ simp (k, m, n) (λ h. tt, λ h. refl)
        | inr n ↦ simp (k, m, n) (λ h. tt, λ h. refl)
      ]
    ]
  ]

  landed_iff :
      (e : FileEntry) (i : Bool) (content backup : Option Text)
      → (has_landed (compared e i content backup) ≡ true) ↔ Compared (IsNew hash e) i content backup
  landed_iff e false content backup = (λ h. cc, λ h. absurd h)
  landed_iff e true none backup = (λ h. cc, λ h. absurd h)
  landed_iff e true (some c) none = (λ h. cc, λ h. absurd h)
  landed_iff e true (some c) (some b) = elim (same-cases (hash c) (hash b)) [
    | inl (k, x) ↦ simp k (λ h. cc, λ h. absurd (h.0 x))
    | inr (k, apart) ↦ elim (missing-cases e.new_hash) [
      | inl (m, x) ↦ simp (k, m) (λ h. cc, λ h. absurd (h.1 x))
      | inr (m, noted) ↦ elim (same-cases (hash c) e.new_hash) [
        | inl (n, x) ↦ simp (k, m, n) (λ h. (apart, noted, x), λ h. refl)
        | inr (n, x) ↦ simp (k, m, n) (λ h. cc, λ h. absurd (x (h.2)))
      ]
    ]
  ]

  changed_iff :
      (e : FileEntry) (i : Bool) (content backup : Option Text)
      → (has_changed (compared e i content backup) ≡ true)
        ↔ Compared (IsElse hash e) i content backup
  changed_iff e false content backup = (λ h. cc, λ h. absurd h)
  changed_iff e true none backup = (λ h. cc, λ h. absurd h)
  changed_iff e true (some c) none = (λ h. cc, λ h. absurd h)
  changed_iff e true (some c) (some b) = elim (same-cases (hash c) (hash b)) [
    | inl (k, x) ↦ simp k (λ h. cc, λ h. absurd (h.0 x))
    | inr (k, apart) ↦ elim (missing-cases e.new_hash) [
      | inl (m, x) ↦ simp (k, m) (λ h. (apart, λ noted. absurd (noted x)), λ h. refl)
      | inr (m, noted) ↦ elim (same-cases (hash c) e.new_hash) [
        | inl (n, x) ↦ simp (k, m, n) (λ h. cc, λ h. absurd (h.1 noted x))
        | inr (n, x) ↦ simp (k, m, n) (λ h. (apart, λ _. x), λ h. refl)
      ]
    ]
  ]

  -- `R` holds of the content and the backup of the file, and of a name in the directory
  abbrev pub Says : (FileEntry → Text → Text → Type 0) → Text → FileEntry → Type 0
  Says R id e = Compared (R e) (is_inside id e.backup_name) (files e.file) e.backup

  abbrev pub Somewhere : (FileEntry → Text → Text → Type 0) → Text → List FileEntry → Type 0
  Somewhere R id es = (e : FileEntry) × In e es × Says R id e

  abbrev pub Nowhere : (FileEntry → Text → Text → Type 0) → Text → List FileEntry → Type 0
  Nowhere R id es = All (λ e. Says R id e → ⊥) es

  Reads : (FileState → Bool) → (FileEntry → Text → Text → Type 0) → Type 0
  Reads p R =
      (id : Text) (e : FileEntry)
      → (p (file_state hash is_inside index now files id e) ≡ true) ↔ Says R id e

  Some-Somewhere :
      (p : FileState → Bool) (R : FileEntry → Text → Text → Type 0)
      → Reads p R
      → (id : Text) (es : List FileEntry) → Some hash is_inside index now files p id es
      → Somewhere R id es
  unfolding Reads
  Some-Somewhere p R reads id es (e, i, h) = (e, i, (reads id e).0 h)

  None-Nowhere :
      (p : FileState → Bool) (R : FileEntry → Text → Text → Type 0)
      → Reads p R
      → (id : Text) (es : List FileEntry) → None hash is_inside index now files p id es
      → Nowhere R id es
  unfolding Reads
  None-Nowhere p R reads id es h =
      All-map (λ e. p (file_state hash is_inside index now files id e) ≡ false)
        (λ e. Says R id e → ⊥) (λ e no yes. let k = (reads id e).1 yes in cc) es h

  known-Reads : Reads (λ s. not (is_unknown s)) (IsAnything hash)
  unfolding Reads file_state
  known-Reads id e = known_iff e (is_inside id e.backup_name) (files e.file) e.backup

  landed-Reads : Reads has_landed (IsNew hash)
  unfolding Reads file_state
  landed-Reads id e = landed_iff e (is_inside id e.backup_name) (files e.file) e.backup

  changed-Reads : Reads has_changed (IsElse hash)
  unfolding Reads file_state
  changed-Reads id e = changed_iff e (is_inside id e.backup_name) (files e.file) e.backup

  -- The outcome, by what the files hold.
  abbrev pub IsJudged : TxnDir → TxnManifest → List FileEntry → Outcome → Type 0
  IsJudged d m es o =
      ((o ≡ (none, some abandoned))
        × Somewhere (IsAnything hash) d.txn_id es
        × Nowhere (IsElse hash) d.txn_id es
        × Nowhere (IsNew hash) d.txn_id es)
      ⊎ ((o ≡ (
        some (with_manifest d (record m { phase = committed_recovered })),
        some (recovered (length es)),
      ))
          × Somewhere (IsNew hash) d.txn_id es
          × Nowhere (IsElse hash) d.txn_id es)
      ⊎ ((o ≡ (some (with_manifest d (record m { phase = needs_review })), some external_change))
          × Somewhere (IsElse hash) d.txn_id es)
      ⊎ ((o ≡ (some (with_manifest d (record m { phase = needs_review })), some insufficient_data))
          × Nowhere (IsAnything hash) d.txn_id es)

  right-IsJudged :
      (d : TxnDir) (m : TxnManifest) (es : List FileEntry) (o : Outcome)
      → IsRight hash is_inside index now files d m es o
      → IsJudged d m es o
  right-IsJudged d m es o (inl (e, k, c, l)) = inl (
    e,
    Some-Somewhere _ (IsAnything hash) known-Reads d.txn_id es k,
    None-Nowhere has_changed (IsElse hash) changed-Reads d.txn_id es c,
    None-Nowhere has_landed (IsNew hash) landed-Reads d.txn_id es l,
  )
  right-IsJudged d m es o (inr (inl (e, l, c))) = inr (
      inl (
        e,
        Some-Somewhere has_landed (IsNew hash) landed-Reads d.txn_id es l,
        None-Nowhere has_changed (IsElse hash) changed-Reads d.txn_id es c,
      ))
  right-IsJudged d m es o (inr (inr (inl (e, c)))) =
      inr (inr (inl (e, Some-Somewhere has_changed (IsElse hash) changed-Reads d.txn_id es c)))
  right-IsJudged d m es o (inr (inr (inr (e, k)))) =
      inr (inr (inr (e, None-Nowhere _ (IsAnything hash) known-Reads d.txn_id es k)))

  -- A file can be compared if its backup lies inside the directory and both can be read; no other
  -- file counts. A staged transaction with files is dropped as abandoned when some file can be
  -- compared and each of these has the hash of its backup; it becomes committed_recovered when one
  -- differs from its backup and has the hash that was to be written, and none holds anything else;
  -- it is put up for review when one holds anything else, or when no file can be compared.
  pub recover_dir-IsJudged :
      (d : TxnDir) (m : TxnManifest) (e : FileEntry) (es : List FileEntry)
      → d.manifest ≡ some m
      → m.phase ≡ staged
      → m.files ≡ e ∷ es
      → IsJudged d m (e ∷ es) (recover_dir hash is_inside index now files d)
  recover_dir-IsJudged d m e es em ep ef =
      right-IsJudged d m (e ∷ es) (recover_dir hash is_inside index now files d)
        (recover_dir-IsRight hash is_inside index now files d m e es em (ap is_staged ep) ef)
