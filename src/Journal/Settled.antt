-- ===== src/Journal/Settled.antt =====
-- What recoverTransactions of malong/write-journal.js decides, and that it decides once.
use liu_he.Base.{
  ℕ, ◌≡◌, refl, sym, ap, subst, ◌∙◌, ◌⊎◌, inl, inr, Bool, true, false, Bool-cases, not, Option,
  none, some, List, [], ◌∷◌, All, In, length,
}
use liu_he.Base.Text.{Text}
use liu_he.Journal.{Files}
use liu_he.Journal.Transactions.{
  needs_review, committed_recovered, FileEntry, TxnManifest, TxnDir, TxnStore, abandoned,
  insufficient_data, external_change, recovered, Outcome, FileState, with_manifest, is_staged,
  file_state, is_unknown, has_landed, has_changed, any_state, recover_files, recover_staged,
  recover_manifest, is_young, recover_dir, recover_transactions, recover_each, left_dir,
  recover_recent_manifest,
}

module _ (hash : Text → Text) (is_inside : Text → Text → Bool) (index : Option (Text → Bool))
    (now : ℕ) (files : Files) where
  -- some file of the transaction is in that state
  abbrev pub Some : (FileState → Bool) → Text → List FileEntry → Type 0
  Some p id es =
      (e : FileEntry) × In e es × (p (file_state hash is_inside index now files id e) ≡ true)

  abbrev pub None : (FileState → Bool) → Text → List FileEntry → Type 0
  None p id es = All (λ e. p (file_state hash is_inside index now files id e) ≡ false) es

  any_state-Some :
      (p : FileState → Bool) (id : Text) (es : List FileEntry)
      → any_state hash is_inside index now files p id es ≡ true
      → Some p id es
  any_state-Some p id [] h = cc
  any_state-Some p id (e ∷ es) h =
      elim (Bool-cases (p (file_state hash is_inside index now files id e))) [
        | inl k ↦ (e, inl refl, k)
        | inr k ↦ let (x, i, q) = any_state-Some p id es (rw k at h) in (x, inr i, q)
      ]

  any_state-None :
      (p : FileState → Bool) (id : Text) (es : List FileEntry)
      → any_state hash is_inside index now files p id es ≡ false
      → None p id es
  any_state-None p id [] h = tt
  any_state-None p id (e ∷ es) h =
      elim (Bool-cases (p (file_state hash is_inside index now files id e))) [
        | inl k ↦ let never = rw k at h in cc
        | inr k ↦ (k, any_state-None p id es (rw k at h))
      ]

  -- The outcome says how the files stand; a file that cannot be compared does not count.
  abbrev pub IsRight : TxnDir → TxnManifest → List FileEntry → Outcome → Type 0
  IsRight d m es o =
      ((o ≡ (none, some abandoned))
        × Some (λ s. not (is_unknown s)) d.txn_id es
        × None has_changed d.txn_id es
        × None has_landed d.txn_id es)
      ⊎ ((o ≡ (
        some (with_manifest d (record m { phase = committed_recovered })),
        some (recovered (length es)),
      ))
          × Some has_landed d.txn_id es
          × None has_changed d.txn_id es)
      ⊎ ((o ≡ (some (with_manifest d (record m { phase = needs_review })), some external_change))
          × Some has_changed d.txn_id es)
      ⊎ ((o ≡ (some (with_manifest d (record m { phase = needs_review })), some insufficient_data))
          × None (λ s. not (is_unknown s)) d.txn_id es)

  recover_files-IsRight :
      (d : TxnDir) (m : TxnManifest) (es : List FileEntry)
      → IsRight d m es (recover_files hash is_inside index now files d m es)
  recover_files-IsRight d m es =
      elim (Bool-cases
        (any_state hash is_inside index now files (λ s. not (is_unknown s)) d.txn_id es)) [
          | inr k ↦
              rw k (inr (inr (inr (refl, any_state-None (λ s. not (is_unknown s)) d.txn_id es k))))
          | inl k ↦
              elim (Bool-cases (any_state hash is_inside index now files has_changed d.txn_id es)) [
                | inl c ↦
                    rw (k, c) (inr (inr (inl (refl, any_state-Some has_changed d.txn_id es c))))
                | inr c ↦
                    elim (Bool-cases
                      (any_state hash is_inside index now files has_landed d.txn_id es)) [
                        | inl l ↦
                            rw (k, c, l)
                              (inr (
                                inl (
                                  refl,
                                  any_state-Some has_landed d.txn_id es l,
                                  any_state-None has_changed d.txn_id es c,
                                )))
                        | inr l ↦
                            rw (k, c, l)
                              (inl (
                                refl,
                                any_state-Some (λ s. not (is_unknown s)) d.txn_id es k,
                                any_state-None has_changed d.txn_id es c,
                                any_state-None has_landed d.txn_id es l,
                              ))
                      ]
              ]
        ]

  recover_dir-staged :
      (d : TxnDir) (m : TxnManifest) (es : List FileEntry)
      → d.manifest ≡ some m
      → is_staged m.phase ≡ true
      → m.files ≡ es
      → recover_dir hash is_inside index now files d
        ≡ recover_staged hash is_inside index now files d m es
  unfolding recover_dir
  recover_dir-staged d m es em ep ef =
      ap (recover_manifest hash is_inside index now files d) em
      ∙ rw ep refl
      ∙ ap (recover_staged hash is_inside index now files d m) ef

  -- what becomes of a staged transaction with files, by the states of these
  pub recover_dir-IsRight :
      (d : TxnDir) (m : TxnManifest) (e : FileEntry) (es : List FileEntry)
      → d.manifest ≡ some m
      → is_staged m.phase ≡ true
      → m.files ≡ e ∷ es
      → IsRight d m (e ∷ es) (recover_dir hash is_inside index now files d)
  recover_dir-IsRight d m e es em ep ef =
      subst (λ o. IsRight d m (e ∷ es) o) (sym (recover_dir-staged d m (e ∷ es) em ep ef))
        (recover_files-IsRight d m (e ∷ es))

module _ (hash : Text → Text) (is_inside : Text → Text → Bool) (now : ℕ) (files : Files) where
  -- what is left would be left again
  abbrev IsStable : (TxnDir → Outcome) → Option TxnDir → Type 0
  IsStable recover none = Unit
  IsStable recover (some d) = recover d ≡ (some d, none)

  staged-IsStable :
      (d : TxnDir) (m : TxnManifest) (es : List FileEntry)
      → d.manifest ≡ some m
      → is_staged m.phase ≡ true
      → m.files ≡ es
      → IsStable
          (recover_dir hash is_inside none now files)
          (recover_staged hash is_inside none now files d m es).0
  unfolding recover_dir
  staged-IsStable d m [] em ep ef =
      elim (Bool-cases (is_young hash is_inside none now files m.created)) [
        | inl y ↦
            rw y (recover_dir-staged hash is_inside none now files d m [] em ep ef ∙ rw y refl)
        | inr y ↦ rw y tt
      ]
  staged-IsStable d m (e ∷ es) em ep ef =
      elim (Bool-cases
        (any_state hash is_inside none now files (λ s. not (is_unknown s)) d.txn_id (e ∷ es))) [
          | inr k ↦ rw k refl
          | inl k ↦
              elim (Bool-cases
                (any_state hash is_inside none now files has_changed d.txn_id (e ∷ es))) [
                  | inl c ↦ rw (k, c) refl
                  | inr c ↦
                      elim (Bool-cases
                        (any_state hash is_inside none now files has_landed d.txn_id (e ∷ es))) [
                          | inl l ↦ rw (k, c, l) refl
                          | inr l ↦ rw (k, c, l) tt
                        ]
                ]
        ]

  kept_dir :
      (d : TxnDir)
      → recover_dir hash is_inside none now files d ≡ (some d, none)
      → IsStable
          (recover_dir hash is_inside none now files)
          (recover_dir hash is_inside none now files d).0
  kept_dir d h = subst (λ r. IsStable (recover_dir hash is_inside none now files) r.0) (sym h) h

  manifest-IsStable :
      (d : TxnDir) (o : Option TxnManifest)
      → d.manifest ≡ o
      → IsStable
          (recover_dir hash is_inside none now files)
          (recover_dir hash is_inside none now files d).0
  unfolding recover_dir
  manifest-IsStable d none e = kept_dir d (ap (recover_manifest hash is_inside none now files d) e)
  manifest-IsStable d (some m) e = elim (Bool-cases (is_staged m.phase)) [
    | inl k ↦
        subst (λ r. IsStable (recover_dir hash is_inside none now files) r.0)
          (sym (recover_dir-staged hash is_inside none now files d m m.files e k refl))
          (staged-IsStable d m m.files e k refl)
    | inr k ↦ kept_dir d (ap (recover_manifest hash is_inside none now files d) e ∙ rw k refl)
  ]

  left_dir-again :
      (recover : TxnDir → Outcome) (o : Option TxnDir) (rest : List TxnDir)
      → IsStable recover o
      → recover_each recover rest ≡ (rest, [])
      → recover_each recover (left_dir o rest) ≡ (left_dir o rest, [])
  left_dir-again recover none rest h e = e
  left_dir-again recover (some d) rest h e = rw (e, h) refl

  recover_each-again :
      (recover : TxnDir → Outcome)
      → ((d : TxnDir) → IsStable recover (recover d).0)
      → (dirs : List TxnDir)
      → recover_each recover (recover_each recover dirs).0 ≡ ((recover_each recover dirs).0, [])
  recover_each-again recover h [] = refl
  recover_each-again recover h (d ∷ dirs) =
      left_dir-again recover (recover d).0 (recover_each recover dirs).0 (h d)
        (recover_each-again recover h dirs)

  recent-IsStable :
      (d : TxnDir) (o : Option TxnManifest)
      → d.manifest ≡ o
      → IsStable
          (λ d. recover_recent_manifest hash is_inside none now files d d.manifest)
          (recover_recent_manifest hash is_inside none now files d o).0
  recent-IsStable d none e = ap (recover_recent_manifest hash is_inside none now files d) e
  recent-IsStable d (some m) e = ap (recover_recent_manifest hash is_inside none now files d) e

  -- Without an index to repair, recovering the transactions a second time, at the same time and
  -- with the same files, changes nothing and reports nothing.
  pub recover_transactions-again :
      (s : TxnStore)
      → let r = recover_transactions hash is_inside none now files s in
        recover_transactions hash is_inside none now files r.0 ≡ (r.0, [])
  unfolding recover_transactions
  recover_transactions-again s =
      let recent =
        recover_each-again (λ d. recover_recent_manifest hash is_inside none now files d d.manifest)
          (λ d. recent-IsStable d d.manifest refl) s.recent in
      let current =
        recover_each-again (recover_dir hash is_inside none now files)
          (λ d. manifest-IsStable d d.manifest refl) s.current in
      rw (recent, current) refl
