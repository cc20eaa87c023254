-- ===== src/Journal/RolledBack.antt =====
-- What the rollback in recoverBatches of malong/write-journal.js does to the writes that it is asked for.
use liu_he.Base.{
  ◌≡◌, refl, sym, ap, subst, ◌∙◌, inl, inr, ◌≢◌, true, false, Bool-cases, Option, none, some, List,
  [], ◌∷◌, All, All-map, All-map2, map,
}
use liu_he.Base.Text.{Text, ===_refl, is_missing, same-cases}
use liu_he.Journal.{StateFile, parsed, Txn, Intent, update_journal_state}
use liu_he.Journal.Put.{put_file-same, put_file-other}
use liu_he.Journal.Crash.{before_write, IsWritten}
use liu_he.Journal.Undo.{Workspace, Host, find_txn, update_txn, write_back}
use liu_he.Journal.Partial.{
  to_rolled_back, patch_txn, is_own, roll_back_file, roll_back_read, roll_back_found, roll_back_all,
}
use liu_he.Journal.Group.{Turn, AreApart}
use liu_he.Journal.Counted.{id_of}

find-update_other :
    (id other : Text) (f : StateFile → StateFile) (txns : List Txn)
    → other ≢ id
    → find_txn other (update_txn id f txns) ≡ find_txn other txns
unfolding update_journal_state
find-update_other id other f [] h = refl
find-update_other id other f (t ∷ txns) h = elim (same-cases t.txn_id id) [
  | inl k ↦ elim (same-cases t.txn_id other) [
    | inl k' ↦ absurd (h (sym k'.1 ∙ k.1))
    | inr k' ↦ rw (k.0, k'.0) (find-update_other id other f txns h)
  ]
  | inr k ↦ rw (k.0, find-update_other id other f txns h) refl
]

module _ (hash : Text → Text) (host : Host) (now : Text) where
  -- the write can be taken back
  abbrev pub IsReady : Workspace → Turn → Type 0
  IsReady w u =
      IsWritten hash u.intent u.content (find_txn u.intent.txn_id w.txns)
      × (w.files u.intent.file ≡ some u.content)

  abbrev pub IsLetIn : Turn → Type 0
  IsLetIn u = (host.is_blocked u.intent.file ≡ false) × (host.is_locked u.intent.file ≡ false)

  own-written :
      (s : StateFile) (content : Text) (o : Option Text)
      → is_missing (hash content) ≡ false
      → s.new_hash ≡ hash content
      → o ≡ some content
      → is_own hash host now s o ≡ true
  own-written s content o e h k = rw (k, h, e, ===_refl (hash content)) refl

  roll_back_file-own :
      (i : Intent) (content : Text) (id : Text) (s : StateFile) (backup : Option Text)
      (w : Workspace)
      → is_own hash host now s (w.files i.file) ≡ true
      → s.creates ≡ i.creates
      → backup ≡ some i.content
      → host.is_locked i.file ≡ false
      → (roll_back_file hash host now id s i.file backup w).0
        ≡ patch_txn hash host now id (to_rolled_back now) (write_back i.file (before_write i) w)
  roll_back_file-own i content id s backup w eo ec eb ek = elim (Bool-cases i.creates) [
    | inl c ↦ simp (ec ∙ c, eo, ek, c) refl
    | inr c ↦ simp (ec ∙ c, eo, ek, c, eb) refl
  ]

  -- the workspace when this write has been taken back
  abbrev taken_back : Turn → Workspace → Workspace
  taken_back u w =
      patch_txn hash host now u.intent.txn_id (to_rolled_back now)
        (write_back u.intent.file (before_write u.intent) w)

  roll_back_found-own :
      (u : Turn) (o : Option Txn) (w : Workspace)
      → is_missing (hash u.content) ≡ false
      → IsLetIn u
      → IsWritten hash u.intent u.content o
      → w.files u.intent.file ≡ some u.content
      → (roll_back_found hash host now o w).0 ≡ taken_back u w
  roll_back_found-own u none w e l h k = absurd h
  roll_back_found-own u (some t) w e l h k =
      ap (λ r. (roll_back_read hash host now t r t.manifest w).0) h.1
      ∙ ap (λ m. (roll_back_read hash host now t (parsed h.0) m w).0) h.7
      ∙ rw l.0 refl
      ∙ roll_back_file-own u.intent u.content t.txn_id h.0 t.backup w
          (own-written h.0 u.content (w.files u.intent.file) e h.4 k) h.3 h.6 l.1
      ∙ ap
          (λ id.
            patch_txn hash host now id (to_rolled_back now)
              (write_back u.intent.file (before_write u.intent) w))
          h.5

  taken_back-IsReady :
      (u v : Turn) (w : Workspace)
      → v.intent.file ≢ u.intent.file
      → v.intent.txn_id ≢ u.intent.txn_id
      → IsReady w v
      → IsReady (taken_back u w) v
  taken_back-IsReady u v w nf ni h = (
    subst (IsWritten hash v.intent v.content)
        (sym (find-update_other u.intent.txn_id v.intent.txn_id (to_rolled_back now) w.txns ni))
        h.0,
    put_file-other u.intent.file v.intent.file (before_write u.intent) w.files nf ∙ h.1,
  )

  roll_back_all-head :
      ((a : Text) → is_missing (hash a) ≡ false)
      → (u : Turn) (written : List Turn) (w : Workspace) → IsLetIn u
      → IsReady w u
      → (roll_back_all hash host now (map id_of (u ∷ written)) w).0
        ≡ (roll_back_all hash host now (map id_of written) (taken_back u w)).0
  roll_back_all-head e u written w l h =
      ap (λ w'. (roll_back_all hash host now (map id_of written) w').0)
        (roll_back_found-own u (find_txn u.intent.txn_id w.txns) w (e u.content) l h.0 h.1)

  IsReady-tail :
      (u : Turn) (written : List Turn) (w : Workspace)
      → AreApart (u ∷ written)
      → All (IsReady w) written
      → All (IsReady (taken_back u w)) written
  IsReady-tail u written w a h =
      All-map2 (λ v. (v.intent.file ≢ u.intent.file) × (v.intent.txn_id ≢ u.intent.txn_id))
        (IsReady w) (IsReady (taken_back u w)) (λ v n k. taken_back-IsReady u v w n.0 n.1 k) written
        a.0 h

  pub roll_back_all-elsewhere :
      ((a : Text) → is_missing (hash a) ≡ false)
      → (written : List Turn) (w : Workspace) (path : Text) → All IsLetIn written
      → AreApart written
      → All (IsReady w) written
      → All (λ u. path ≢ u.intent.file) written
      → (roll_back_all hash host now (map id_of written) w).0.files path ≡ w.files path
  roll_back_all-elsewhere e [] w path l a h n = refl
  roll_back_all-elsewhere e (u ∷ written) w path l a h n =
      ap (λ (w' : Workspace). w'.files path) (roll_back_all-head e u written w l.0 h.0)
      ∙ roll_back_all-elsewhere e written (taken_back u w) path l.1 a.1
          (IsReady-tail u written w a h.1) n.1
      ∙ put_file-other u.intent.file path (before_write u.intent) w.files n.0

  pub roll_back_all-before :
      ((a : Text) → is_missing (hash a) ≡ false)
      → (written : List Turn) (w : Workspace) → All IsLetIn written
      → AreApart written
      → All (IsReady w) written
      → All
          (λ u.
            (roll_back_all hash host now (map id_of written) w).0.files u.intent.file
            ≡ before_write u.intent)
          written
  roll_back_all-before e [] w l a h = tt
  roll_back_all-before e (u ∷ written) w l a h =
      let w' = taken_back u w in
      let ready = IsReady-tail u written w a h.1 in
      subst
        (λ (r : Workspace). All (λ v. r.files v.intent.file ≡ before_write v.intent) (u ∷ written))
        (sym (roll_back_all-head e u written w l.0 h.0))
        (
          roll_back_all-elsewhere e written w' u.intent.file l.1 a.1 ready (
                All-map (λ v. (v.intent.file ≢ u.intent.file) × (v.intent.txn_id ≢ u.intent.txn_id))
                  (λ v. u.intent.file ≢ v.intent.file) (λ v n k. n.0 (sym k)) written a.0)
              ∙ put_file-same u.intent.file (before_write u.intent) w.files,
          roll_back_all-before e written w' l.1 a.1 ready,
        )
