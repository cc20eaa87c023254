-- ===== src/Journal/Restored.antt =====
-- What the rollback of writeSymbols in malong/write-runtime.js makes of the files of a batch.
use liu_he.Base.{
  ◌≡◌, ◌≢◌, refl, sym, ap, subst, ◌∙◌, ◌⊎◌, inl, inr, Bool, true, false, Bool-cases, Option, none,
  some, List, [], All, All-map,
}
use liu_he.Base.Text.{Text, missing-cases, same-cases}
use liu_he.Journal.Undo.{Workspace, Host, find_txn}
use liu_he.Journal.Compensate.{WrittenFile, backup_of, holds_own, compensate}
use liu_he.Journal.Compensated.{expected_with, expected, DifferentFiles, compensate-expected}

some_eq : (x y : Text) → some x ≡ some y → y ≡ x
some_eq x y h = cc

module _ (hash : Text → Text) (host : Host) where
  -- The file is there and still holds what was written, of which the hash was noted.
  abbrev pub IsOwnContent : WrittenFile → Option Text → Type 0
  IsOwnContent f content =
      (c : Text) × (content ≡ some c) × (f.new_hash ≢ []) × (hash c ≡ f.new_hash)

  -- What the file holds, from what it held before and the backup in its journal: if it was nobody
  -- else's and not locked, what it held before the batch, and otherwise what it held.
  pub data IsRolledBack (f : WrittenFile) (backup content : Option Text)
      : Option Text → Type 0 where
    created_gone :
        (b : Text)
        → backup ≡ some b
        → host.is_locked f.file ≡ false
        → IsOwnContent f content
        → f.creates ≡ true
        → IsRolledBack f backup content none
    restored :
        (b : Text)
        → backup ≡ some b
        → host.is_locked f.file ≡ false
        → IsOwnContent f content
        → f.creates ≡ false
        → IsRolledBack f backup content (some b)
    left_alone :
        (backup ≡ none) ⊎ ((host.is_locked f.file ≡ true) ⊎ (IsOwnContent f content → ⊥))
        → IsRolledBack f backup content content

module _ (hash : Text → Text) (host : Host) (index : Option (Text → Bool)) (now : Text) where
  holds_own-cases :
      (f : WrittenFile) (content : Option Text)
      → ((holds_own hash host index now f content ≡ true) × IsOwnContent hash host f content)
        ⊎ ((holds_own hash host index now f content ≡ false)
            × (IsOwnContent hash host f content → ⊥))
  holds_own-cases f none = inr (refl, λ (c, e, n, k). cc)
  holds_own-cases f (some c) = elim (missing-cases f.new_hash) [
    | inl (m, e) ↦ rw m (inr (refl, λ (d, same, noted, k). noted e))
    | inr (m, noted) ↦ elim (same-cases (hash c) f.new_hash) [
      | inl (k, e) ↦ rw (m, k) (inl (refl, (c, refl, noted, e)))
      | inr (k, apart) ↦
          rw (m, k) (inr (refl, λ (d, same, n, e). apart (ap hash (sym (some_eq c d same)) ∙ e)))
    ]
  ]

  expected-IsRolledBack :
      (f : WrittenFile) (backup content : Option Text)
      → IsRolledBack hash host f backup content (expected_with hash host index now f backup content)
  expected-IsRolledBack f none content = left_alone (inl refl)
  expected-IsRolledBack f (some b) content = elim (Bool-cases (host.is_locked f.file)) [
    | inl l ↦ rw l (left_alone (inr (inl l)))
    | inr l ↦ elim (holds_own-cases f content) [
      | inr (h, n) ↦ rw (l, h) (left_alone (inr (inr n)))
      | inl (h, own) ↦ elim (Bool-cases f.creates) [
        | inl c ↦ simp (l, h, c) (created_gone b refl l own c)
        | inr c ↦ simp (l, h, c) (restored b refl l own c)
      ]
    ]
  ]

  -- When the files that were written differ, the rollback leaves each file whose journal has a backup,
  -- that nobody has locked and whose content has the hash that was noted of what was written, as the
  -- backup, or gone if the batch created it; it leaves every other file of them, and all files beyond
  -- them, as they were.
  pub compensate-IsRolledBack :
      (fs : List WrittenFile) (w : Workspace)
      → DifferentFiles fs
      → let r = compensate hash host index now fs w in
        All
          (λ f.
            IsRolledBack hash host f
              (backup_of (find_txn f.txn_id w.txns))
              (w.files f.file)
              (r.0.files f.file))
          fs
        × ((path : Text) → All (λ f. path ≢ f.file) fs → r.0.files path ≡ w.files path)
  compensate-IsRolledBack fs w a =
      let (left, elsewhere) = compensate-expected hash host index now fs w a in
      (
        All-map
            (λ f.
              (compensate hash host index now fs w).0.files f.file
              ≡ expected hash host index now f w)
            (λ f.
              IsRolledBack hash host f (backup_of (find_txn f.txn_id w.txns)) (w.files f.file)
                ((compensate hash host index now fs w).0.files f.file))
            (λ f e.
              subst
                (IsRolledBack hash host f (backup_of (find_txn f.txn_id w.txns)) (w.files f.file))
                (sym e)
                (expected-IsRolledBack f (backup_of (find_txn f.txn_id w.txns)) (w.files f.file)))
            fs left,
        elsewhere,
      )
