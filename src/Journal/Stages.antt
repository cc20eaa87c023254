-- ===== src/Journal/Stages.antt =====
-- What recoverJournals of malong/write-journal.js makes of a write that died, step by step.
use liu_he.Base.{
  ℕ, zero, suc, ◌≡◌, refl, sym, ◌∙◌, ◌⊎◌, inl, inr, ◌≢◌, Bool, true, false, Option, none, some, [],
  take, subst, ap,
}
use liu_he.Base.Text.{Text, is_missing}
use liu_he.Journal.{
  Txn, Files, Intent, put_file, first_state, update_journal_state, make_dir, note_pid, back_up,
  write_manifest, to_staged, to_committed, create_journal,
}
use liu_he.Journal.Recover.{recover_txn}
use liu_he.Journal.Judged.{
  content_before, IsDropped, writer_gone, orphan-removed, may_differ-before, unfinished-before,
  unfinished-after, ended-stays,
}
use liu_he.Journal.Crash.{
  WriteDisk, crash_after, staged_write, before_write, IsWritten, IsSettled, restart, is_renamed,
}

same-before :
    (creates : Bool) (b c : Text)
    → (creates ≡ true → (b ≡ []) × (c ≢ []))
    → c ≡ b
    → some c ≡ content_before creates b
same-before true b c h e = absurd ((h refl).1 (e ∙ (h refl).0))
same-before false b c h e = ap some e

take_nil : (n : ℕ) → take {A = WriteDisk → WriteDisk} n [] ≡ []
take_nil zero = refl
take_nil (suc n) = refl

-- What the disk holds: the directory does not depend on the files, and the write is in its file or not.
pub crash_after-files :
    (n : ℕ) (hash : Text → Text) (i : Intent) (content : Text) (files : Files)
    → ((is_renamed n ≡ false) × ((crash_after n hash i content files).files ≡ files))
      ⊎ ((is_renamed n ≡ true)
          × ((crash_after n hash i content files).files ≡ put_file i.file (some content) files))
unfolding crash_after
crash_after-files zero hash i content files = inl (refl, refl)
crash_after-files (suc zero) hash i content files = inl (refl, refl)
crash_after-files (suc (suc zero)) hash i content files = inl (refl, refl)
crash_after-files (suc (suc (suc zero))) hash i content files = inl (refl, refl)
crash_after-files (suc (suc (suc (suc zero)))) hash i content files = inl (refl, refl)
crash_after-files (suc (suc (suc (suc (suc zero))))) hash i content files = inl (refl, refl)
crash_after-files (suc (suc (suc (suc (suc (suc zero)))))) hash i content files = inl (refl, refl)
crash_after-files (suc (suc (suc (suc (suc (suc (suc zero))))))) hash i content files =
    inr (refl, refl)
crash_after-files (suc (suc (suc (suc (suc (suc (suc (suc n)))))))) hash i content files =
    rw (take_nil n) (inr (refl, refl))

pub crash_after-journal :
    (n : ℕ) (hash : Text → Text) (i : Intent) (content : Text) (f g : Files)
    → (crash_after n hash i content f).journal ≡ (crash_after n hash i content g).journal
unfolding crash_after
crash_after-journal zero hash i content f g = refl
crash_after-journal (suc zero) hash i content f g = refl
crash_after-journal (suc (suc zero)) hash i content f g = refl
crash_after-journal (suc (suc (suc zero))) hash i content f g = refl
crash_after-journal (suc (suc (suc (suc zero)))) hash i content f g = refl
crash_after-journal (suc (suc (suc (suc (suc zero))))) hash i content f g = refl
crash_after-journal (suc (suc (suc (suc (suc (suc zero)))))) hash i content f g = refl
crash_after-journal (suc (suc (suc (suc (suc (suc (suc zero))))))) hash i content f g = refl
crash_after-journal (suc (suc (suc (suc (suc (suc (suc (suc n)))))))) hash i content f g =
    rw (take_nil n) refl

-- the write has not reached its file, or it has
abbrev pub Stands : ℕ → Intent → Text → Files → Type 0
Stands n i content files =
    ((is_renamed n ≡ false) × (files i.file ≡ before_write i))
    ⊎ ((is_renamed n ≡ true) × (files i.file ≡ some content))

module _ (hash : Text → Text) (running : ℕ → Bool) (index : Option (Text → Bool)) (now : Text)
    (files : Files) where
  -- what a restart makes of it, with the files that there are
  abbrev pub IsSettledAt : ℕ → Intent → Text → Option Txn → Type 0
  IsSettledAt n i content o =
      (IsDropped i.txn_id o × (files i.file ≡ before_write i))
      ⊎ ((is_renamed n ≡ true) × IsWritten hash i content o × (files i.file ≡ some content))

  -- the directory that an early crash leaves is removed
  orphan-IsDropped :
      (i : Intent) (t : Txn)
      → restart hash running index now files (some t) ≡ none
      → IsDropped i.txn_id (restart hash running index now files (some t))
  orphan-IsDropped i t e = subst (IsDropped i.txn_id) (sym e) tt

  IsWritten-done :
      (i : Intent) (content now : Text) (o : Option Txn)
      → o ≡ some (update_journal_state (to_committed now) (staged_write hash i content))
      → IsWritten hash i content o
  unfolding update_journal_state create_journal
  IsWritten-done i content now o e = subst (IsWritten hash i content) (sym e) (
    to_committed now (to_staged (hash content) (first_state i)),
    refl,
    refl,
    refl,
    refl,
    refl,
    refl,
    refl,
  )

  staged-IsSettled :
      (i : Intent) (content : Text)
      → ((a b : Text) → hash a ≡ hash b → a ≡ b)
      → ((a : Text) → is_missing (hash a) ≡ false)
      → running i.own_pid ≡ false
      → (i.creates ≡ true → (i.content ≡ []) × (content ≢ []))
      → files i.file ≡ some content
      → IsSettled hash running index now i content files
          (restart hash running index now files (some (staged_write hash i content)))
  unfolding recover_txn update_journal_state create_journal
  staged-IsSettled i content injective nonempty dead creates h =
      let t = staged_write hash i content in
      elim (unfinished-after hash running index now files t
        (to_staged (hash content) (first_state i)) (record { file = i.file; created_at = i.now })
        i.content content (writer_gone running t (λ _. dead) dead) refl refl refl (nonempty content)
        h) [
          | inl k ↦ inl (
            k.0,
            h ∙ same-before i.creates i.content content creates (injective content i.content k.1),
          )
          | inr k ↦ inr (IsWritten-done i content now _ (ap (λ r. r.0) k), h)
        ]

  Stands-before :
      (n : ℕ) (i : Intent) (content : Text)
      → is_renamed n ≡ false
      → Stands n i content files
      → files i.file ≡ before_write i
  Stands-before n i content e (inl k) = k.1
  Stands-before n i content e (inr k) = cc

  Stands-after :
      (n : ℕ) (i : Intent) (content : Text)
      → is_renamed n ≡ true
      → Stands n i content files
      → files i.file ≡ some content
  Stands-after n i content e (inl k) = cc
  Stands-after n i content e (inr k) = k.1

  pub stage-settled :
      (n : ℕ) (i : Intent) (content : Text) (earlier : Files)
      → ((a b : Text) → hash a ≡ hash b → a ≡ b)
      → ((a : Text) → is_missing (hash a) ≡ false)
      → running i.own_pid ≡ false
      → (i.creates ≡ true → (i.content ≡ []) × (content ≢ []))
      → Stands n i content files
      → IsSettledAt n i content
          (restart hash running index now files (crash_after n hash i content earlier).journal)
  unfolding crash_after recover_txn create_journal update_journal_state
  stage-settled zero i content earlier injective nonempty dead creates st =
      inl (tt, Stands-before 0 i content refl st)
  stage-settled (suc zero) i content earlier injective nonempty dead creates st =
      let t = make_dir i in
      let h = Stands-before 1 i content refl st in
      let gone = writer_gone running t (λ e. cc) dead in
      inl (
        orphan-IsDropped i t
            (ap (λ r. r.0) (orphan-removed hash running index now files t gone refl)),
        h,
      )
  stage-settled (suc (suc zero)) i content earlier injective nonempty dead creates st =
      let t = note_pid i (make_dir i) in
      let h = Stands-before 2 i content refl st in
      let gone = writer_gone running t (λ e. dead) dead in
      inl (
        orphan-IsDropped i t
            (ap (λ r. r.0) (orphan-removed hash running index now files t gone refl)),
        h,
      )
  stage-settled (suc (suc (suc zero))) i content earlier injective nonempty dead creates st =
      let t = back_up i (note_pid i (make_dir i)) in
      let h = Stands-before 3 i content refl st in
      let gone = writer_gone running t (λ e. dead) dead in
      inl (
        orphan-IsDropped i t
            (ap (λ r. r.0) (orphan-removed hash running index now files t gone refl)),
        h,
      )
  stage-settled (suc (suc (suc (suc zero)))) i content earlier injective nonempty dead creates st =
      let t = write_manifest i (back_up i (note_pid i (make_dir i))) in
      let h = Stands-before 4 i content refl st in
      let gone = writer_gone running t (λ e. dead) dead in
      inl (
        orphan-IsDropped i t (
            ap (λ r. r.0)
              (orphan-removed hash running index now files t gone
                (rw h (may_differ-before hash running index now files i.creates i.content)))),
        h,
      )
  stage-settled (suc (suc (suc (suc (suc zero))))) i content earlier injective nonempty dead creates
        st =
      let t = create_journal i in
      let h = Stands-before 5 i content refl st in
      inl (
        unfinished-before hash running index now files i.creates t (first_state i)
            (record { file = i.file; created_at = i.now }) i.content
            (writer_gone running t (λ _. dead) dead) refl refl refl h,
        h,
      )
  stage-settled (suc (suc (suc (suc (suc (suc zero)))))) i content earlier injective nonempty dead
        creates st =
      let t = staged_write hash i content in
      let h = Stands-before 6 i content refl st in
      inl (
        unfinished-before hash running index now files i.creates t
            (to_staged (hash content) (first_state i))
            (record { file = i.file; created_at = i.now }) i.content
            (writer_gone running t (λ _. dead) dead) refl refl refl h,
        h,
      )
  stage-settled (suc (suc (suc (suc (suc (suc (suc zero))))))) i content earlier injective nonempty
        dead creates st =
      elim (staged-IsSettled i content injective nonempty dead creates
        (Stands-after 7 i content refl st)) [ inl k ↦ inl k | inr k ↦ inr (refl, k.0, k.1) ]
  stage-settled (suc (suc (suc (suc (suc (suc (suc (suc n)))))))) i content earlier injective
        nonempty dead creates st =
      let t = update_journal_state (to_committed i.now) (staged_write hash i content) in
      let s = to_committed i.now (to_staged (hash content) (first_state i)) in
      rw (take_nil n) (
        inr (
          refl,
          IsWritten-done i content i.now _
              (ended-stays hash running index now files t s index refl),
          Stands-after (suc (suc (suc (suc (suc (suc (suc (suc n)))))))) i content refl st,
        ))
