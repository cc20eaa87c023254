-- ===== src/Journal/Judged.antt =====
-- What recoverJournals of malong/write-journal.js makes of a directory whose writer is gone.
use liu_he.Base.{
  ℕ, ◌≡◌, refl, sym, ◌⊎◌, inl, inr, Bool, true, false, Bool-cases, if◌then◌else◌, ◌∙◌, Option, none,
  some, ltb, subst, ap,
}
use liu_he.Base.Text.{Text, ===_refl, is_missing, same-cases}
use liu_he.Journal.{
  TxnState, to_committed, created, staged, rolled_back, needs_review, failed, undone,
  committed_recovered, indeterminate, abandoned, committed, StateFile, StateRead, missing,
  unparseable, parsed, Manifest, Txn, Files, journal_writer_alive,
}
use liu_he.Journal.Recover.{
  recover_orphan, recover_txn, set_state, marked_committed, recover_read, recover_without,
  never_executed, assets_lost, is_ended, recover_unfinished, recover_ended, compare, may_differ,
  is_unsafe, is_unfinished, is_created, orphan_removed,
}

-- what a file holds before its write
abbrev pub content_before : Bool → Text → Option Text
content_before true content = none
content_before false content = some content

abbrev pub HasState : TxnState → StateRead → Type 0
HasState x missing = ⊥
HasState x unparseable = ⊥
HasState x (parsed s) = s.state ≡ x

-- no directory, or one of that name for a write that did not happen
abbrev pub IsDropped : Text → Option Txn → Type 0
IsDropped id none = Unit
IsDropped id (some t) = HasState abandoned t.state × (t.txn_id ≡ id)

-- a writer of which neither process runs
pub writer_gone :
    (running : ℕ → Bool) (t : Txn)
    → (ltb 0 t.pid ≡ true → running t.pid ≡ false)
    → running t.name_pid ≡ false
    → journal_writer_alive running t ≡ false
unfolding journal_writer_alive
writer_gone running t h k = elim (Bool-cases (ltb 0 t.pid)) [
  | inl e ↦ rw (e, h e) refl
  | inr e ↦ elim (Bool-cases (ltb 0 t.name_pid)) [
    | inl e' ↦ rw (e, e', k) refl
    | inr e' ↦ rw (e, e') refl
  ]
]

closed-created : (x : TxnState) → is_unfinished x ≡ false → is_created x ≡ false
closed-created created e = cc
closed-created staged e = refl
closed-created committed e = refl
closed-created rolled_back e = refl
closed-created abandoned e = refl
closed-created needs_review e = refl
closed-created failed e = refl
closed-created undone e = refl
closed-created committed_recovered e = refl
closed-created indeterminate e = refl

-- recovery takes these three neither for ended nor for open
unlisted-states :
    (x : TxnState)
    → (x ≡ undone) ⊎ ((x ≡ committed_recovered) ⊎ (x ≡ indeterminate))
    → (is_ended x ≡ false) × (is_unfinished x ≡ false)
unlisted-states x (inl e) = rw e (refl, refl)
unlisted-states x (inr (inl e)) = rw e (refl, refl)
unlisted-states x (inr (inr e)) = rw e (refl, refl)

module _ (hash : Text → Text) (running : ℕ → Bool) (index : Option (Text → Bool)) (now : Text)
    (files : Files) where
  pub orphan-removed :
      (t : Txn)
      → journal_writer_alive running t ≡ false
      → is_unsafe hash running index now files t t.manifest ≡ false
      → recover_orphan hash running index now files t ≡ (none, some orphan_removed)
  orphan-removed t e1 e2 = rw (e1, e2) refl

  unfinished-compare :
      (t : Txn) (s : StateFile) (m : Manifest) (b f : Option Text)
      → journal_writer_alive running t ≡ false
      → t.backup ≡ b
      → files m.file ≡ f
      → recover_unfinished hash running index now files t s (some m)
        ≡ compare hash running index now files t s b f
  unfinished-compare t s m b f e eb ef = rw e (
      subst
        (λ o.
          compare hash running index now files t s t.backup (files m.file)
          ≡ compare hash running index now files t s o f)
        eb (ap (compare hash running index now files t s t.backup) ef))

  -- a file that is as the backup, or not there, is left to the writes that come
  compare-same :
      (t : Txn) (s : StateFile) (b : Text)
      → is_unfinished s.state ≡ true
      → IsDropped t.txn_id (compare hash running index now files t s (some b) (some b)).0
  compare-same t s b e = rw (e, ===_refl (hash b)) (refl, refl)

  compare-gone :
      (t : Txn) (s : StateFile) (b : Option Text)
      → s.creates ≡ true
      → IsDropped t.txn_id (compare hash running index now files t s b none).0
  compare-gone t s none e = elim (Bool-cases (is_created s.state)) [
    | inl k ↦ rw k (refl, refl)
    | inr k ↦ rw (k, e) (refl, refl)
  ]
  compare-gone t s (some b) e = elim (Bool-cases (is_created s.state)) [
    | inl k ↦ rw k (refl, refl)
    | inr k ↦ rw (k, e) (refl, refl)
  ]

  compare-new :
      (t : Txn) (s : StateFile) (b c : Text)
      → is_unfinished s.state ≡ true
      → s.new_hash ≡ hash c
      → is_missing (hash c) ≡ false
      → (IsDropped t.txn_id (compare hash running index now files t s (some b) (some c)).0
          × (hash c ≡ hash b))
        ⊎ (compare hash running index now files t s (some b) (some c)
            ≡ set_state hash running index now files t (to_committed now s) marked_committed)
  compare-new t s b c e eh em = elim (same-cases (hash c) (hash b)) [
    | inl k ↦ inl (rw (e, k.0) (refl, refl), k.1)
    | inr k ↦ inr (rw (e, k.0, eh, em, ===_refl (hash c)) refl)
  ]

  pub may_differ-before :
      (creates : Bool) (b : Text)
      → may_differ hash running index now files (some b) (content_before creates b) ≡ false
  may_differ-before true b = refl
  may_differ-before false b = rw (===_refl (hash b)) refl

  pub unfinished-before :
      (creates : Bool) (t : Txn) (s : StateFile) (m : Manifest) (b : Text)
      → journal_writer_alive running t ≡ false
      → t.backup ≡ some b
      → is_unfinished s.state ≡ true
      → s.creates ≡ creates
      → files m.file ≡ content_before creates b
      → IsDropped t.txn_id (recover_unfinished hash running index now files t s (some m)).0
  unfinished-before true t s m b e eb eo ec ef =
      subst (λ r. IsDropped t.txn_id r.0) (sym (unfinished-compare t s m (some b) none e eb ef))
        (compare-gone t s (some b) ec)
  unfinished-before false t s m b e eb eo ec ef =
      subst (λ r. IsDropped t.txn_id r.0) (sym (unfinished-compare t s m (some b) (some b) e eb ef))
        (compare-same t s b eo)

  pub unfinished-after :
      (t : Txn) (s : StateFile) (m : Manifest) (b c : Text)
      → journal_writer_alive running t ≡ false
      → t.backup ≡ some b
      → is_unfinished s.state ≡ true
      → s.new_hash ≡ hash c
      → is_missing (hash c) ≡ false
      → files m.file ≡ some c
      → (IsDropped t.txn_id (recover_unfinished hash running index now files t s (some m)).0
          × (hash c ≡ hash b))
        ⊎ (recover_unfinished hash running index now files t s (some m)
            ≡ set_state hash running index now files t (to_committed now s) marked_committed)
  unfinished-after t s m b c e eb eo eh em ef =
      subst
        (λ r.
          (IsDropped t.txn_id r.0 × (hash c ≡ hash b))
          ⊎ (r ≡ set_state hash running index now files t (to_committed now s) marked_committed))
        (sym (unfinished-compare t s m (some b) (some c) e eb ef)) (compare-new t s b c eo eh em)

  pub ended-stays :
      (t : Txn) (s : StateFile) (o : Option (Text → Bool))
      → s.index_pending ≡ false
      → (recover_ended hash running index now files t s o).0 ≡ some t
  ended-stays t s none ei = refl
  ended-stays t s (some f) ei = rw ei refl

  compare-without :
      (t : Txn) (s : StateFile) (b f : Option Text)
      → is_unfinished s.state ≡ false
      → compare hash running index now files t s b f
        ≡ recover_without hash running index now files t s
  compare-without t s none f e = refl
  compare-without t s (some b) none e = refl
  compare-without t s (some b) (some c) e = rw e refl

  without-state :
      (t : Txn) (s : StateFile)
      → is_created s.state ≡ false
      → recover_without hash running index now files t s ≡ (
        some (record t {
          state = parsed (record s { state = if s.creates then abandoned else needs_review });
        }),
        some (if s.creates then never_executed else assets_lost),
      )
  without-state t s e = elim (Bool-cases s.creates) [
    | inl k ↦ rw (e, k) refl
    | inr k ↦ rw (e, k) refl
  ]

  -- A directory with a manifest, whose writer is gone, in the state undone,
  -- committed_recovered or indeterminate, is abandoned by recovery if it created its file and is
  -- otherwise put up for review, whatever the file holds.
  pub recover_txn-unlisted :
      (t : Txn) (s : StateFile) (m : Manifest)
      → t.state ≡ parsed s
      → t.manifest ≡ some m
      → journal_writer_alive running t ≡ false
      → (s.state ≡ undone) ⊎ ((s.state ≡ committed_recovered) ⊎ (s.state ≡ indeterminate))
      → recover_txn hash running index now files t ≡ (
        some (record t {
          state = parsed (record s { state = if s.creates then abandoned else needs_review });
        }),
        some (if s.creates then never_executed else assets_lost),
      )
  unfolding recover_txn
  recover_txn-unlisted t s m es em ea named =
      let (ee, eo) = unlisted-states s.state named in
      ap (recover_read hash running index now files t) es
      ∙ rw ee refl
      ∙ ap (recover_unfinished hash running index now files t s) em
      ∙ unfinished-compare t s m t.backup (files m.file) ea refl refl
      ∙ compare-without t s t.backup (files m.file) eo
      ∙ without-state t s (closed-created s.state eo)
