-- ===== src/Journal/Grouped.antt =====
-- A batch that died, settled by recoverJournals of malong/write-journal.js.
use liu_he.Base.{
  ℕ, zero, suc, ◌≡◌, refl, sym, ap, subst, ◌∙◌, inl, inr, ◌≢◌, Bool, true, false, Option, none,
  some, List, [], ◌∷◌, All, All-map, All-map2,
}
use liu_he.Base.Text.{Text, is_missing}
use liu_he.Journal.{Txn, Files, Intent}
use liu_he.Journal.Put.{put_file-other}
use liu_he.Journal.Recover.{recover_txn, recover_journals, add_txn}
use liu_he.Journal.Crash.{crash_after, before_write, add_journal, is_renamed, restart}
use liu_he.Journal.Stages.{Stands, IsSettledAt, stage-settled, crash_after-files}
use liu_he.Journal.Restarted.{crash_after-Stands}
use liu_he.Journal.Group.{
  Turn, write_steps_of, is_marked, group_world, AreSettled, settled, removed, dropped, reached,
  AreApart,
}

marked-before_rename : (n : ℕ) → is_renamed (write_steps_of n) ≡ true → is_marked n ≡ true
marked-before_rename zero e = cc
marked-before_rename (suc zero) e = cc
marked-before_rename (suc (suc zero)) e = cc
marked-before_rename (suc (suc (suc zero))) e = cc
marked-before_rename (suc (suc (suc (suc zero)))) e = cc
marked-before_rename (suc (suc (suc (suc (suc zero))))) e = cc
marked-before_rename (suc (suc (suc (suc (suc (suc n)))))) e = refl

module _ (hash : Text → Text) where
  crash_after-elsewhere :
      (n : ℕ) (i : Intent) (content : Text) (files : Files) (path : Text)
      → path ≢ i.file
      → (crash_after n hash i content files).files path ≡ files path
  crash_after-elsewhere n i content files path h = elim (crash_after-files n hash i content files) [
    | inl k ↦ ap (λ (f : Files). f path) k.1
    | inr k ↦ ap (λ (f : Files). f path) k.1 ∙ put_file-other i.file path (some content) files h
  ]

  pub group_world-elsewhere :
      (turns : List Turn) (files : Files) (path : Text)
      → All (λ t. path ≢ t.intent.file) turns
      → (group_world hash turns files).files path ≡ files path
  group_world-elsewhere [] files path h = refl
  group_world-elsewhere (t ∷ turns) files path h =
      group_world-elsewhere turns
        (crash_after (write_steps_of t.steps) hash t.intent t.content files).files path h.1
      ∙ crash_after-elsewhere (write_steps_of t.steps) t.intent t.content files path h.0

  abbrev StandsIn : Files → Turn → Type 0
  StandsIn files t = Stands (write_steps_of t.steps) t.intent t.content files

  abbrev pub Untouched : Files → Turn → Type 0
  Untouched files t = files t.intent.file ≡ before_write t.intent

  Stands-elsewhere :
      (n : ℕ) (i : Intent) (content : Text) (f g : Files)
      → f i.file ≡ g i.file
      → Stands n i content g
      → Stands n i content f
  Stands-elsewhere n i content f g e (inl k) = inl (k.0, e ∙ k.1)
  Stands-elsewhere n i content f g e (inr k) = inr (k.0, e ∙ k.1)

  pub group_world-Stands :
      (turns : List Turn) (files : Files)
      → AreApart turns
      → All (Untouched files) turns
      → All (StandsIn (group_world hash turns files).files) turns
  group_world-Stands [] files a h = tt
  group_world-Stands (t ∷ turns) files a h =
      let k = write_steps_of t.steps in
      let here = (crash_after k hash t.intent t.content files).files in
      (
        Stands-elsewhere k t.intent t.content (group_world hash turns here).files here
            (group_world-elsewhere turns here t.intent.file (
              All-map (λ u. (u.intent.file ≢ t.intent.file) × (u.intent.txn_id ≢ t.intent.txn_id))
                (λ u. t.intent.file ≢ u.intent.file) (λ u n e. n.0 (sym e)) turns a.0))
            (crash_after-Stands hash k t.intent t.content files h.0),
        group_world-Stands turns here a.1 (
            All-map2 (λ u. (u.intent.file ≢ t.intent.file) × (u.intent.txn_id ≢ t.intent.txn_id))
              (Untouched files) (Untouched here)
              (λ u n b. crash_after-elsewhere k t.intent t.content files u.intent.file n.0 ∙ b)
              turns a.0 h.1),
      )

module _ (hash : Text → Text) (running : ℕ → Bool) (index : Option (Text → Bool)) (now : Text)
    (files : Files) where
  add_txn-add_journal :
      (o : Option Txn) (txns : List Txn)
      → add_txn hash running index now files o txns ≡ add_journal o txns
  add_txn-add_journal none txns = refl
  add_txn-add_journal (some t) txns = refl

  recover_journals-head :
      (o : Option Txn) (txns : List Txn)
      → (recover_journals hash running index now files (add_journal o txns)).0
        ≡ add_journal
            (restart hash running index now files o)
            (recover_journals hash running index now files txns).0
  unfolding recover_journals
  recover_journals-head none txns = refl
  recover_journals-head (some t) txns =
      add_txn-add_journal (recover_txn hash running index now files t).0
        (recover_journals hash running index now files txns).0

  settle_head :
      (t : Turn) (turns : List Turn) (txns : List Txn) (written : List Turn) (o : Option Txn)
      → IsSettledAt hash running index now files (write_steps_of t.steps) t.intent t.content o
      → AreSettled hash files turns txns written
      → (written' : List Turn) × AreSettled hash files (t ∷ turns) (add_journal o txns) written'
  settle_head t turns txns written none (inl k) s = (written, removed k.1 s)
  settle_head t turns txns written none (inr k) s = absurd k.1
  settle_head t turns txns written (some x) (inl k) s = (written, dropped k.0 k.1 s)
  settle_head t turns txns written (some x) (inr k) s =
      (t ∷ written, reached k.1 k.2 (marked-before_rename t.steps k.0) s)

  -- what is asked of each write of the batch
  abbrev pub MaySettle : Turn → Type 0
  MaySettle t =
      (running t.intent.own_pid ≡ false)
      × (t.intent.creates ≡ true → (t.intent.content ≡ []) × (t.content ≢ []))
      × StandsIn hash files t

  pub recover_journals-AreSettled :
      ((a b : Text) → hash a ≡ hash b → a ≡ b)
      → ((a : Text) → is_missing (hash a) ≡ false)
      → (turns : List Turn) (earlier : Files) → All MaySettle turns
      → (written : List Turn) × AreSettled hash files turns
          (recover_journals hash running index now files (group_world hash turns earlier).txns).0
          written
  unfolding recover_journals
  recover_journals-AreSettled injective nonempty [] earlier h = ([], settled)
  recover_journals-AreSettled injective nonempty (t ∷ turns) earlier h =
      let k = write_steps_of t.steps in
      let d = crash_after k hash t.intent t.content earlier in
      let rest = recover_journals-AreSettled injective nonempty turns d.files h.1 in
      let one =
        stage-settled hash running index now files k t.intent t.content earlier injective nonempty
          (h.0).0 (h.0).1 (h.0).2 in
      let all =
        settle_head t turns _ rest.0 (restart hash running index now files d.journal) one rest.1 in
      (
        all.0,
        subst (λ txns. AreSettled hash files (t ∷ turns) txns all.0)
            (sym (recover_journals-head d.journal (group_world hash turns d.files).txns)) all.1,
      )
