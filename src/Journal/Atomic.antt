-- ===== src/Journal/Atomic.antt =====
-- A strict batch that dies leaves all of its files as before or all as written, behind recoverBatches of
-- malong/write-journal.js.
use liu_he.Base.{
  ℕ, ◌<◌, ◌≡◌, refl, sym, subst, ◌∙◌, ◌⊎◌, inl, inr, ◌≢◌, Bool, false, Option, some, List, [], ◌∷◌,
  All, All-map, All-map2, map, length,
}
use liu_he.Base.Text.{Text, is_missing}
use liu_he.Journal.{Files}
use liu_he.Journal.Recover.{recover_journals}
use liu_he.Journal.Crash.{MayDie}
use liu_he.Journal.Undo.{Workspace, Host}
use liu_he.Journal.Partial.{Marker, BatchLock, is_batch_lock_alive, recover_marker, recover_batches}
use liu_he.Journal.Group.{Turn, group_world, group_marker, restart_group, AreSettled, AreApart}
use liu_he.Journal.Counted.{id_of, committed_ids-reached, reached-all}
use liu_he.Journal.RolledBack.{IsLetIn}
use liu_he.Journal.Grouped.{
  Untouched, MaySettle, group_world-Stands, group_world-elsewhere, recover_journals-AreSettled,
}
use liu_he.Journal.TakenBack.{
  length-map, recover_marker-fewer, recover_marker-all, AllBefore, AllWritten,
  rolled_back-AllBefore, rolled_back-elsewhere,
}

module _ (hash : Text → Text) (host : Host) (running : ℕ → Bool) (own_pid : ℕ)
    (index : Option (Text → Bool)) (now : Text) where
  -- the workspace that recoverBatches finds
  abbrev recovered : List Turn → Files → Workspace
  recovered turns files =
      let w = group_world hash turns files in
      record { txns = (recover_journals hash running index now w.files w.txns).0; files = w.files }

  recover_batches-unlocked :
      (w : Workspace) (m : Marker) (lock : Option BatchLock)
      → (is_batch_lock_alive running own_pid lock).0 ≡ false
      → (recover_batches hash host running own_pid now
          (record { world = w; markers = some m ∷ []; lock = lock })).0.world
        ≡ (recover_marker hash host now m w).0
  unfolding recover_batches
  recover_batches-unlocked w m lock e = rw e refl

  -- what the batch relies on, for each of its writes
  abbrev pub MayDieHere : Files → Turn → Type 0
  MayDieHere files t = MayDie running t.intent t.content files × IsLetIn hash host now t

  settled_batch :
      ((a b : Text) → hash a ≡ hash b → a ≡ b)
      → ((a : Text) → is_missing (hash a) ≡ false)
      → (turns : List Turn) (files : Files) → AreApart turns
      → All (MayDieHere files) turns
      → (written : List Turn) × AreSettled hash
          (recovered turns files).files
          turns
          (recovered turns files).txns
          written
  settled_batch injective nonempty turns files a h =
      let after = (group_world hash turns files).files in
      recover_journals-AreSettled hash running index now after injective nonempty turns files (
        All-map2 _ (MayDieHere files) (MaySettle hash running index now after)
          (λ t stands k. ((k.0).0, (k.0).2, stands)) turns
          (group_world-Stands hash turns files a
            (All-map (MayDieHere files) (Untouched hash files) (λ t k. (k.0).1) turns h))
          h)

  -- All of the batch or nothing, and nothing else.
  abbrev pub IsWhole : List Turn → Files → Workspace → Type 0
  IsWhole turns files w =
      (AllBefore hash host now turns w.files ⊎ AllWritten hash host now turns w.files)
      × ((path : Text) → All (λ t. path ≢ t.intent.file) turns → w.files path ≡ files path)

  -- A strict batch of writes to different files, in directories of different names, dies with each
  -- write behind any number of its steps. Its journal holds nothing else, hashes tell contents
  -- apart and are never empty, the files are as the writes found them and nobody blocks or locks
  -- them, a created file gets some content, and neither the processes nor a lock of the batch
  -- live. Then the restart, which recovers the journal and after it the batches, leaves either all
  -- of these files as before or all as written, and every other file as it was.
  pub restart_group-IsWhole :
      ((a b : Text) → hash a ≡ hash b → a ≡ b)
      → ((a : Text) → is_missing (hash a) ≡ false)
      → (id : Text) (lock : Option BatchLock) (turns : List Turn) (files : Files)
      → (is_batch_lock_alive running own_pid lock).0 ≡ false
      → AreApart turns
      → All (MayDieHere files) turns
      → IsWhole turns files
          (restart_group hash host running own_pid index now id lock turns files).world
  restart_group-IsWhole injective nonempty id lock turns files e a h =
      let (written, s) = settled_batch injective nonempty turns files a h in
      let w = recovered turns files in
      let ids = committed_ids-reached hash w.files turns w.txns written s a in
      let free = All-map (MayDieHere files) (IsLetIn hash host now) (λ t k. k.1) turns h in
      let goal = IsWhole turns files in
      let elsewhere = group_world-elsewhere hash turns files in
      subst goal (sym (recover_batches-unlocked w (group_marker id turns) lock e))
        (elim (reached-all hash w.files turns w.txns written s) [
          | inl k ↦
              subst goal
                (sym (
                  recover_marker-all hash host now id turns (map id_of written) w ids
                    (length-map written ∙ k.0)))
                (inr k.1, λ path n. elsewhere path n)
          | inr k ↦
              subst goal
                (sym (
                  recover_marker-fewer hash host now id turns (map id_of written) w ids
                    (subst (λ n. n < length turns) (sym (length-map written)) k)))
                (
                  inl (
                      rolled_back-AllBefore hash host now nonempty turns w.txns written w.files s a
                        free),
                  λ path n.
                      rolled_back-elsewhere hash host now nonempty turns w.txns written w.files s a
                        free path n
                      ∙ elsewhere path n,
                )
        ])
