-- ===== src/Journal/TakenBack.antt =====
-- What recoverBatches of malong/write-journal.js makes of the marker of a batch that died: it takes back what
-- was written, or leaves it.
use liu_he.Base.{
  ℕ, suc, ◌<◌, ◌≡◌, refl, sym, ap, ◌∙◌, inl, inr, ◌≢◌, false, ltb, lt→ltb, some, List, [], ◌∷◌, All,
  All-map, All-map2, All-In, map, length, arith,
}
use liu_he.Base.Text.{Text, ===_iff, is_missing, same-cases}
use liu_he.Journal.{Txn, Files}
use liu_he.Journal.Crash.{before_write}
use liu_he.Journal.Undo.{Workspace, Host}
use liu_he.Journal.Partial.{committed_ids, recover_marker, roll_back_all}
use liu_he.Journal.Group.{
  Turn, group_marker, marked_ids, AreSettled, settled, removed, dropped, reached, AreApart,
}
use liu_he.Journal.Counted.{id_of, reached-All, HasPlace, AreSettled-HasPlace}
use liu_he.Journal.RolledBack.{IsReady, IsLetIn, roll_back_all-elsewhere, roll_back_all-before}

pub length-map : (turns : List Turn) → length (map id_of turns) ≡ length turns
length-map [] = refl
length-map (t ∷ turns) = ap suc (length-map turns)

not-less : (a b : ℕ) → a ≡ b → ltb a b ≡ false
not-less a b e = ground arith

length-files : (turns : List Turn) → length (map (λ t. t.intent.file) turns) ≡ length turns
length-files [] = refl
length-files (t ∷ turns) = ap suc (length-files turns)

module _ (hash : Text → Text) (host : Host) (now : Text) where
  pub reached-AreApart :
      (files : Files) (turns : List Turn) (txns : List Txn) (written : List Turn)
      → AreSettled hash files turns txns written
      → AreApart turns
      → AreApart written
  reached-AreApart files turns txns written settled a = tt
  reached-AreApart files turns txns written (removed b s) a = reached-AreApart files _ _ _ s a.1
  reached-AreApart files turns txns written (dropped d b s) a = reached-AreApart files _ _ _ s a.1
  reached-AreApart files turns txns written (reached {t = t} w b m s) a = (
    reached-All hash files
        (λ u. (u.intent.file ≢ t.intent.file) × (u.intent.txn_id ≢ t.intent.txn_id)) _ _ _ s a.0,
    reached-AreApart files _ _ _ s a.1,
  )

  IsReady-behind :
      (x : Txn) (txns : List Txn) (files : Files) (t u : Turn)
      → x.txn_id ≡ t.intent.txn_id
      → u.intent.txn_id ≢ t.intent.txn_id
      → IsReady hash host now (record { txns = txns; files = files }) u
      → IsReady hash host now (record { txns = x ∷ txns; files = files }) u
  IsReady-behind x txns files t u e n h = elim (same-cases x.txn_id u.intent.txn_id) [
    | inl k ↦ absurd (n (sym k.1 ∙ e))
    | inr k ↦ (rw k.0 h.0, h.1)
  ]

  behind_all :
      (x : Txn) (txns : List Txn) (files : Files) (t : Turn) (turns written : List Turn)
      → x.txn_id ≡ t.intent.txn_id
      → AreSettled hash files turns txns written
      → AreApart (t ∷ turns)
      → All (IsReady hash host now (record { txns = txns; files = files })) written
      → All (IsReady hash host now (record { txns = x ∷ txns; files = files })) written
  behind_all x txns files t turns written e s a h =
      All-map2 (λ u. (u.intent.file ≢ t.intent.file) × (u.intent.txn_id ≢ t.intent.txn_id))
        (IsReady hash host now (record { txns = txns; files = files }))
        (IsReady hash host now (record { txns = x ∷ txns; files = files }))
        (λ u n k. IsReady-behind x txns files t u e n.1 k) written
        (reached-All hash files
          (λ u. (u.intent.file ≢ t.intent.file) × (u.intent.txn_id ≢ t.intent.txn_id)) _ _ _ s a.0)
        h

  pub reached-IsReady :
      (files : Files) (turns : List Turn) (txns : List Txn) (written : List Turn)
      → AreSettled hash files turns txns written
      → AreApart turns
      → All (IsReady hash host now (record { txns = txns; files = files })) written
  reached-IsReady files turns txns written settled a = tt
  reached-IsReady files turns txns written (removed b s) a = reached-IsReady files _ _ _ s a.1
  reached-IsReady files turns txns written (dropped {t = t} {x = x} d b s) a =
      behind_all x _ files t _ _ d.1 s a (reached-IsReady files _ _ _ s a.1)
  reached-IsReady files turns txns written (reached {t = t} {x = x} w b m s) a = (
    (rw ((===_iff x.txn_id t.intent.txn_id).1 w.5) w, b),
    behind_all x _ files t _ _ w.5 s a (reached-IsReady files _ _ _ s a.1),
  )

  -- Too few: what was written is rolled back. All of them: nothing is done.
  pub recover_marker-fewer :
      (id : Text) (turns : List Turn) (ids : List Text) (w : Workspace)
      → committed_ids w.txns (marked_ids turns) ≡ ids
      → length ids < length turns
      → (recover_marker hash host now (group_marker id turns) w).0
        ≡ (roll_back_all hash host now ids w).0
  recover_marker-fewer id turns [] w e l = rw e refl
  recover_marker-fewer id turns (i ∷ ids) w e l =
      rw
        (
          e,
          length-files turns,
          lt→ltb 0 (length turns) (omega (arith, l)),
          lt→ltb 0 (suc (length ids)) (omega arith),
          lt→ltb (suc (length ids)) (length turns) l,
        )
        refl

  pub recover_marker-all :
      (id : Text) (turns : List Turn) (ids : List Text) (w : Workspace)
      → committed_ids w.txns (marked_ids turns) ≡ ids
      → length ids ≡ length turns
      → (recover_marker hash host now (group_marker id turns) w).0 ≡ w
  recover_marker-all id turns [] w e l = rw e refl
  recover_marker-all id turns (i ∷ ids) w e l =
      rw
        (
          e,
          length-files turns,
          lt→ltb 0 (length turns) (omega (arith, l)),
          not-less (suc (length ids)) (length turns) l,
          lt→ltb 0 (suc (length ids)) (omega arith),
        )
        refl

  -- the two outcomes for all files of the batch
  abbrev pub AllBefore : List Turn → Files → Type 0
  AllBefore turns files = All (λ t. files t.intent.file ≡ before_write t.intent) turns

  abbrev pub AllWritten : List Turn → Files → Type 0
  AllWritten turns files = All (λ t. files t.intent.file ≡ some t.content) turns

  pub rolled_back-elsewhere :
      ((a : Text) → is_missing (hash a) ≡ false)
      → (turns : List Turn) (txns : List Txn) (written : List Turn) (files : Files)
      → AreSettled hash files turns txns written
      → AreApart turns
      → All (IsLetIn hash host now) turns
      → (path : Text) → All (λ t. path ≢ t.intent.file) turns
      → (roll_back_all hash host now
            (map id_of written)
            (record { txns = txns; files = files })).0.files
          path
        ≡ files path
  rolled_back-elsewhere nonempty turns txns written files s a l path n =
      let w : Workspace = record { txns = txns; files = files } in
      roll_back_all-elsewhere hash host now nonempty written w path
        (reached-All hash files (IsLetIn hash host now) turns txns written s l)
        (reached-AreApart files turns txns written s a)
        (reached-IsReady files turns txns written s a)
        (reached-All hash files (λ t. path ≢ t.intent.file) turns txns written s n)

  pub rolled_back-AllBefore :
      ((a : Text) → is_missing (hash a) ≡ false)
      → (turns : List Turn) (txns : List Txn) (written : List Turn) (files : Files)
      → AreSettled hash files turns txns written
      → AreApart turns
      → All (IsLetIn hash host now) turns
      → AllBefore turns
          (roll_back_all hash host now
            (map id_of written)
            (record { txns = txns; files = files })).0.files
  rolled_back-AllBefore nonempty turns txns written files s a l =
      let w : Workspace = record { txns = txns; files = files } in
      let free = reached-All hash files (IsLetIn hash host now) turns txns written s l in
      let apart = reached-AreApart files turns txns written s a in
      let ready = reached-IsReady files turns txns written s a in
      let back = roll_back_all-before hash host now nonempty written w free apart ready in
      All-map (HasPlace hash files written) _
        (λ t place. elim place [
          | inl i ↦
              All-In
                (λ u.
                  (roll_back_all hash host now (map id_of written) w).0.files u.intent.file
                  ≡ before_write u.intent)
                t written back i
          | inr o ↦
              roll_back_all-elsewhere hash host now nonempty written w t.intent.file free apart
                ready o.1
              ∙ o.0
        ])
        turns (AreSettled-HasPlace hash files turns txns written s a)
