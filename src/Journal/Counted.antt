-- ===== src/Journal/Counted.antt =====
-- What recoverBatches of malong/write-journal.js counts as committed of a batch that recovery has settled.
use liu_he.Base.{
  suc, ◌<◌, ◌≡◌, refl, sym, ap, ◌∙◌, ◌⊎◌, inl, inr, ◌≢◌, Bool, true, false, Bool-cases, none, some,
  if◌then◌else◌, List, [], ◌∷◌, All, All-map, All-map2, In, map, length, arith,
}
use liu_he.Base.Text.{Text, ===_iff, same-cases}
use liu_he.Journal.{StateRead, missing, unparseable, parsed, abandoned, Txn, Files, Intent}
use liu_he.Journal.Judged.{HasState}
use liu_he.Journal.Crash.{before_write, IsWritten}
use liu_he.Journal.Undo.{find_txn}
use liu_he.Journal.Partial.{is_committed_read, committed_ids}
use liu_he.Journal.Group.{
  Turn, is_marked, marked_ids, AreSettled, settled, removed, dropped, reached, AreApart,
}

abbrev pub id_of : Turn → Text
id_of t = t.intent.txn_id

abandoned-passed : (r : StateRead) → HasState abandoned r → is_committed_read r ≡ false
abandoned-passed missing h = refl
abandoned-passed unparseable h = refl
abandoned-passed (parsed s) h = rw h refl

module _ (hash : Text → Text) (files : Files) where
  written-committed :
      (i : Intent) (content : Text) (x : Txn)
      → IsWritten hash i content (some x)
      → is_committed_read x.state ≡ true
  written-committed i content x h = rw (h.1, h.2) refl

  -- A directory of another name is not found.
  find-absent :
      (id : Text) (turns : List Turn) (txns : List Txn) (written : List Turn)
      → AreSettled hash files turns txns written
      → All (λ u. u.intent.txn_id ≢ id) turns
      → find_txn id txns ≡ none
  find-absent id turns txns written settled h = refl
  find-absent id turns txns written (removed b s) h = find-absent id _ _ _ s h.1
  find-absent id turns txns written (dropped {t = t} {x = x} d b s) h =
      elim (same-cases x.txn_id id) [
        | inl k ↦ absurd (h.0 (sym d.1 ∙ k.1))
        | inr k ↦ rw k.0 (find-absent id _ _ _ s h.1)
      ]
  find-absent id turns txns written (reached {t = t} {x = x} w b m s) h =
      elim (same-cases x.txn_id id) [
        | inl k ↦ absurd (h.0 (sym w.5 ∙ k.1))
        | inr k ↦ rw k.0 (find-absent id _ _ _ s h.1)
      ]

  committed_ids-skip :
      (x : Txn) (txns : List Txn) (turns : List Turn)
      → All (λ u. u.intent.txn_id ≢ x.txn_id) turns
      → committed_ids (x ∷ txns) (marked_ids turns) ≡ committed_ids txns (marked_ids turns)
  committed_ids-skip x txns [] h = refl
  committed_ids-skip x txns (u ∷ turns) h = elim (Bool-cases (is_marked u.steps)) [
    | inl m ↦ elim (same-cases x.txn_id u.intent.txn_id) [
      | inl k ↦ absurd (h.0 (sym k.1))
      | inr k ↦ rw (m, k.0, committed_ids-skip x txns turns h.1) refl
    ]
    | inr m ↦ rw m (committed_ids-skip x txns turns h.1)
  ]

  other_ids :
      (t : Turn) (id : Text) (turns : List Turn)
      → id ≡ t.intent.txn_id
      → AreApart (t ∷ turns)
      → All (λ u. u.intent.txn_id ≢ id) turns
  other_ids t id turns e a =
      All-map (λ u. (u.intent.file ≢ t.intent.file) × (u.intent.txn_id ≢ t.intent.txn_id))
        (λ u. u.intent.txn_id ≢ id) (λ u h k. h.1 (k ∙ e)) turns a.0

  -- the head of what is left, asked for its own name
  committed_ids-head :
      (t : Turn) (x : Txn) (txns : List Txn) (turns : List Turn) (b : Bool)
      → x.txn_id ≡ t.intent.txn_id
      → is_committed_read x.state ≡ b
      → AreApart (t ∷ turns)
      → is_marked t.steps ≡ true
      → committed_ids (x ∷ txns) (marked_ids (t ∷ turns)) ≡ (
          if b
          then id_of t ∷ committed_ids txns (marked_ids turns)
          else committed_ids txns (marked_ids turns))
  committed_ids-head t x txns turns b e c a m =
      rw
        (
          m,
          (===_iff x.txn_id t.intent.txn_id).1 e,
          c,
          committed_ids-skip x txns turns (other_ids t x.txn_id turns e a),
        )
        refl

  -- The ids that count are those of the writes that reached their file.
  pub committed_ids-reached :
      (turns : List Turn) (txns : List Txn) (written : List Turn)
      → AreSettled hash files turns txns written
      → AreApart turns
      → committed_ids txns (marked_ids turns) ≡ map id_of written
  committed_ids-reached turns txns written settled a = refl
  committed_ids-reached turns txns written (removed {t = t} b s) a =
      elim (Bool-cases (is_marked t.steps)) [
        | inl m ↦
            rw (m, find-absent t.intent.txn_id _ _ _ s (other_ids t t.intent.txn_id _ refl a))
              (committed_ids-reached _ _ _ s a.1)
        | inr m ↦ rw m (committed_ids-reached _ _ _ s a.1)
      ]
  committed_ids-reached turns txns written (dropped {t = t} {x = x} d b s) a =
      elim (Bool-cases (is_marked t.steps)) [
        | inl m ↦
            committed_ids-head t x _ _ false d.1 (abandoned-passed x.state d.0) a m
            ∙ committed_ids-reached _ _ _ s a.1
        | inr m ↦ rw m (
            committed_ids-skip x _ _ (other_ids t x.txn_id _ d.1 a)
            ∙ committed_ids-reached _ _ _ s a.1)
      ]
  committed_ids-reached turns txns written (reached {t = t} {x = x} w b m s) a =
      committed_ids-head t x _ _ true w.5 (written-committed t.intent t.content x w) a m
      ∙ ap (λ (ids : List Text). id_of t ∷ ids) (committed_ids-reached _ _ _ s a.1)

  -- Either all have reached their files, or fewer than there are.
  pub reached-all :
      (turns : List Turn) (txns : List Txn) (written : List Turn)
      → AreSettled hash files turns txns written
      → ((length written ≡ length turns) × All (λ t. files t.intent.file ≡ some t.content) turns)
        ⊎ (length written < length turns)
  reached-all turns txns written settled = inl (refl, tt)
  reached-all turns txns written (removed b s) = elim (reached-all _ _ _ s) [
    | inl h ↦ inr (omega (arith, h.0))
    | inr h ↦ inr (omega (arith, h))
  ]
  reached-all turns txns written (dropped d b s) = elim (reached-all _ _ _ s) [
    | inl h ↦ inr (omega (arith, h.0))
    | inr h ↦ inr (omega (arith, h))
  ]
  reached-all turns txns written (reached w b m s) = elim (reached-all _ _ _ s) [
    | inl h ↦ inl (ap suc h.0, (b, h.1))
    | inr h ↦ inr (omega (arith, h))
  ]

  pub reached-All :
      (P : Turn → Type 0) (turns : List Turn) (txns : List Txn) (written : List Turn)
      → AreSettled hash files turns txns written
      → All P turns
      → All P written
  reached-All P turns txns written settled h = tt
  reached-All P turns txns written (removed b s) h = reached-All P _ _ _ s h.1
  reached-All P turns txns written (dropped d b s) h = reached-All P _ _ _ s h.1
  reached-All P turns txns written (reached w b m s) h = (h.0, reached-All P _ _ _ s h.1)

  -- a write that reached its file, or one whose file is as before and that no such write has touched
  abbrev pub HasPlace : List Turn → Turn → Type 0
  HasPlace written t =
      In t written
      ⊎ ((files t.intent.file ≡ before_write t.intent)
          × All (λ u. t.intent.file ≢ u.intent.file) written)

  HasPlace-untouched :
      (t : Turn) (turns : List Turn) (txns : List Txn) (written : List Turn)
      → AreSettled hash files turns txns written
      → AreApart (t ∷ turns)
      → files t.intent.file ≡ before_write t.intent
      → HasPlace written t
  HasPlace-untouched t turns txns written s a b = inr (
    b,
    reached-All (λ u. t.intent.file ≢ u.intent.file) turns txns written s
        (All-map (λ u. (u.intent.file ≢ t.intent.file) × (u.intent.txn_id ≢ t.intent.txn_id))
          (λ u. t.intent.file ≢ u.intent.file) (λ u h e. h.0 (sym e)) turns a.0),
  )

  HasPlace-reached :
      (t : Turn) (turns written : List Turn)
      → AreApart (t ∷ turns)
      → All (HasPlace written) turns
      → All (HasPlace (t ∷ written)) turns
  HasPlace-reached t turns written a h =
      All-map2 (λ u. (u.intent.file ≢ t.intent.file) × (u.intent.txn_id ≢ t.intent.txn_id))
        (HasPlace written) (HasPlace (t ∷ written))
        (λ u ne k. elim k [ inl i ↦ inl (inr i) | inr b ↦ inr (b.0, (ne.0, b.1)) ]) turns a.0 h

  pub AreSettled-HasPlace :
      (turns : List Turn) (txns : List Txn) (written : List Turn)
      → AreSettled hash files turns txns written
      → AreApart turns
      → All (HasPlace written) turns
  AreSettled-HasPlace turns txns written settled a = tt
  AreSettled-HasPlace turns txns written (removed {t = t} b s) a =
      (HasPlace-untouched t _ _ _ s a b, AreSettled-HasPlace _ _ _ s a.1)
  AreSettled-HasPlace turns txns written (dropped {t = t} d b s) a =
      (HasPlace-untouched t _ _ _ s a b, AreSettled-HasPlace _ _ _ s a.1)
  AreSettled-HasPlace turns txns written (reached {t = t} w b m s) a =
      (inl (inl refl), HasPlace-reached t _ _ a (AreSettled-HasPlace _ _ _ s a.1))
