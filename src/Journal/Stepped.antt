-- ===== src/Journal/Stepped.antt =====
-- The steps of a batch's undo, for restoreBatchJournals of malong/write-journal.js: taken in reverse, on
-- files that nobody has locked, and what each leaves in the files and in the journal.
use liu_he.Base.{
  ◌≡◌, refl, ap, ◌∙◌, inl, inr, ◌≢◌, false, Bool-cases, Option, none, some, List, [], ◌∷◌, ◌++◌,
}
use liu_he.Base.Text.{Text, ◌===◌, ===_refl}
use mathlib.Core.List.{reverse, reverse-cons}
use liu_he.Journal.{
  StateRead, missing, unparseable, parsed, Txn, undone, update_journal_state, update_read,
}
use liu_he.Journal.Put.{put_file-other}
use liu_he.Journal.Judged.{HasState}
use liu_he.Journal.Undo.{find_txn, update_txn, to_undone, Host}
use liu_he.Journal.Batch.{Member, Step, already, delete, restore, Progress, take_step, take_steps}

-- the directory of that name has a state that can be read, or says that it is undone
abbrev IsParsed : StateRead → Type 0
IsParsed missing = ⊥
IsParsed unparseable = ⊥
IsParsed (parsed s) = Unit

abbrev pub Holds : (StateRead → Type 0) → Option Txn → Type 0
Holds P none = ⊥
Holds P (some t) = P t.state

abbrev pub IsReadable : Option Txn → Type 0
IsReadable = Holds IsParsed

abbrev pub IsUndone : Option Txn → Type 0
IsUndone = Holds (HasState undone)

parsed-undone : (r : StateRead) → IsParsed r → HasState undone (update_read to_undone r)
parsed-undone missing h = h
parsed-undone unparseable h = h
parsed-undone (parsed s) h = refl

undone-kept : (r : StateRead) → HasState undone r → HasState undone (update_read to_undone r)
undone-kept missing h = h
undone-kept unparseable h = h
undone-kept (parsed s) h = refl

IsParsed-kept : (r : StateRead) → IsParsed r → IsParsed (update_read to_undone r)
IsParsed-kept missing h = h
IsParsed-kept unparseable h = h
IsParsed-kept (parsed s) h = tt

-- What an update keeps of a state it keeps of every directory.
find_txn-kept :
    (P : StateRead → Type 0)
    → ((r : StateRead) → P r → P (update_read to_undone r))
    → (id other : Text) (txns : List Txn) → Holds P (find_txn id txns)
    → Holds P (find_txn id (update_txn other to_undone txns))
unfolding update_journal_state
find_txn-kept P keep id other [] h = h
find_txn-kept P keep id other (t ∷ txns) h = elim (Bool-cases (t.txn_id === other)) [
  | inl e ↦ elim (Bool-cases (t.txn_id === id)) [
    | inl k ↦ rw (e, k) (keep t.state (rw k at h))
    | inr k ↦ rw (e, k) (find_txn-kept P keep id other txns (rw k at h))
  ]
  | inr e ↦ elim (Bool-cases (t.txn_id === id)) [
    | inl k ↦ rw (e, k) (rw k at h)
    | inr k ↦ rw (e, k) (find_txn-kept P keep id other txns (rw k at h))
  ]
]

pub find_txn-IsUndone :
    (id : Text) (txns : List Txn)
    → IsReadable (find_txn id txns)
    → IsUndone (find_txn id (update_txn id to_undone txns))
unfolding update_journal_state
find_txn-IsUndone id [] h = h
find_txn-IsUndone id (t ∷ txns) h = elim (Bool-cases (t.txn_id === id)) [
  | inl k ↦ rw (k, k) (parsed-undone t.state (rw k at h))
  | inr k ↦ rw (k, k) (find_txn-IsUndone id txns (rw k at h))
]

pub IsUndone-mark :
    (id other : Text) (txns : List Txn)
    → IsUndone (find_txn id txns)
    → IsUndone (find_txn id (update_txn other to_undone txns))
IsUndone-mark = find_txn-kept (HasState undone) undone-kept

pub IsReadable-mark :
    (id other : Text) (txns : List Txn)
    → IsReadable (find_txn id txns)
    → IsReadable (find_txn id (update_txn other to_undone txns))
IsReadable-mark = find_txn-kept IsParsed IsParsed-kept

module _ (hash : Text → Text) (host : Host) where
  -- the plan from its last step to its first
  abbrev pub undo_all : Progress → List (Member × Step) → Progress
  undo_all p [] = p
  undo_all p (x ∷ plan) = take_step hash host (undo_all p plan) x

  take_steps-append :
      (p : Progress) (xs : List (Member × Step)) (x : Member × Step)
      → take_steps hash host p (xs ++ x ∷ []) ≡ take_step hash host (take_steps hash host p xs) x
  take_steps-append p [] x = refl
  take_steps-append p (y ∷ xs) x = take_steps-append (take_step hash host p y) xs x

  pub take_steps-reverse :
      (p : Progress) (plan : List (Member × Step))
      → take_steps hash host p (reverse plan) ≡ undo_all p plan
  take_steps-reverse p [] = refl
  take_steps-reverse p (x ∷ plan) =
      ap (take_steps hash host p) (reverse-cons x plan)
      ∙ take_steps-append p (reverse plan) x
      ∙ ap (λ q. take_step hash host q x) (take_steps-reverse p plan)

  -- what a step leaves of the content of its file
  abbrev pub result : Step → Option Text → Option Text
  result already content = content
  result delete content = none
  result (restore backup) content = some backup

  pub take_step-here :
      (p : Progress) (m : Member) (step : Step)
      → host.is_locked m.manifest.file ≡ false
      → (take_step hash host p (m, step)).world.files m.manifest.file
        ≡ result step (p.world.files m.manifest.file)
  take_step-here p m already e = refl
  take_step-here p m delete e = rw (e, ===_refl m.manifest.file) refl
  take_step-here p m (restore backup) e = rw (e, ===_refl m.manifest.file) refl

  pub take_step-elsewhere :
      (p : Progress) (m : Member) (step : Step) (file : Text)
      → file ≢ m.manifest.file
      → host.is_locked m.manifest.file ≡ false
      → (take_step hash host p (m, step)).world.files file ≡ p.world.files file
  take_step-elsewhere p m already file h e = refl
  take_step-elsewhere p m delete file h e =
      rw e (put_file-other m.manifest.file file none p.world.files h)
  take_step-elsewhere p m (restore backup) file h e =
      rw e (put_file-other m.manifest.file file (some backup) p.world.files h)

  pub take_step-marks :
      (p : Progress) (m : Member) (step : Step)
      → host.is_locked m.manifest.file ≡ false
      → ((take_step hash host p (m, step)).world.txns
          ≡ update_txn m.txn.txn_id to_undone p.world.txns)
        × ((take_step hash host p (m, step)).failures ≡ p.failures)
  take_step-marks p m already e = (refl, refl)
  take_step-marks p m delete e = rw e (refl, refl)
  take_step-marks p m (restore backup) e = rw e (refl, refl)
