-- ===== src/Journal/Restarted.antt =====
-- What a crash in the middle of a write by writeSymbol of malong/write-runtime.js comes to.
use liu_he.Base.{ℕ, ◌≡◌, ◌∙◌, ap, inl, inr, Bool, false, Option, some}
use liu_he.Base.Text.{Text, is_missing}
use liu_he.Journal.{Files, Intent}
use liu_he.Journal.Put.{put_file-same}
use liu_he.Journal.Crash.{crash_after, before_write, restart, IsSettled, MayDie}
use liu_he.Journal.Stages.{Stands, stage-settled, crash_after-files}

pub crash_after-Stands :
    (hash : Text → Text) (n : ℕ) (i : Intent) (content : Text) (files : Files)
    → files i.file ≡ before_write i
    → Stands n i content (crash_after n hash i content files).files
crash_after-Stands hash n i content files h = elim (crash_after-files n hash i content files) [
  | inl k ↦ inl (k.0, ap (λ (f : Files). f i.file) k.1 ∙ h)
  | inr k ↦ inr (k.0, ap (λ (f : Files). f i.file) k.1 ∙ put_file-same i.file (some content) files)
]

module _ (hash : Text → Text) (running : ℕ → Bool) (index : Option (Text → Bool)) (now : Text) where
  -- If hashes tell contents apart and are never empty, the file is as the write found it, and a
  -- write that creates a file starts from an empty backup and gives it some content, then a write
  -- whose process dies behind any of its steps is settled after a restart: either its directory is
  -- gone or abandoned and the file is as before, or it is committed with the backup and the hash
  -- that an undo needs, and the file holds the new content.
  pub recover-after_crash :
      ((a b : Text) → hash a ≡ hash b → a ≡ b)
      → ((a : Text) → is_missing (hash a) ≡ false)
      → (n : ℕ) (i : Intent) (content : Text) (files : Files) → MayDie running i content files
      → let d = crash_after n hash i content files in
        IsSettled hash running index now i content d.files
          (restart hash running index now d.files d.journal)
  recover-after_crash injective nonempty n i content files h =
      elim (stage-settled hash running index now (crash_after n hash i content files).files n i
        content files injective nonempty h.0 h.2 (crash_after-Stands hash n i content files h.1)) [
          | inl k ↦ inl k
          | inr k ↦ inr (k.1, k.2)
        ]
