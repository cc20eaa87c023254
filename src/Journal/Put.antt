-- ===== src/Journal/Put.antt =====
-- Putting a content into a file of the workspace.
use liu_he.Base.{◌≡◌, refl, sym, ap, ◌∙◌, inl, inr, ◌≢◌, Option}
use liu_he.Base.Text.{Text, ===_refl, same-cases}
use liu_he.Journal.{Files, put_file}

pub put_file-same : (file : Text) (o : Option Text) (files : Files) → put_file file o files file ≡ o
put_file-same file o files = rw (===_refl file) refl

pub put_file-other :
    (file other : Text) (o : Option Text) (files : Files)
    → other ≢ file
    → put_file file o files other ≡ files other
put_file-other file other o files h = elim (same-cases other file) [
  | inl k ↦ absurd (h k.1)
  | inr k ↦ rw k.0 refl
]

pub put_file-back :
    (file : Text) (old new : Option Text) (files : Files)
    → files file ≡ old
    → (path : Text) → put_file file old (put_file file new files) path ≡ files path
put_file-back file old new files h path = elim (same-cases path file) [
  | inl k ↦ rw k.0 (sym h ∙ ap files (sym k.1))
  | inr k ↦ rw k.0 refl
]

pub put_file-unchanged :
    (file : Text) (o : Option Text) (files : Files)
    → files file ≡ o
    → (path : Text) → put_file file o files path ≡ files path
put_file-unchanged file o files h path = elim (same-cases path file) [
  | inl k ↦ rw k.0 (sym h ∙ ap files (sym k.1))
  | inr k ↦ rw k.0 refl
]
