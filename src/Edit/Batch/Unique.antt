-- ===== src/Edit/Batch/Unique.antt =====
-- A patch of malong/write-runtime.js replaces the one occurrence of its old text, and nothing else.
use liu_he.Base.{
  ℕ, zero, suc, ◌-◌, ◌≡◌, ◌≢◌, inl, inr, refl, sym, ap, ◌∙◌, Bool, true, false, Bool-cases, Option,
  none, some, List, [], ◌∷◌, ◌++◌, drop, length, ◌==◌, ==_iff, arith,
}
use liu_he.Base.Text.{Text, starts_with, split, join, join-split}
use mathlib.Core.Bool.{false≢true}
use liu_he.Edit.Apply.{count_from, count_occurrences}
use liu_he.Edit.Batch.{
  Applied, patch_mode, applied, already_applied, apply_batch_item, patch_item, patch_old,
  patch_scope, replace_first,
}

starts_with-drop : (p s : Text) → starts_with p s ≡ true → s ≡ p ++ drop (length p) s
starts_with-drop [] s h = refl
starts_with-drop (a ∷ p) [] h = cc
starts_with-drop (a ∷ p) (b ∷ s) h = elim (Bool-cases (a == b)) [
  | inl e ↦ rw ((==_iff a b).0 e) (ap (λ (l : Text). b ∷ l) (starts_with-drop p s (ground arith)))
  | inr e ↦ ground arith
]

starts_with-append : (p s t : Text) → starts_with p s ≡ true → starts_with p (s ++ t) ≡ true
starts_with-append [] s t h = refl
starts_with-append (a ∷ p) [] t h = cc
starts_with-append (a ∷ p) (b ∷ s) t h = ground (arith, starts_with-append p s t)

count_from-skip :
    (needle : Text) (skip : ℕ) (s : Text)
    → count_from needle skip s ≡ count_from needle 0 (drop skip s)
unfolding count_from
count_from-skip needle zero s = refl
count_from-skip needle (suc skip) [] = refl
count_from-skip needle (suc skip) (c ∷ s) = count_from-skip needle skip s

-- The first of `suc k` occurrences, which a replacement takes.
record IsFirst (needle new s : Text) (k : ℕ) : Type 0 where
  before : Text
  after : Text
  found : s ≡ before ++ (needle ++ after)
  replaced : replace_first needle new s ≡ before ++ (new ++ after)
  none_before : count_from needle 0 before ≡ 0
  left_over : count_from needle 0 after ≡ k

module _ (d : ℕ) (needle new : Text) where
  count_from-hit :
      (c : ℕ) (s : Text)
      → starts_with (d ∷ needle) (c ∷ s) ≡ true
      → count_from (d ∷ needle) 0 (c ∷ s) ≡ suc (count_from (d ∷ needle) 0 (drop (length needle) s))
  unfolding count_from
  count_from-hit c s hit =
      let one : (suc (length needle) - 1) ≡ length needle = omega arith in
      rw hit (
        ap (λ (n : ℕ). suc (count_from (d ∷ needle) n s)) one
        ∙ ap suc (count_from-skip (d ∷ needle) (length needle) s))

  count_from-miss :
      (c : ℕ) (s : Text)
      → starts_with (d ∷ needle) (c ∷ s) ≡ false
      → count_from (d ∷ needle) 0 (c ∷ s) ≡ count_from (d ∷ needle) 0 s
  unfolding count_from
  count_from-miss c s miss = rw miss refl

  IsFirst-hit :
      (c : ℕ) (s : Text) (k : ℕ)
      → starts_with (d ∷ needle) (c ∷ s) ≡ true
      → count_from (d ∷ needle) 0 (c ∷ s) ≡ suc k
      → IsFirst (d ∷ needle) new (c ∷ s) k
  unfolding replace_first
  IsFirst-hit c s k hit h = record {
    before = [];
    after = drop (length needle) s;
    found = starts_with-drop (d ∷ needle) (c ∷ s) hit;
    replaced = rw hit refl;
    none_before = unfold count_from in refl;
    left_over = omega (arith, sym (count_from-hit c s hit) ∙ h);
  }

  miss_before :
      (c : ℕ) (s before rest : Text)
      → starts_with (d ∷ needle) (c ∷ s) ≡ false
      → s ≡ before ++ d ∷ rest
      → starts_with (d ∷ needle) (c ∷ before) ≡ false
  miss_before c s before rest miss e = elim (Bool-cases (starts_with (d ∷ needle) (c ∷ before))) [
    | inl hit ↦ absurd (
        false≢true (
          sym miss
          ∙ ap (λ (l : Text). starts_with (d ∷ needle) (c ∷ l)) e
          ∙ starts_with-append (d ∷ needle) (c ∷ before) (d ∷ rest) hit))
    | inr no_hit ↦ no_hit
  ]

  IsFirst-miss :
      (c : ℕ) (s : Text) (k : ℕ)
      → starts_with (d ∷ needle) (c ∷ s) ≡ false
      → IsFirst (d ∷ needle) new s k
      → IsFirst (d ∷ needle) new (c ∷ s) k
  unfolding replace_first
  IsFirst-miss c s k miss h = record {
    before = c ∷ h.before;
    after = h.after;
    found = ap (λ (l : Text). c ∷ l) h.found;
    replaced = rw miss (ap (λ (l : Text). c ∷ l) h.replaced);
    none_before =
        count_from-miss c h.before (miss_before c s h.before (needle ++ h.after) miss h.found)
        ∙ h.none_before;
    left_over = h.left_over;
  }

  count_from-IsFirst :
      (s : Text) (k : ℕ) → count_from (d ∷ needle) 0 s ≡ suc k → IsFirst (d ∷ needle) new s k
  count_from-IsFirst [] k h = absurd (unfold count_from in ground arith)
  count_from-IsFirst (c ∷ s) k h = elim (Bool-cases (starts_with (d ∷ needle) (c ∷ s))) [
    | inl hit ↦ IsFirst-hit c s k hit h
    | inr miss ↦
        IsFirst-miss c s k miss (count_from-IsFirst s k (sym (count_from-miss c s miss) ∙ h))
  ]

-- What an applied patch of a whole file does to its text: the old text occurs there, not once more in
-- what is before it or behind it, and the new text stands there instead.
pub record IsUnique (old new s t : Text) : Type 0 where
  pub before : Text
  pub after : Text
  pub found : s ≡ before ++ (old ++ after)
  pub replaced : t ≡ before ++ (new ++ after)
  pub none_before : count_occurrences before old ≡ 0
  pub none_after : count_occurrences after old ≡ 0

-- an applied patch that is not there already has counted one occurrence
patch_old-once :
    (lines : List Text) (d : ℕ) (old new : Text) (r : Applied)
    → patch_old lines none (some (d ∷ old)) (some new) ≡ applied r
    → r.status ≢ already_applied
    → (count_occurrences (join lines) (d ∷ old) ≡ 1)
      × (patch_scope lines none (d ∷ old) (some new) ≡ applied r)
unfolding patch_old
patch_old-once lines d old new r h fresh = ground arith

patch_scope-lines :
    (lines : List Text) (old new : Text) (r : Applied)
    → patch_scope lines none old (some new) ≡ applied r
    → join r.lines ≡ replace_first old new (join lines)
unfolding patch_scope
patch_scope-lines lines old new r h =
    let e : split (replace_first old new (join lines)) ≡ r.lines = cc in
    ap join (sym e) ∙ join-split (replace_first old new (join lines))

-- A patch of a whole file that is applied, and that did not find its new text there already, has found
-- its old text in the file, with no further occurrence wholly before or wholly behind it, and puts the
-- new text there; the rest stays as it was.
pub apply_batch_item-IsUnique :
    (lines : List Text) (old new : Text) (content : Option Text) (body : Bool) (r : Applied)
    → apply_batch_item lines none
        (record {
          content = content;
          patch = some (record { old_string = some old; new_string = some new });
        })
        patch_mode
        body
      ≡ applied r
    → r.status ≢ already_applied
    → IsUnique old new (join lines) (join r.lines)
unfolding apply_batch_item patch_item
apply_batch_item-IsUnique lines [] new content body r h fresh = unfold patch_old in cc
apply_batch_item-IsUnique lines (d ∷ old) new content body r h fresh =
    let (once, scope) = patch_old-once lines d old new r h fresh in
    let first = count_from-IsFirst d old new (join lines) 0 (unfold count_occurrences in once) in
    record {
      before = first.before;
      after = first.after;
      found = first.found;
      replaced = patch_scope-lines lines (d ∷ old) new r scope ∙ first.replaced;
      none_before = unfold count_occurrences in first.none_before;
      none_after = unfold count_occurrences in first.left_over;
    }
