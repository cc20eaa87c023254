-- ===== src/Edit/Batch/Locality.antt =====
-- A batch item of malong/write-runtime.js changes its symbol's lines only, and reports the length.
use liu_he.Base.{
  ℕ, zero, suc, ◌+◌, ◌-◌, ◌≤◌, ◌≡◌, ◌⊎◌, inl, inr, refl, sym, ap, ◌∙◌, subst, Bool, true, false,
  Option, none, some, List, [], ◌∷◌, ◌++◌, take, drop, length, take-append-drop, length-append,
  length-take, length-drop, if◌then◌else◌, arith,
}
use liu_he.Base.Text.{Text, split}
use liu_he.Base.Int.{sub_ℕ}
use mathlib.Core.List.{append_assoc}
use mathlib.Core.Option
use liu_he.Edit.Apply.{
  unless, EditResult, EditError, Edited, error, edited, apply_replace, apply_body_edit,
  apply_insert_after,
}
use liu_he.Edit.Batch.{
  Patch, WriteItem, ItemError, ItemResult, Applied, EditMode, patch_mode, replace_symbol,
  insert_after_symbol, unknown_mode, failed, applied, already_applied, apply_batch_item, patch_item,
  patch_old, patch_scope, content_item, replace_item, body_result, slice_text, replace_first,
}

abbrev Outside : List Text → ℕ → ℕ → List Text → List Text → Type 0
Outside lines a b middle new_lines = new_lines ≡ take (a - 1) lines ++ (middle ++ drop b lines)

-- Outside the lines `[a, b]` nothing changes; an applied edit reports the change of the length.
pub record IsLocal (lines : List Text) (a b : ℕ) (r : Applied) : Type 0 where
  pub middle : List Text
  pub outside : r.lines ≡ take (a - 1) lines ++ (middle ++ drop b lines)
  pub counted :
      ((r.status ≡ already_applied) × (r.lines ≡ lines))
      ⊎ (r.delta ≡ some (sub_ℕ (length r.lines) (length lines)))

data Post (lines : List Text) (a b : ℕ) : ItemResult → Type 0 where
  refused : {e : ItemError} → Post lines a b (failed e)
  local : {r : Applied} → IsLocal lines a b r → Post lines a b (applied r)

of_IsLocal :
    {lines : List Text} {a b : ℕ} {r : Applied} → Post lines a b (applied r) → IsLocal lines a b r
of_IsLocal (local h) = h

take-nil : (n : ℕ) → take n (let none_left : List Text = [] in none_left) ≡ []
take-nil zero = refl
take-nil (suc n) = refl

take_add : (m k : ℕ) (xs : List Text) → take (m + k) xs ≡ take m xs ++ take k (drop m xs)
take_add zero k xs = ap (λ (n : ℕ). take n xs) (omega arith)
take_add (suc m) k [] = take-nil (suc m + k) ∙ sym (take-nil k)
take_add (suc m) k (x ∷ xs) =
    let step : (suc m + k) ≡ suc (m + k) = omega arith in
    ap (λ (n : ℕ). take n (x ∷ xs)) step ∙ ap (λ (l : List Text). x ∷ l) (take_add m k xs)

-- differences with equal cross sums
sub_ℕ_eq : (a b c d : ℕ) → a + d ≡ c + b → sub_ℕ a b ≡ sub_ℕ c d
sub_ℕ_eq a b c d h = ground arith

module _ (lines : List Text) (a b : ℕ) (first : 1 ≤ a) (ordered : a ≤ b)
    (last : b ≤ length lines) where
  take-split :
      (n : ℕ)
      → a - 1 ≤ n
      → take n lines ≡ take (a - 1) lines ++ take (n - (a - 1)) (drop (a - 1) lines)
  take-split n h = ap (λ (k : ℕ). take k lines) (omega arith) ∙ take_add (a - 1) (n - (a - 1)) lines

  Post-if :
      (t : Bool) {x y : ItemResult}
      → Post lines a b x
      → Post lines a b y
      → Post lines a b (if t then x else y)
  Post-if true h k = h
  Post-if false h k = k

  -- the lines of the range stay in the middle
  unchanged-IsLocal :
      (r : Applied) → r.lines ≡ lines → r.status ≡ already_applied → IsLocal lines a b r
  unchanged-IsLocal r same status = record {
    middle = take (b - (a - 1)) (drop (a - 1) lines);
    outside =
        same
        ∙ sym (take-append-drop b lines)
        ∙ ap (λ (l : List Text). l ++ drop b lines) (take-split b (omega arith))
        ∙ append_assoc (take (a - 1) lines) (take (b - (a - 1)) (drop (a - 1) lines))
            (drop b lines);
    counted = inl (status, same);
  }

  -- the same, from a line on that is not before the range
  later-Outside :
      (n : ℕ) (added : List Text)
      → a - 1 ≤ n
      → Outside lines a b
          (take (n - (a - 1)) (drop (a - 1) lines) ++ added)
          (take n lines ++ (added ++ drop b lines))
  later-Outside n added h =
      let kept = take (n - (a - 1)) (drop (a - 1) lines) in
      ap (λ (l : List Text). l ++ (added ++ drop b lines)) (take-split n h)
      ∙ append_assoc (take (a - 1) lines) kept (added ++ drop b lines)
      ∙ ap (λ (l : List Text). take (a - 1) lines ++ l)
          (sym (append_assoc kept added (drop b lines)))

  length-patched :
      (middle : List Text)
      → length (take (a - 1) lines ++ (middle ++ drop b lines)) + (b + 1)
        ≡ length middle + a + length lines
  length-patched middle = omega (
    arith,
    length-append (take (a - 1) lines) (middle ++ drop b lines),
    length-append middle (drop b lines),
    length-take (a - 1) lines,
    length-drop b lines,
  )

  patch_scope-Post :
      (old : Text) (new : Option Text) → Post lines a b (patch_scope lines (some (a, b)) old new)
  unfolding patch_scope
  patch_scope-Post old new =
      let body = replace_first old (Option.get_or new []) (slice_text lines (a, b)) in
      local (record {
        middle = split body;
        outside = refl;
        counted = inr (ap some (sub_ℕ_eq _ _ _ _ (sym (length-patched (split body)))));
      })

  patch_old-Post : (old new : Option Text) → Post lines a b (patch_old lines (some (a, b)) old new)
  unfolding patch_old
  patch_old-Post none new = refused
  patch_old-Post (some []) new = refused
  patch_old-Post (some (c ∷ old)) new =
      Post-if _ (Post-if _ (local (unchanged-IsLocal _ refl refl)) refused)
        (Post-if _ refused (patch_scope-Post (c ∷ old) new))

  patch_item-Post : (p : Option Patch) → Post lines a b (patch_item lines (some (a, b)) p)
  unfolding patch_item
  patch_item-Post none = refused
  patch_item-Post (some p) = patch_old-Post p.old_string p.new_string

  -- an edit of `[a + 1, b]` keeps the first line of the range too
  data Kept : EditResult → Type 0 where
    nothing : {e : EditError} → Kept (error e)
    kept : {r : Edited} (middle : List Text) → Outside lines a b middle r.lines → Kept (edited r)

  Kept-unless :
      (single has_signature : Bool) (r : Edited) (middle : List Text)
      → Outside lines a b middle r.lines
      → Kept (unless single has_signature r)
  Kept-unless true has_signature r middle h = nothing
  Kept-unless false true r middle h = nothing
  Kept-unless false false r middle h = kept middle h

  body_edit-Kept : (content : Text) → Kept (apply_body_edit lines (a + 1, b) content)
  unfolding apply_body_edit
  body_edit-Kept content =
      Kept-unless _ _ _ (take (a + 1 - 1 - (a - 1)) (drop (a - 1) lines) ++ split content)
        (later-Outside (a + 1 - 1) (split content) (omega arith))

  body_result-Post : (r : EditResult) → Kept r → Post lines a b (body_result lines r)
  unfolding body_result
  body_result-Post (error e) nothing = refused
  body_result-Post (edited r) (kept middle outside) =
      local (record { middle = middle; outside = outside; counted = inr refl })

  replace_item-Post :
      (body : Bool) (content : Text) → Post lines a b (replace_item lines (a, b) body content)
  unfolding replace_item apply_replace
  replace_item-Post true content =
      Post-if _ (local (unchanged-IsLocal _ refl refl))
        (body_result-Post (apply_body_edit lines (a + 1, b) content) (body_edit-Kept content))
  replace_item-Post false content =
      Post-if _ (local (unchanged-IsLocal _ refl refl))
        (local (record { middle = split content; outside = refl; counted = inr refl }))

  content_item-Post :
      (content : Option Text) (mode : EditMode) (body : Bool)
      → Post lines a b (content_item lines (some (a, b)) content mode body)
  unfolding content_item apply_insert_after
  content_item-Post none mode body = refused
  content_item-Post (some content) replace_symbol body = replace_item-Post body content
  content_item-Post (some content) insert_after_symbol body = local (record {
    middle = take (b - (a - 1)) (drop (a - 1) lines) ++ split content;
    outside = later-Outside b (split content) (omega arith);
    counted = inr refl;
  })
  content_item-Post (some content) _ body = refused

  batch_item-Post :
      (w : WriteItem) (mode : EditMode) (body : Bool)
      → Post lines a b (apply_batch_item lines (some (a, b)) w mode body)
  unfolding apply_batch_item
  batch_item-Post w patch_mode body = patch_item-Post w.patch
  batch_item-Post w replace_symbol body = content_item-Post w.content replace_symbol body
  batch_item-Post w insert_after_symbol body = content_item-Post w.content insert_after_symbol body
  batch_item-Post w unknown_mode body = content_item-Post w.content unknown_mode body

-- Whatever the mode, an item that is applied to a symbol in the lines `[a, b]` of the file leaves all
-- lines before and after the symbol as they were; either it found its content there already and
-- changed nothing, or the `delta` that it reports is the exact change of the number of lines.
pub apply_batch_item-IsLocal :
    (lines : List Text) (a b : ℕ) (w : WriteItem) (mode : EditMode) (body : Bool) (r : Applied)
    → 1 ≤ a
    → a ≤ b
    → b ≤ length lines
    → apply_batch_item lines (some (a, b)) w mode body ≡ applied r
    → IsLocal lines a b r
apply_batch_item-IsLocal lines a b w mode body r first ordered last e =
    of_IsLocal (subst (Post lines a b) e (batch_item-Post lines a b first ordered last w mode body))
