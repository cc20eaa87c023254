-- ===== src/Edit/Diff/Exact.antt =====
-- The diff of malong/write-edit.js is exact and as short as one hunk can be.
use liu_he.Base.{
  ℕ, ◌-◌, ◌≡◌, refl, sym, ap, ◌∙◌, List, [], ◌∷◌, ◌++◌, length, take, drop, take-append-drop,
  length-drop, length-take, length-append, arith,
}
use liu_he.Base.Text.{Text}
use liu_he.Edit.Diff.{
  FirstsDiffer, IsDiff, PrefixSpec, common_prefix, common_prefix_lem, common_suffix, slice_changed,
  make_simple_diff,
}
use mathlib.Core.Path.{ap₂, subst₂}
use mathlib.Core.List.{reverse, reverse-append, reverse-reverse}

length-reverse : (xs : List Text) → length (reverse xs) ≡ length xs
length-reverse [] = refl
length-reverse (x ∷ xs) = omega (
  arith,
  ap (length {A = Text}) (reverse-append (x ∷ []) xs),
  length-append (reverse xs) (x ∷ []),
  length-reverse xs,
)

take-length-append : (xs ys : List Text) → take (length xs) (xs ++ ys) ≡ xs
take-length-append [] ys = refl
take-length-append (x ∷ xs) ys = ap (λ (l : List Text). x ∷ l) (take-length-append xs ys)

-- what a suffix of `n` lines leaves, and that suffix
abbrev front : ℕ → List Text → List Text
front n xs = reverse (drop n (reverse xs))

abbrev back : ℕ → List Text → List Text
back n xs = reverse (take n (reverse xs))

front-append-back : (n : ℕ) (xs : List Text) → front n xs ++ back n xs ≡ xs
front-append-back n xs =
    sym (reverse-append (take n (reverse xs)) (drop n (reverse xs)))
    ∙ ap reverse (take-append-drop n (reverse xs))
    ∙ reverse-reverse xs

length-front : (n : ℕ) (xs : List Text) → length (front n xs) ≡ length xs - n
length-front n xs =
    omega
      (arith, length-reverse (drop n (reverse xs)), length-drop n (reverse xs), length-reverse xs)

-- the slice between a prefix of `p` lines and a suffix of `n` lines
slice_changed-front : (p n : ℕ) (xs : List Text) → slice_changed p n xs ≡ front n (drop p xs)
slice_changed-front p n xs =
    let o = drop p xs in
    let e : (length xs - n - p) ≡ length (front n o) =
      omega (arith, length-front n o, length-drop p xs) in
    ap (λ (k : ℕ). take k o) e
    ∙ ap (take (length (front n o))) (sym (front-append-back n o))
    ∙ take-length-append (front n o) (back n o)

FirstsDiffer-append :
    (xs ys zs : List Text) → FirstsDiffer (xs ++ zs) (ys ++ zs) → FirstsDiffer xs ys
FirstsDiffer-append [] ys zs h = tt
FirstsDiffer-append (x ∷ xs) [] zs h = tt
FirstsDiffer-append (x ∷ xs) (y ∷ ys) zs h = h

-- the two loops together: `p` lines are common at the start, and `n` at the end of what is left
module _ (old_lines new_lines : List Text) (p n : ℕ) (before : PrefixSpec old_lines new_lines p)
    (after : PrefixSpec (reverse (drop p old_lines)) (reverse (drop p new_lines)) n) where
  abbrev removed : List Text
  removed = slice_changed p n old_lines

  abbrev added : List Text
  added = slice_changed p n new_lines

  same_back : back n (drop p new_lines) ≡ back n (drop p old_lines)
  same_back = ap reverse (sym after.same)

  parts_of : (xs : List Text) → xs ≡ take p xs ++ (slice_changed p n xs ++ back n (drop p xs))
  parts_of xs =
      sym (take-append-drop p xs)
      ∙ ap (λ (l : List Text). take p xs ++ l)
          (sym (front-append-back n (drop p xs))
            ∙ ap (λ (l : List Text). l ++ back n (drop p xs)) (sym (slice_changed-front p n xs)))

  new_parts : new_lines ≡ take p old_lines ++ (added ++ back n (drop p old_lines))
  new_parts =
      parts_of new_lines ∙ ap₂ (λ (l m : List Text). l ++ (added ++ m)) (sym before.same) same_back

  first_lines : FirstsDiffer removed added
  first_lines =
      rw (slice_changed-front p n old_lines, slice_changed-front p n new_lines)
        (FirstsDiffer-append (front n (drop p old_lines)) (front n (drop p new_lines))
          (back n (drop p old_lines))
          (subst₂ FirstsDiffer (sym (front-append-back n (drop p old_lines)))
            (sym (
              ap (λ (l : List Text). front n (drop p new_lines) ++ l) (sym same_back)
              ∙ front-append-back n (drop p new_lines)))
            before.maximal))

  last_lines : FirstsDiffer (reverse removed) (reverse added)
  last_lines =
      rw (slice_changed-front p n old_lines, slice_changed-front p n new_lines)
        (subst₂ FirstsDiffer (sym (reverse-reverse (drop n (reverse (drop p old_lines)))))
          (sym (reverse-reverse (drop n (reverse (drop p new_lines))))) after.maximal)

-- The diff of two lists of lines is one hunk that turns the first into the second: the lines before
-- and after it are common, the hunk lists the removed lines with `-` and then the added ones with `+`,
-- its header and `lines_changed` count them, and neither the first nor the last removed line equals
-- the added one.
pub make_simple_diff-IsDiff :
    (old_lines new_lines : List Text)
    → IsDiff old_lines new_lines (make_simple_diff old_lines new_lines)
unfolding make_simple_diff
make_simple_diff-IsDiff old_lines new_lines =
    let p = common_prefix old_lines new_lines in
    let n = common_suffix p old_lines new_lines in
    let b = common_prefix_lem old_lines new_lines in
    let a = common_prefix_lem (reverse (drop p old_lines)) (reverse (drop p new_lines)) in
    let len : length (take p old_lines) ≡ p = omega (arith, length-take p old_lines, b.left) in
    record {
      before = take p old_lines;
      removed = slice_changed p n old_lines;
      added = slice_changed p n new_lines;
      after = back n (drop p old_lines);
      old_parts = parts_of old_lines new_lines p n b a old_lines;
      new_parts = new_parts old_lines new_lines p n b a;
      starts = (omega (arith, len), omega (arith, len));
      counts = (refl, refl);
      marked = refl;
      changed = refl;
      first = first_lines old_lines new_lines p n b a;
      last = last_lines old_lines new_lines p n b a;
    }
