-- ===== src/Edit/Diff.antt =====
-- `makeSimpleDiff` of malong/write-edit.js: one hunk between the common prefix and suffix.
pub mod Exact
use liu_he.Base.{
  ℕ, suc, ◌+◌, ◌-◌, ◌≡◌, ◌≢◌, ◌≤◌, refl, sym, ap, ◌∙◌, inl, inr, Bool-cases, List, [], ◌∷◌, ◌++◌,
  map, length, take, drop, max, if◌then◌else◌, arith,
}
use liu_he.Base.Text.{Text, ◌===◌, ===_iff}
use mathlib.Core.List.{reverse}
use mathlib.Core.Path.{ap₂}
use mathlib.Core.Bool.{false≢true}

-- The text of `patch` is the header of these four numbers and the lines of `hunk`.
pub record Diff : Type 0 where
  pub old_start : ℕ
  pub old_count : ℕ
  pub new_start : ℕ
  pub new_count : ℕ
  pub hunk : List Text
  pub lines_changed : ℕ

unfoldable pub common_prefix : List Text → List Text → ℕ
common_prefix [] new_lines = 0
common_prefix (_ ∷ _) [] = 0
common_prefix (a ∷ old_lines) (b ∷ new_lines) =
    let rest = common_prefix old_lines new_lines in if a === b then suc rest else 0

-- how many lines after the prefix are common at the end
unfoldable pub common_suffix : ℕ → List Text → List Text → ℕ
unfolding common_prefix
common_suffix prefix old_lines new_lines =
    common_prefix (reverse (drop prefix old_lines)) (reverse (drop prefix new_lines))

-- `lines.slice(prefix, lines.length - suffix)`
abbrev pub slice_changed : ℕ → ℕ → List Text → List Text
slice_changed prefix suffix lines = take (length lines - suffix - prefix) (drop prefix lines)

unfoldable pub make_simple_diff : List Text → List Text → Diff
unfolding common_suffix
make_simple_diff old_lines new_lines =
    let prefix = common_prefix old_lines new_lines in
    let suffix = common_suffix prefix old_lines new_lines in
    let old_changed = slice_changed prefix suffix old_lines in
    let new_changed = slice_changed prefix suffix new_lines in
    record {
      old_start = prefix + 1;
      old_count = length old_changed;
      new_start = prefix + 1;
      new_count = length new_changed;
      hunk = map (λ l. b'-' ∷ l) old_changed ++ map (λ l. b'+' ∷ l) new_changed;
      lines_changed = max (length old_changed) (length new_changed);
    }

-- the first lines, where both lists have one, are not equal
abbrev pub FirstsDiffer : List Text → List Text → Type 0
FirstsDiffer [] ys = Unit
FirstsDiffer (x ∷ xs) [] = Unit
FirstsDiffer (x ∷ xs) (y ∷ ys) = x ≢ y

record PrefixSpec (xs ys : List Text) (n : ℕ) : Type 0 where
  same : take n xs ≡ take n ys
  left : n ≤ length xs
  right : n ≤ length ys
  maximal : FirstsDiffer (drop n xs) (drop n ys)

common_prefix_lem : (xs ys : List Text) → PrefixSpec xs ys (common_prefix xs ys)
unfolding common_prefix
common_prefix_lem [] ys = record {
  same = refl;
  left = omega arith;
  right = omega arith;
  maximal = tt;
}
common_prefix_lem (x ∷ xs) [] = record {
  same = refl;
  left = omega arith;
  right = omega arith;
  maximal = tt;
}
common_prefix_lem (x ∷ xs) (y ∷ ys) =
    let ih = common_prefix_lem xs ys in
    elim (Bool-cases (x === y)) [
      | inl e ↦ rw e (record {
        same = ap₂ (λ (a : Text) (l : List Text). a ∷ l) ((===_iff x y).0 e) ih.same;
        left = omega (arith, ih.left);
        right = omega (arith, ih.right);
        maximal = ih.maximal;
      })
      | inr e ↦ rw e (record {
        same = refl;
        left = omega arith;
        right = omega arith;
        maximal = λ q. false≢true (sym e ∙ (===_iff x y).1 q);
      })
    ]

-- The hunk is a difference between the two lists: `before` and `after` are common, and what is
-- between is removed and added.
pub record IsDiff (old_lines new_lines : List Text) (d : Diff) : Type 0 where
  pub before : List Text
  pub removed : List Text
  pub added : List Text
  pub after : List Text
  pub old_parts : old_lines ≡ before ++ (removed ++ after)
  pub new_parts : new_lines ≡ before ++ (added ++ after)
  pub starts : (d.old_start ≡ length before + 1) × (d.new_start ≡ length before + 1)
  pub counts : (d.old_count ≡ length removed) × (d.new_count ≡ length added)
  pub marked : d.hunk ≡ map (λ l. b'-' ∷ l) removed ++ map (λ l. b'+' ∷ l) added
  pub changed : d.lines_changed ≡ max (length removed) (length added)
  pub first : FirstsDiffer removed added
  pub last : FirstsDiffer (reverse removed) (reverse added)
