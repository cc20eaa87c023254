-- ===== src/Base/Sort.antt =====
-- Sorting by insertion, with a test that says whether the first is put behind the second: as stable as
-- JavaScript's sort.
use mathlib.Core.Path.{refl, sym, subst}
use mathlib.Core.Logic.{inl, inr}
use mathlib.Core.Bool.{Bool}
use mathlib.Core.List.{List, [], ◌∷◌}
use liu_he.Base.Tests.{Bool-cases, if◌then◌else◌}
use liu_he.Base.Lists.{All, In}

module _ {A : Type 0} (after : A → A → Bool) where
  abbrev pub insert_by : A → List A → List A
  insert_by x [] = x ∷ []
  insert_by x (y ∷ ys) = let later = insert_by x ys in if after x y then y ∷ later else x ∷ y ∷ ys

  abbrev pub sort_by : List A → List A
  sort_by [] = []
  sort_by (x ∷ xs) = insert_by x (sort_by xs)

  pub insert_by-All :
      (P : A → Type 0) (x : A) (xs : List A) → P x → All P xs → All P (insert_by x xs)
  insert_by-All P x [] p h = (p, tt)
  insert_by-All P x (y ∷ ys) p h = elim (Bool-cases (after x y)) [
    | inl e ↦ rw e (h.0, insert_by-All P x ys p h.1)
    | inr e ↦ rw e (p, h)
  ]

  -- What holds of all elements holds of them in order.
  pub sort_by-All : (P : A → Type 0) (xs : List A) → All P xs → All P (sort_by xs)
  sort_by-All P [] h = tt
  sort_by-All P (x ∷ xs) h = insert_by-All P x (sort_by xs) h.0 (sort_by-All P xs h.1)

  In-insert_by_here : (x : A) (xs : List A) → In x (insert_by x xs)
  In-insert_by_here x [] = inl refl
  In-insert_by_here x (y ∷ ys) = elim (Bool-cases (after x y)) [
    | inl e ↦ rw e (inr (In-insert_by_here x ys))
    | inr e ↦ rw e (inl refl)
  ]

  In-insert_by_later : (x y : A) (xs : List A) → In x xs → In x (insert_by y xs)
  In-insert_by_later x y [] i = absurd i
  In-insert_by_later x y (z ∷ xs) (inl h) = elim (Bool-cases (after y z)) [
    | inl e ↦ rw e (inl h)
    | inr e ↦ rw e (inr (inl h))
  ]
  In-insert_by_later x y (z ∷ xs) (inr h) = elim (Bool-cases (after y z)) [
    | inl e ↦ rw e (inr (In-insert_by_later x y xs h))
    | inr e ↦ rw e (inr (inr h))
  ]

  -- Sorting loses no element.
  pub In-sort_by : (x : A) (xs : List A) → In x xs → In x (sort_by xs)
  In-sort_by x [] i = i
  In-sort_by x (y ∷ ys) (inl e) =
      subst (λ (z : A). In z (sort_by (y ∷ ys))) (sym e) (In-insert_by_here y (sort_by ys))
  In-sort_by x (y ∷ ys) (inr i) = In-insert_by_later x y (sort_by ys) (In-sort_by x ys i)
