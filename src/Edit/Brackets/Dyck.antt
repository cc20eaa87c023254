-- ===== src/Edit/Brackets/Dyck.antt =====
-- The stack of malong/write-edit.js accepts exactly the well-bracketed texts.
use liu_he.Base.{
  ℕ, ◌≡◌, ◌↔◌, refl, sym, ap, ◌∙◌, true, false, [], ◌∷◌, ◌++◌, ◌==◌, ==_iff, ==_refl, inl, inr,
  Bool-cases, none, some, if◌then◌else◌, arith,
}
use liu_he.Base.Text.{Text}
use mathlib.Core.List.{append_assoc, append-nil}
use liu_he.Edit.Brackets.{balanced, unbalanced, is_open, is_close, close_of, check_loop}

-- The well-bracketed texts, by their grammar: what is no bracket does not count.
pub data IsDyck : Text → Type 0 where
  empty : IsDyck []
  other : {c : ℕ} {s : Text} → is_open c ≡ false → is_close c ≡ false → IsDyck s → IsDyck (c ∷ s)
  pair :
      {o : ℕ} {s t u : Text}
      → is_open o ≡ true
      → IsDyck s
      → IsDyck t
      → u ≡ o ∷ (s ++ close_of o ∷ t)
      → IsDyck u

-- the text closes the open brackets of the stack, and is well-bracketed beside that
abbrev Closes : Text → Text → Type 0
Closes [] u = IsDyck u
Closes (o ∷ stack) u =
    (s : Text) × (t : Text) × (u ≡ s ++ close_of o ∷ t) × IsDyck s × Closes stack t

Closes-other :
    (c : ℕ) (stack u : Text)
    → is_open c ≡ false
    → is_close c ≡ false
    → Closes stack u
    → Closes stack (c ∷ u)
Closes-other c [] u h k d = other h k d
Closes-other c (o ∷ stack) u h k (s, t, e, d, rest) =
    (c ∷ s, t, ap (λ (l : Text). c ∷ l) e, other h k d, rest)

Closes-open :
    (o : ℕ) (stack u : Text) → is_open o ≡ true → Closes (o ∷ stack) u → Closes stack (o ∷ u)
Closes-open o [] u h (s, t, e, d, rest) = pair h d rest (ap (λ (l : Text). o ∷ l) e)
Closes-open o (p ∷ stack) u h (s, t, e, d, (s', t', e', d', rest)) = (
  o ∷ (s ++ close_of o ∷ s'),
  t',
  ap (λ (l : Text). o ∷ l)
      (e
        ∙ ap (λ (l : Text). s ++ close_of o ∷ l) e'
        ∙ sym (append_assoc s (close_of o ∷ s') (close_of p ∷ t'))),
  pair h d d' refl,
  rest,
)

Closes-close :
    {c : ℕ} (o : ℕ) (stack u : Text)
    → (close_of o == c) ≡ true
    → Closes stack u
    → Closes (o ∷ stack) (c ∷ u)
Closes-close {c} o stack u h d =
    ([], u, ap (λ (k : ℕ). k ∷ u) (sym ((==_iff (close_of o) c).0 h)), empty, d)

-- what one code unit does to the stack
check_loop-open :
    (stack : Text) (c : ℕ) (s : Text)
    → is_open c ≡ true
    → check_loop stack (c ∷ s) ≡ check_loop (c ∷ stack) s
unfolding check_loop
check_loop-open [] c s h = rw h
check_loop-open (o ∷ stack) c s h = rw h

check_loop-other :
    (stack : Text) (c : ℕ) (s : Text)
    → is_open c ≡ false
    → is_close c ≡ false
    → check_loop stack (c ∷ s) ≡ check_loop stack s
unfolding check_loop
check_loop-other [] c s h k = rw (h, k)
check_loop-other (o ∷ stack) c s h k = rw (h, k)

check_loop-pop :
    (o : ℕ) (stack : Text) (c : ℕ) (s : Text)
    → is_open c ≡ false
    → is_close c ≡ true
    → check_loop (o ∷ stack) (c ∷ s)
      ≡ (if close_of o == c then check_loop stack s else unbalanced (some (close_of o)) c)
unfolding check_loop
check_loop-pop o stack c s h k = rw (h, k)

check_loop-stray :
    (c : ℕ) (s : Text)
    → is_open c ≡ false
    → is_close c ≡ true
    → check_loop [] (c ∷ s) ≡ unbalanced none c
unfolding check_loop
check_loop-stray c s h k = rw (h, k)

module _ (c : ℕ) (s : Text)
    (ih : (stack : Text) → check_loop stack s ≡ balanced → Closes stack s) where
  close-Closes :
      (stack : Text)
      → is_open c ≡ false
      → is_close c ≡ true
      → check_loop stack (c ∷ s) ≡ balanced
      → Closes stack (c ∷ s)
  close-Closes [] p q h = absurd (ground (arith, check_loop-stray c s p q, h))
  close-Closes (o ∷ stack) p q h = elim (Bool-cases (close_of o == c)) [
    | inl e ↦
        Closes-close o stack s e (ih stack (sym (check_loop-pop o stack c s p q ∙ rw e refl) ∙ h))
    | inr e ↦ absurd (ground (arith, check_loop-pop o stack c s p q, h, e))
  ]

  cons-Closes : (stack : Text) → check_loop stack (c ∷ s) ≡ balanced → Closes stack (c ∷ s)
  cons-Closes stack h = elim (Bool-cases (is_open c)) [
    | inl p ↦ Closes-open c stack s p (ih (c ∷ stack) (sym (check_loop-open stack c s p) ∙ h))
    | inr p ↦ elim (Bool-cases (is_close c)) [
      | inl q ↦ close-Closes stack p q h
      | inr q ↦ Closes-other c stack s p q (ih stack (sym (check_loop-other stack c s p q) ∙ h))
    ]
  ]

check_loop-Closes : (s stack : Text) → check_loop stack s ≡ balanced → Closes stack s
unfolding check_loop
check_loop-Closes [] [] h = empty
check_loop-Closes [] (o ∷ stack) h = cc
check_loop-Closes (c ∷ s) stack h = cons-Closes c s (check_loop-Closes s) stack h

check_loop-partner :
    (o : ℕ) (stack s : Text) → check_loop (o ∷ stack) (close_of o ∷ s) ≡ check_loop stack s
check_loop-partner o stack s =
    check_loop-pop o stack (close_of o) s (ground arith) (ground arith)
    ∙ rw (==_refl (close_of o)) refl

-- a well-bracketed text leaves the stack as it was
IsDyck-check_loop :
    {s : Text}
    → IsDyck s
    → (stack rest : Text) → check_loop stack (s ++ rest) ≡ check_loop stack rest
IsDyck-check_loop empty stack rest = refl
IsDyck-check_loop (other {c} {s} p q d) stack rest =
    check_loop-other stack c (s ++ rest) p q ∙ IsDyck-check_loop d stack rest
IsDyck-check_loop (pair {o} {s} {t} p d d' e) stack rest =
    ap (λ (l : Text). check_loop stack (l ++ rest)) e
    ∙ ap (λ (l : Text). check_loop stack (o ∷ l)) (append_assoc s (close_of o ∷ t) rest)
    ∙ check_loop-open stack o (s ++ close_of o ∷ (t ++ rest)) p
    ∙ IsDyck-check_loop d (o ∷ stack) (close_of o ∷ (t ++ rest))
    ∙ check_loop-partner o stack (t ++ rest)
    ∙ IsDyck-check_loop d' stack rest

-- The stack accepts a text exactly if the grammar derives it: every bracket is closed by its partner,
-- in the right order, and no bracket is left over.
pub check_loop-IsDyck : (s : Text) → (check_loop [] s ≡ balanced) ↔ IsDyck s
unfolding check_loop
check_loop-IsDyck s = (
  check_loop-Closes s [],
  λ d. ap (check_loop []) (sym (append-nil s)) ∙ IsDyck-check_loop d [] [],
)
