-- ===== src/Attempts/Places.antt =====
-- What the spelling of a directory in malong/workflow/check-attempts.js keeps when it is normalised.
use liu_he.Base.{
  ℕ, ◌≡◌, refl, sym, ap, ◌∙◌, Bool, true, false, Bool-cases, inl, inr, ◌&&◌, ◌||◌, ◌==◌, not,
  Option, none, some, [], ◌∷◌, ◌++◌, if◌then◌else◌, arith,
}
use liu_he.Base.Text.{Text, codes, same-cases, missing-cases, trim}
use mathlib.Core.List.{reverse, append-nil, reverse-cons, reverse-reverse}
use liu_he.Attempts.Scope.{
  is_separator, collapse, strip_dot, strip_slashes, root_or, normalize_scope_workdir,
}

-- a character of a name: neither a slash nor a backslash nor a dot
abbrev pub is_letter : ℕ → Bool
is_letter c = not (c == 47 || c == 92 || c == 46)

abbrev pub letters : Text → Text
letters [] = []
letters (c ∷ s) = let rest = letters s in if is_letter c then c ∷ rest else rest

-- the characters of the names in a directory, which has spaces around it or is absent
abbrev pub letters_of : Option Text → Text
letters_of none = []
letters_of (some w) = letters (trim w)

separator-letter : (c : ℕ) → is_separator c ≡ true → is_letter c ≡ false
separator-letter c h = ground arith

letters_skip : (c : ℕ) (s : Text) → is_letter c ≡ false → letters (c ∷ s) ≡ letters s
letters_skip c s e = rw e refl

collapse_separator :
    (after : Bool) (c : ℕ) (s : Text)
    → is_separator c ≡ true
    → letters (collapse after (c ∷ s)) ≡ letters (collapse true s)
collapse_separator true c s e = rw e refl
collapse_separator false c s e = rw e refl

collapse_other :
    (after : Bool) (c : ℕ) (s : Text)
    → is_separator c ≡ false
    → collapse after (c ∷ s) ≡ c ∷ collapse false s
collapse_other after c s e = rw e refl

letters_cons : (c : ℕ) (s t : Text) → letters s ≡ letters t → letters (c ∷ s) ≡ letters (c ∷ t)
letters_cons c s t h = elim (Bool-cases (is_letter c)) [
  | inl e ↦ rw e (ap (λ l. c ∷ l) h)
  | inr e ↦ rw e h
]

letters-collapse : (after : Bool) (s : Text) → letters (collapse after s) ≡ letters s
letters-collapse after [] = refl
letters-collapse after (c ∷ s) = elim (Bool-cases (is_separator c)) [
  | inl e ↦
      collapse_separator after c s e
      ∙ letters-collapse true s
      ∙ sym (letters_skip c s (separator-letter c e))
  | inr e ↦
      ap letters (collapse_other after c s e)
      ∙ letters_cons c (collapse false s) s (letters-collapse false s)
]

strip_kept : (c d : ℕ) (s : Text) → c == 47 ≡ false → strip_slashes (c ∷ d ∷ s) ≡ c ∷ d ∷ s
strip_kept c d s e = rw e refl

strip_slash :
    (c d : ℕ) (s : Text) → c == 47 ≡ true → strip_slashes (c ∷ d ∷ s) ≡ strip_slashes (d ∷ s)
strip_slash c d s e = rw e refl

letters-strip_slashes : (s : Text) → letters (strip_slashes s) ≡ letters s
letters-strip_slashes [] = refl
letters-strip_slashes (c ∷ []) = refl
letters-strip_slashes (c ∷ d ∷ s) = elim (Bool-cases (c == 47)) [
  | inl e ↦
      ap letters (strip_slash c d s e)
      ∙ letters-strip_slashes (d ∷ s)
      ∙ sym (letters_skip c (d ∷ s) (let k : is_letter c ≡ false = ground arith in k))
  | inr e ↦ ap letters (strip_kept c d s e)
]

letters-strip_dot : (s : Text) → letters (strip_dot s) ≡ letters s
letters-strip_dot [] = refl
letters-strip_dot (a ∷ []) = refl
letters-strip_dot (a ∷ b ∷ s) = elim (Bool-cases (a == 46 && b == 47)) [
  | inl e ↦
      let k : is_letter a ≡ false = ground arith in
      let l : is_letter b ≡ false = ground arith in rw (e, k, l) refl
  | inr e ↦ rw e refl
]

letters-append : (s t : Text) → letters (s ++ t) ≡ letters s ++ letters t
letters-append [] t = refl
letters-append (c ∷ s) t = elim (Bool-cases (is_letter c)) [
  | inl e ↦ rw e (ap (λ l. c ∷ l) (letters-append s t))
  | inr e ↦ rw e (letters-append s t)
]

letters-reverse : (s : Text) → letters (reverse s) ≡ reverse (letters s)
letters-reverse [] = refl
letters-reverse (c ∷ s) =
    ap letters (reverse-cons c s)
    ∙ letters-append (reverse s) (c ∷ [])
    ∙ elim (Bool-cases (is_letter c)) [
      | inl e ↦ rw e (ap (λ t. t ++ c ∷ []) (letters-reverse s) ∙ sym (reverse-cons c (letters s)))
      | inr e ↦ rw e (append-nil (letters (reverse s)) ∙ letters-reverse s)
    ]

letters_or : Option Text → Text
letters_or none = []
letters_or (some s) = letters s

letters-root_or : (s : Text) → letters_or (root_or s) ≡ letters s
unfolding letters_or
letters-root_or s = elim (same-cases s (codes ".")) [
  | inl (e, k) ↦ rw e (ap letters (sym k))
  | inr (e, k) ↦ elim (missing-cases s) [
    | inl (m, x) ↦ rw (e, m) (ap letters (sym x))
    | inr (m, x) ↦ elim (same-cases s (codes "/")) [
      | inl (n, y) ↦ rw (e, m, n) (ap letters (sym y))
      | inr (n, y) ↦ rw (e, m, n) refl
    ]
  ]
]

letters-unslashed : (s : Text) → letters (reverse (strip_slashes (reverse s))) ≡ letters s
letters-unslashed s =
    letters-reverse (strip_slashes (reverse s))
    ∙ ap reverse (letters-strip_slashes (reverse s) ∙ letters-reverse s)
    ∙ reverse-reverse (letters s)

letters-normalize : (o : Option Text) → letters_or (normalize_scope_workdir o) ≡ letters_of o
unfolding normalize_scope_workdir letters_or
letters-normalize none = refl
letters-normalize (some w) = elim (missing-cases (trim w)) [
  | inl (m, e) ↦ rw m (ap letters (sym e))
  | inr (m, e) ↦ rw m (
      letters-root_or (reverse (strip_slashes (reverse (strip_dot (collapse false (trim w))))))
      ∙ letters-unslashed (strip_dot (collapse false (trim w)))
      ∙ letters-strip_dot (collapse false (trim w))
      ∙ letters-collapse false (trim w))
]

-- directories that are the same once normalised have the same names
pub normalize_scope_workdir-letters_of :
    (a b : Option Text)
    → normalize_scope_workdir a ≡ normalize_scope_workdir b
    → letters_of a ≡ letters_of b
normalize_scope_workdir-letters_of a b h =
    sym (letters-normalize a) ∙ ap letters_or h ∙ letters-normalize b
