-- ===== src/Transaction/Simulate/Replacing.antt =====
-- What the replacement of every place of a text is, and when a text has no such place.
use liu_he.Base.{
  ℕ, zero, suc, ◌-◌, ◌≤◌, ◌≡◌, ◌≢◌, refl, sym, ap, subst, ◌∙◌, true, false, Bool-cases,
  Option-cases, inl, inr, none, some, [], ◌∷◌, ◌++◌, length, drop, length-drop, arith,
}
use liu_he.Base.Text.{Text, starts_with}
use liu_he.Transaction.Simulate.{index_of, one_further, replace_from, replace_all}

-- `Replaced needle new s t`: from left to right, each place of `needle` in `s` that does not overlap the
-- one before is `new` in `t`, and all else is the same.
pub data Replaced (needle new : Text) : Text → Text → Type 0 where
  at_end : Replaced needle new [] []
  hit : {s t : Text} → Replaced needle new s t → Replaced needle new (needle ++ s) (new ++ t)
  miss :
      {s t : Text} (c : ℕ)
      → starts_with needle (c ∷ s) ≡ false
      → Replaced needle new s t
      → Replaced needle new (c ∷ s) (c ∷ t)

-- the text is nowhere in `s`
abbrev pub IsNowhere : Text → Text → Type 0
IsNowhere needle s = (x y : Text) → s ≢ x ++ (needle ++ y)

pub starts-split :
    (needle s : Text) → starts_with needle s ≡ true → s ≡ needle ++ drop (length needle) s
starts-split [] s h = refl
starts-split (a ∷ needle) [] h = cc
starts-split (a ∷ needle) (b ∷ s) h = ground (arith, starts-split needle s)

starts-append : (needle y : Text) → starts_with needle (needle ++ y) ≡ true
starts-append [] y = refl
starts-append (a ∷ needle) y = ground (arith, starts-append needle y)

skips :
    (needle new : Text) (n : ℕ) (s : Text)
    → replace_from needle new n s ≡ replace_from needle new 0 (drop n s)
unfolding replace_from
skips needle new zero s = refl
skips needle new (suc n) [] = refl
skips needle new (suc n) (c ∷ s) = skips needle new n s

-- one round, at a place and elsewhere
round_hit :
    (a : ℕ) (needle new : Text) (c : ℕ) (s : Text)
    → starts_with (a ∷ needle) (c ∷ s) ≡ true
    → replace_from (a ∷ needle) new 0 (c ∷ s)
      ≡ new ++ replace_from (a ∷ needle) new 0 (drop (length needle) s)
unfolding replace_from
round_hit a needle new c s h = rw h (
    ap (λ n. new ++ replace_from (a ∷ needle) new n s)
      (let k : length (a ∷ needle) - 1 ≡ length needle = omega arith in k)
    ∙ ap (λ t. new ++ t) (skips (a ∷ needle) new (length needle) s))

round_miss :
    (needle new : Text) (c : ℕ) (s : Text)
    → starts_with needle (c ∷ s) ≡ false
    → replace_from needle new 0 (c ∷ s) ≡ c ∷ replace_from needle new 0 s
unfolding replace_from
round_miss needle new c s h = rw h refl

replace-within :
    (n : ℕ) (a : ℕ) (needle new s : Text)
    → length s ≤ n
    → Replaced (a ∷ needle) new s (replace_from (a ∷ needle) new 0 s)
unfolding replace_from
replace-within n a needle new [] l = at_end
replace-within zero a needle new (c ∷ s) l = absurd (omega (arith, l))
replace-within (suc n) a needle new (c ∷ s) l =
    elim (Bool-cases (starts_with (a ∷ needle) (c ∷ s))) [
      | inl e ↦
          let rest = drop (length needle) s in
          subst (λ t. Replaced (a ∷ needle) new t (replace_from (a ∷ needle) new 0 (c ∷ s)))
            (sym (starts-split (a ∷ needle) (c ∷ s) e))
            (subst (Replaced (a ∷ needle) new ((a ∷ needle) ++ rest))
              (sym (round_hit a needle new c s e))
              (hit (
                replace-within n a needle new rest
                  (omega (arith, l, length-drop (length needle) s)))))
      | inr e ↦
          subst (Replaced (a ∷ needle) new (c ∷ s)) (sym (round_miss (a ∷ needle) new c s e))
            (miss c e (replace-within n a needle new s (omega (arith, l))))
    ]

pub replace_all-Replaced :
    (needle new s : Text) → needle ≢ [] → Replaced needle new s (replace_all needle new s)
replace_all-Replaced [] new s h = absurd (h refl)
replace_all-Replaced (a ∷ needle) new s h = replace-within (length s) a needle new s (omega arith)

index_of-start :
    (needle : Text) (c : ℕ) (s : Text)
    → starts_with needle (c ∷ s) ≡ true
    → index_of needle (c ∷ s) ≡ some 0
unfolding index_of
index_of-start needle c s h = rw h refl

index_of-found : (needle x y : Text) → needle ≢ [] → index_of needle (x ++ (needle ++ y)) ≢ none
unfolding index_of
index_of-found [] x y h e = h refl
index_of-found (a ∷ needle) [] y h e =
    let found = index_of-start (a ∷ needle) a (needle ++ y) (starts-append (a ∷ needle) y) in
    let never : some 0 ≡ none = sym found ∙ e in cc
index_of-found (a ∷ needle) (c ∷ x) y h e =
    elim (Bool-cases (starts_with (a ∷ needle) (c ∷ (x ++ ((a ∷ needle) ++ y))))) [
      | inl k ↦ let never : some 0 ≡ none = rw k at e in cc
      | inr k ↦
          let rest : one_further (index_of (a ∷ needle) (x ++ ((a ∷ needle) ++ y))) ≡ none =
            rw k at e in
          elim (Option-cases (index_of (a ∷ needle) (x ++ ((a ∷ needle) ++ y)))) [
            | inl n ↦ index_of-found (a ∷ needle) x y h n
            | inr (i, n) ↦ let never : some (suc i) ≡ none = rw n at rest in cc
          ]
    ]

pub index_of-IsNowhere :
    (needle s : Text) → needle ≢ [] → index_of needle s ≡ none → IsNowhere needle s
index_of-IsNowhere needle s named h x y e =
    index_of-found needle x y named (ap (index_of needle) (sym e) ∙ h)
