-- ===== src/Base/Text.antt =====
-- Strings as lists of UTF-16 code units, with the string functions of JavaScript that the sources
-- call. `split` and `join` are at a newline, the only separator that they are used with here.
use Prim.Native.Nat.{ℕ}
use Prim.Native.String.{String}
use Prim.Native.Char.{code}
use mathlib.Core.Path.{◌≡◌, refl, sym, ap, ap₂, ◌∙◌}
use mathlib.Core.Logic.{◌≢◌, ◌↔◌, ◌⊎◌, inl, inr}
use mathlib.Core.Bool.{Bool, true, false, ◌&&◌, ◌||◌}
use mathlib.Core.List.{List, [], ◌∷◌, ◌++◌, reverse}
use native.Mathlib.Omega.{arith}
use liu_he.Base.Tests.{Bool-cases, ==_iff, leb, ◌==◌, if◌then◌else◌}

abbrev pub Text : Type 0
Text = List ℕ

abbrev pub codes : String → Text
codes String.[] = []
codes (String.◌∷◌ c s) = code c ∷ codes s

abbrev pub newline : ℕ
newline = 10

abbrev pub backslash : ℕ
backslash = 92

abbrev pub apostrophe : ℕ
apostrophe = 39

-- `===` on strings
infix 50 ◌===◌
abbrev pub ◌===◌ : Text → Text → Bool
[] === [] = true
[] === (_ ∷ _) = false
(_ ∷ _) === [] = false
(a ∷ s) === (b ∷ t) = a == b && s === t

pub ===_iff : (s t : Text) → ((s === t) ≡ true) ↔ (s ≡ t)
===_iff [] [] = (λ _. refl, λ _. refl)
===_iff [] (_ ∷ _) = ground arith
===_iff (_ ∷ _) [] = ground arith
===_iff (a ∷ s) (b ∷ t) = ground (arith, ===_iff s t)

pub ===_apart : (s t : Text) → (s === t) ≡ false → s ≢ t
===_apart s t h e = let k = (===_iff s t).1 e in cc

pub ===_refl : (s : Text) → (s === s) ≡ true
===_refl s = (===_iff s s).1 refl

-- an absent string is the empty one
abbrev pub is_missing : Text → Bool
is_missing [] = true
is_missing (_ ∷ _) = false

pub missing-cases :
    (h : Text) → ((is_missing h ≡ true) × (h ≡ [])) ⊎ ((is_missing h ≡ false) × (h ≢ []))
missing-cases [] = inl (refl, refl)
missing-cases (c ∷ h) = inr (refl, λ e. cc)

pub same-cases : (a b : Text) → (((a === b) ≡ true) × (a ≡ b)) ⊎ (((a === b) ≡ false) × (a ≢ b))
same-cases a b = elim (Bool-cases (a === b)) [
  | inl e ↦ inl (e, (===_iff a b).0 e)
  | inr e ↦ inr (e, λ same. let k = (===_iff a b).1 same in cc)
]

abbrev pub starts_with : Text → Text → Bool
starts_with [] s = true
starts_with (_ ∷ _) [] = false
starts_with (a ∷ p) (b ∷ s) = a == b && starts_with p s

-- the WhiteSpace and LineTerminator code units of ECMAScript
unfoldable pub is_space : ℕ → Bool
is_space c =
    leb 9 c && leb c 13
    || c == 32
    || c == 160
    || c == 5760
    || leb 8192 c && leb c 8202
    || c == 8232
    || c == 8233
    || c == 8239
    || c == 8287
    || c == 12288
    || c == 65279

abbrev pub drop_while : (ℕ → Bool) → Text → Text
drop_while p [] = []
drop_while p (c ∷ s) = let rest = drop_while p s in if p c then rest else c ∷ s

abbrev pub take_while : (ℕ → Bool) → Text → Text
take_while p [] = []
take_while p (c ∷ s) = let rest = take_while p s in if p c then c ∷ rest else []

unfoldable pub trim : Text → Text
unfolding is_space
trim s = reverse (drop_while is_space (reverse (drop_while is_space s)))

abbrev pub cons_head : ℕ → List Text → List Text
cons_head c [] = (c ∷ []) ∷ []
cons_head c (l ∷ ls) = (c ∷ l) ∷ ls

-- `split('\n')`: never the empty list
unfoldable pub split : Text → List Text
split [] = [] ∷ []
split (c ∷ s) = let rest = split s in if c == newline then [] ∷ rest else cons_head c rest

-- `join('\n')`
unfoldable pub join : List Text → Text
join [] = []
join (l ∷ []) = l
join (l ∷ m ∷ ls) = l ++ newline ∷ join (m ∷ ls)

join-cons_head : (c : ℕ) (ls : List Text) → join (cons_head c ls) ≡ c ∷ join ls
unfolding join
join-cons_head c [] = refl
join-cons_head c (l ∷ []) = refl
join-cons_head c (l ∷ m ∷ ls) = refl

join-nil : (ls : List Text) → ls ≢ [] → join ([] ∷ ls) ≡ newline ∷ join ls
unfolding join
join-nil [] h = absurd (h refl)
join-nil (l ∷ ls) h = refl

cons_head-ne-nil : (c : ℕ) (ls : List Text) → cons_head c ls ≢ []
cons_head-ne-nil c [] e = cc
cons_head-ne-nil c (l ∷ ls) e = cc

pub split-ne-nil : (s : Text) → split s ≢ []
unfolding split
split-ne-nil [] e = cc
split-ne-nil (c ∷ s) e = elim (Bool-cases (c == newline)) [
  | inl h ↦ let k : ([] ∷ split s) ≡ [] = rw h at e in cc
  | inr h ↦ cons_head-ne-nil c (split s) (rw h at e)
]

-- Splitting loses nothing.
pub join-split : (s : Text) → join (split s) ≡ s
unfolding split
join-split [] = unfold join in refl
join-split (c ∷ s) = elim (Bool-cases (c == newline)) [
  | inl h ↦ rw h (
      join-nil (split s) (split-ne-nil s)
      ∙ ap₂ (λ (a : ℕ) (l : Text). a ∷ l) (sym ((==_iff c newline).0 h)) (join-split s))
  | inr h ↦ rw h (join-cons_head c (split s) ∙ ap (λ (l : Text). c ∷ l) (join-split s))
]
