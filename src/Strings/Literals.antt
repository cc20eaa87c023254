-- ===== src/Strings/Literals.antt =====
-- The ranges of a line's literals: each starts and ends with one quote, and none reaches into the next.
use liu_he.Base.{
  ℕ, suc, ◌+◌, ◌-◌, ◌≤◌, ◌≡◌, refl, sym, ap, ◌∙◌, subst, inl, inr, Bool-cases, true, ◌==◌, ==_iff,
  some, List, [], ◌∷◌, ◌++◌, length, length-append, get_elem?, arith,
}
use liu_he.Base.Text.{Text, backslash}
use liu_he.Strings.{is_quote, Place, outside, inside, escaped, ranges_from, collect_string_ranges}

-- a quote stands at the range's start and again at its end, and the next ranges are behind it
abbrev pub AreLiterals : Text → ℕ → List (ℕ × ℕ) → Type 0
AreLiterals line from [] = Unit
AreLiterals line from ((start, end) ∷ ranges) =
    (from ≤ start)
    × (start + 2 ≤ end)
    × (end ≤ length line)
    × ((q : ℕ) × (is_quote q ≡ true)
        × (get_elem? line start ≡ some q)
        × (get_elem? line (end - 1) ≡ some q))
    × AreLiterals line end ranges

here : (before s : Text) (c : ℕ) → get_elem? (before ++ c ∷ s) (length before) ≡ some c
here [] s c = refl
here (b ∷ before) s c = here before s c

-- the rest of the line from an index on
abbrev IsRest : Text → ℕ → Text → Type 0
IsRest line i s = (before : Text) × (length before ≡ i) × (before ++ s ≡ line)

shift : (before s : Text) (c : ℕ) → (before ++ (c ∷ [])) ++ s ≡ before ++ c ∷ s
shift [] s c = refl
shift (b ∷ before) s c = ap (λ (t : Text). b ∷ t) (shift before s c)

next-IsRest : (line : Text) (i c : ℕ) (s : Text) → IsRest line i (c ∷ s) → IsRest line (suc i) s
next-IsRest line i c s (before, l, e) =
    (before ++ (c ∷ []), omega (arith, l, length-append before (c ∷ [])), shift before s c ∙ e)

IsRest-here :
    (line : Text) (i c : ℕ) (s : Text)
    → IsRest line i (c ∷ s)
    → (get_elem? line i ≡ some c) × (suc i ≤ length line)
IsRest-here line i c s (before, l, e) =
    let len : length line ≡ length before + suc (length s) =
      ap (λ (t : Text). length t) (sym e) ∙ length-append before (c ∷ s) in
    (
      subst (λ (n : ℕ). get_elem? line n ≡ some c) l
          (ap (λ (t : Text). get_elem? t (length before)) (sym e) ∙ here before s c),
      omega (arith, l, len),
    )

-- what is known of a place at an index: the quote that opened the literal, and where
abbrev IsPlace : Text → ℕ → ℕ → Place → Type 0
IsPlace line from i outside = from ≤ i
IsPlace line from i (inside q start) =
    (from ≤ start) × (suc start ≤ i) × (is_quote q ≡ true) × (get_elem? line start ≡ some q)
IsPlace line from i (escaped q start) =
    (from ≤ start) × (suc start ≤ i) × (is_quote q ≡ true) × (get_elem? line start ≡ some q)

module _ (line : Text) where
  ranges_from-AreLiterals :
      (place : Place) (from i : ℕ) (s : Text)
      → IsRest line i s
      → IsPlace line from i place
      → AreLiterals line from (ranges_from place i s)
  unfolding ranges_from
  ranges_from-AreLiterals place from i [] e p = tt
  ranges_from-AreLiterals outside from i (c ∷ s) e p =
      let further = next-IsRest line i c s e in
      elim (Bool-cases (is_quote c)) [
        | inl q ↦ rw q (
            ranges_from-AreLiterals (inside c i) from (suc i) s further
              (p, omega arith, q, (IsRest-here line i c s e).0))
        | inr q ↦ rw q (ranges_from-AreLiterals outside from (suc i) s further (omega (arith, p)))
      ]
  ranges_from-AreLiterals (escaped q start) from i (c ∷ s) e p =
      ranges_from-AreLiterals (inside q start) from (suc i) s (next-IsRest line i c s e)
        (p.0, omega (arith, p.1), p.2, p.3)
  ranges_from-AreLiterals (inside q start) from i (c ∷ s) e p =
      let further = next-IsRest line i c s e in
      elim (Bool-cases (c == backslash)) [
        | inl b ↦ rw b (
            ranges_from-AreLiterals (escaped q start) from (suc i) s further
              (p.0, omega (arith, p.1), p.2, p.3))
        | inr b ↦ elim (Bool-cases (c == q)) [
          | inl k ↦
              let same : c ≡ q = (==_iff c q).0 k in
              let back : i ≡ suc i - 1 = omega arith in
              let (there, within) = IsRest-here line i c s e in
              rw (b, k)
                (
                  p.0,
                  omega (arith, p.1),
                  within,
                  (
                    q,
                    p.2,
                    p.3,
                    subst (λ (n : ℕ). get_elem? line n ≡ some q) back
                        (there ∙ ap (λ (x : ℕ). some x) same),
                  ),
                  ranges_from-AreLiterals outside (suc i) (suc i) s further (omega arith),
                )
          | inr k ↦
              rw (b, k)
                (ranges_from-AreLiterals (inside q start) from (suc i) s further
                  (p.0, omega (arith, p.1), p.2, p.3))
        ]
      ]

-- The ranges that are collected of a line stand one behind the other in it; each has at least two
-- characters, and the first and the last of them are one quote.
pub collect_string_ranges-AreLiterals :
    (line : Text) → AreLiterals line 0 (collect_string_ranges line)
unfolding collect_string_ranges
collect_string_ranges-AreLiterals line =
    ranges_from-AreLiterals line outside 0 0 line ([], refl, refl) (omega arith)
