-- ===== src/Transaction/Span/Ended.antt =====
-- Which line ends an edit of a range of lines gives to the lines that it puts, and that all else stays.
use liu_he.Base.{
  ℕ, zero, suc, ◌+◌, ◌-◌, ◌≤◌, ◌≡◌, ◌≢◌, refl, sym, ap, subst, ◌∙◌, ◌⊎◌, inl, inr, Bool, true,
  false, Bool-cases, Option, none, some, List, [], ◌∷◌, ◌++◌, ◌&&◌, map, length, take, drop,
  get_elem?, ◌==◌, arith,
}
use liu_he.Base.Text.{Text, newline, join}
use liu_he.Transaction.Span.{
  EndLine, LineSpan, Edit, Spanned, spanned, carriage_return, ends_with_code, drop_last, has_crlf,
  lines_of, tail_of, eol_of_line, line_before, uses_crlf, with_eol, new_lines_of, anchor_of,
  start_of, apply_line_span,
}
use liu_he.Transaction.Span.Exact.{drop_last-append, EndsAt, IsFresh, apply_line_span-IsSpan}

-- the line ends in a carriage return, or it does not
abbrev pub EndsInReturn : Bool → Text → Type 0
EndsInReturn true l = (x : Text) × (l ≡ x ++ 13 ∷ [])
EndsInReturn false l = (x : Text) → l ≢ x ++ 13 ∷ []

-- some line of the text ends in a carriage return and a newline, or none does
abbrev pub HasPair : Bool → Text → Type 0
HasPair true s = (x : Text) × (y : Text) × (s ≡ x ++ 13 ∷ 10 ∷ y)
HasPair false s = (x y : Text) → s ≢ x ++ 13 ∷ 10 ∷ y

-- there is no such line, or it is empty
abbrev pub IsBlank : Option Text → Type 0
IsBlank o = (l : Text) → o ≡ some l → l ≡ []

-- `UsesReturns content lines start b`: whether lines put at `start` are to end in a carriage return, as
-- the line there does, or, if that is blank, the one before it, or, if that is blank too, any.
pub data UsesReturns (content : Text) (lines : List Text) (start : ℕ) (b : Bool) : Type 0 where
  as_there :
      (l : Text)
      → get_elem? lines (start - 1) ≡ some l
      → l ≢ []
      → EndsInReturn b l
      → UsesReturns content lines start b
  as_before :
      (l : Text)
      → IsBlank (get_elem? lines (start - 1))
      → 2 ≤ start
      → get_elem? lines (start - 2) ≡ some l
      → l ≢ []
      → EndsInReturn b l
      → UsesReturns content lines start b
  as_anywhere :
      IsBlank (get_elem? lines (start - 1))
      → (2 ≤ start → IsBlank (get_elem? lines (start - 2)))
      → HasPair b content
      → UsesReturns content lines start b

-- `l'` is the line `l` with a carriage return at its end, or without
abbrev pub IsEnded : Bool → Text → Text → Type 0
IsEnded true l l' = ((l' ≡ l) × EndsInReturn true l) ⊎ ((l' ≡ l ++ 13 ∷ []) × EndsInReturn false l)
IsEnded false l l' = (l ≡ l' ++ 13 ∷ []) ⊎ ((l' ≡ l) × EndsInReturn false l)

abbrev pub Each : (Text → Text → Type 0) → List Text → List Text → Type 0
Each R [] [] = Unit
Each R [] (_ ∷ _) = ⊥
Each R (_ ∷ _) [] = ⊥
Each R (x ∷ xs) (y ∷ ys) = R x y × Each R xs ys

returns-true : (l : Text) → ends_with_code carriage_return l ≡ true → EndsInReturn true l
returns-true [] h = cc
returns-true (a ∷ []) h = ([], let k : a ≡ 13 = ground arith in ap (λ c. c ∷ []) k)
returns-true (a ∷ b ∷ s) h = let (x, e) = returns-true (b ∷ s) h in (a ∷ x, ap (λ t. a ∷ t) e)

append-returns : (x : Text) → ends_with_code carriage_return (x ++ 13 ∷ []) ≡ true
append-returns [] = refl
append-returns (a ∷ []) = refl
append-returns (a ∷ b ∷ x) = append-returns (b ∷ x)

returns : (l : Text) → EndsInReturn (ends_with_code carriage_return l) l
returns l = elim (Bool-cases (ends_with_code carriage_return l)) [
  | inl e ↦ subst (λ b. EndsInReturn b l) (sym e) (returns-true l e)
  | inr e ↦
      subst (λ b. EndsInReturn b l) (sym e)
        (λ x k. let t = ap (ends_with_code carriage_return) k ∙ append-returns x in cc)
]

pair-true : (s : Text) → has_crlf s ≡ true → HasPair true s
pair-true [] h = cc
pair-true (a ∷ []) h = cc
pair-true (a ∷ b ∷ s) h = elim (Bool-cases (a == carriage_return && b == newline)) [
  | inl e ↦
      let k : a ≡ 13 = ground arith in let m : b ≡ 10 = ground arith in ([], s, rw (k, m) refl)
  | inr e ↦ let (x, y, k) = pair-true (b ∷ s) (rw e at h) in (a ∷ x, y, ap (λ t. a ∷ t) k)
]

append-pair : (x y : Text) → has_crlf (x ++ 13 ∷ 10 ∷ y) ≡ true
append-pair [] y = refl
append-pair (a ∷ []) y = elim (Bool-cases (a == carriage_return && 13 == newline)) [
  | inl e ↦ rw e refl
  | inr e ↦ rw e refl
]
append-pair (a ∷ b ∷ x) y = elim (Bool-cases (a == carriage_return && b == newline)) [
  | inl e ↦ rw e refl
  | inr e ↦ rw e (append-pair (b ∷ x) y)
]

pairs : (s : Text) → HasPair (has_crlf s) s
pairs s = elim (Bool-cases (has_crlf s)) [
  | inl e ↦ subst (λ b. HasPair b s) (sym e) (pair-true s e)
  | inr e ↦
      subst (λ b. HasPair b s) (sym e) (λ x y k. let t = ap has_crlf k ∙ append-pair x y in cc)
]

-- a line that is there and not empty, or none
line-cases :
    (o : Option Text)
    → ((l : Text) × (o ≡ some l)
        × (l ≢ [])
        × ((r : Bool) → eol_of_line o r ≡ ends_with_code carriage_return l))
      ⊎ (IsBlank o × ((r : Bool) → eol_of_line o r ≡ r))
line-cases none = inr (λ l e. cc, λ r. refl)
line-cases (some []) = inr (λ l e. cc, λ r. refl)
line-cases (some (c ∷ l)) = inl (c ∷ l, refl, (λ e. cc), λ r. refl)

line_before-IsBlank :
    (lines : List Text) (start : ℕ)
    → IsBlank (line_before lines start)
    → 2 ≤ start
    → IsBlank (get_elem? lines (start - 2))
line_before-IsBlank lines zero h l = absurd (omega (arith, l))
line_before-IsBlank lines (suc zero) h l = absurd (omega (arith, l))
line_before-IsBlank lines (suc (suc i)) h l =
    subst (λ n. IsBlank (get_elem? lines n)) (let k : i ≡ suc (suc i) - 2 = omega arith in k) h

line_before-some :
    (lines : List Text) (start : ℕ) (x : Text)
    → line_before lines start ≡ some x
    → (2 ≤ start) × (get_elem? lines (start - 2) ≡ some x)
line_before-some lines zero x h = cc
line_before-some lines (suc zero) x h = cc
line_before-some lines (suc (suc i)) x h = (
  omega arith,
  subst (λ n. get_elem? lines n ≡ some x) (let k : i ≡ suc (suc i) - 2 = omega arith in k) h,
)

uses-UsesReturns :
    (content : Text) (lines : List Text) (start : ℕ)
    → UsesReturns content lines start (uses_crlf content lines start)
unfolding uses_crlf
uses-UsesReturns content lines start =
    let at_before = eol_of_line (line_before lines start) (has_crlf content) in
    elim (line-cases (get_elem? lines (start - 1))) [
      | inl (l, e, n, k) ↦
          subst (UsesReturns content lines start) (sym (k at_before)) (as_there l e n (returns l))
      | inr (blank, k) ↦
          subst (UsesReturns content lines start) (sym (k at_before))
            (elim (line-cases (line_before lines start)) [
              | inl (l, e, n, j) ↦
                  let (two, there) = line_before-some lines start l e in
                  subst (UsesReturns content lines start) (sym (j (has_crlf content)))
                    (as_before l blank two there n (returns l))
              | inr (none_before, j) ↦
                  subst (UsesReturns content lines start) (sym (j (has_crlf content))) (
                    as_anywhere blank (line_before-IsBlank lines start none_before) (pairs content))
            ])
    ]

with_eol-IsEnded : (b : Bool) (l : Text) → IsEnded b l (with_eol b l)
unfolding with_eol
with_eol-IsEnded true l = elim (Bool-cases (ends_with_code carriage_return l)) [
  | inl e ↦ rw e (inl (refl, returns-true l e))
  | inr e ↦ rw e (inr (refl, subst (λ b. EndsInReturn b l) e (returns l)))
]
with_eol-IsEnded false l = elim (Bool-cases (ends_with_code carriage_return l)) [
  | inl e ↦
      let (x, k) = returns-true l e in
      rw e (
        inl (
          subst (λ t. t ≡ drop_last t ++ 13 ∷ []) (sym k)
            (ap (λ t. t ++ 13 ∷ []) (sym (drop_last-append x 13)))))
  | inr e ↦ rw e (inr (refl, subst (λ b. EndsInReturn b l) e (returns l)))
]

map-Each : (b : Bool) (new : List Text) → Each (IsEnded b) new (map (with_eol b) new)
map-Each b [] = tt
map-Each b (l ∷ new) = (with_eol-IsEnded b l, map-Each b new)

-- The new lines, with the ends of their place, stand in place of the lines from the start to `upto`; all
-- others stay.
pub record IsPlaced (content : Text) (start : ℕ) (end : EndLine) (given : Option (List Text))
    (s : Spanned) : Type 0 where
  pub upto : ℕ
  pub new : List Text
  pub put : List Text
  pub crlf : Bool
  pub from_given : given ≡ some new
  pub as_around : UsesReturns content (lines_of content) start crlf
  pub ended : Each (IsEnded crlf) new put
  pub positive : 1 ≤ start
  pub starts_inside : start ≤ length (lines_of content) + 1
  pub inside : upto ≤ length (lines_of content)
  pub ends_at : EndsAt end start upto (lines_of content)
  pub was : content ≡ join (lines_of content) ++ tail_of content
  pub becomes :
      s.result
      ≡ join (take (start - 1) (lines_of content) ++ (put ++ drop upto (lines_of content)))
        ++ tail_of content

module _ (sha256 : Text → Text) where
  -- An edit of lines that is accepted puts the new lines from its start up to the end that it names, and
  -- leaves all lines before and behind, and the newline at the end of the text, as they were. Each new
  -- line gets a carriage return at its end, or loses it, as the line at the start has one; if that is
  -- blank, as the one before; if that is too, as any line of the text has one. If the edit has an anchor,
  -- the text that was read has that hash.
  pub apply_line_span-IsPlaced :
      (content base : Text) (edit : Edit) (ls : LineSpan) (s : Spanned)
      → apply_line_span sha256 content base edit ls ≡ spanned s
      → IsPlaced content
          (start_of ls.start_line)
          ls.end_line
          (new_lines_of edit.new_lines edit.new_string)
          s
        × IsFresh sha256 base (anchor_of edit.expect_sha ls.expect_sha)
  apply_line_span-IsPlaced content base edit ls s h =
      let (span, fresh) = apply_line_span-IsSpan sha256 content base edit ls s h in
      let lines = lines_of content in
      let crlf = uses_crlf content lines (start_of ls.start_line) in
      (
        record {
          upto = span.upto;
          new = span.new;
          put = map (with_eol crlf) span.new;
          crlf = crlf;
          from_given = span.from_given;
          as_around = uses-UsesReturns content lines (start_of ls.start_line);
          ended = map-Each crlf span.new;
          positive = span.positive;
          starts_inside = span.starts_inside;
          inside = span.inside;
          ends_at = span.ends_at;
          was = span.was;
          becomes = span.becomes;
        },
        fresh,
      )
