-- ===== src/Transaction/Span/Exact.antt =====
-- What an accepted edit of a range of lines does.
use liu_he.Base.{
  ℕ, ◌+◌, ◌-◌, ◌≤◌, ◌≡◌, ◌≢◌, refl, sym, ap, subst, ◌∙◌, inl, inr, Bool, true, false, Bool-cases,
  Option, none, some, List, [], ◌∷◌, ◌++◌, map, length, take, drop, ltb, ◌==◌, if◌then◌else◌, arith,
}
use liu_he.Base.Text.{Text, split, join, join-split, cons_head, newline, missing-cases, same-cases}
use mathlib.Core.List.{append_assoc, append-nil}
use liu_he.Transaction.Span.{
  EndLine, absent, to_end, not_an_integer, at, LineSpan, Edit, Spanned, SpanResult, refused,
  spanned, ends_with_code, drop_last, norm_sha, shas_conflict, anchor_of, is_anchored, lines_of,
  tail_of, uses_crlf, with_eol, new_lines_of, place, place_new, start_of, is_stale, apply_line_span,
}

-- a text that ends in a newline is split into some lines and the empty one
record TrailingSplit (s : Text) : Type 0 where
  lines : List Text
  some_line : lines ≢ []
  parts : split s ≡ lines ++ [] ∷ []

cons_head-append :
    (c : ℕ) (lines : List Text)
    → lines ≢ []
    → cons_head c (lines ++ [] ∷ []) ≡ cons_head c lines ++ [] ∷ []
cons_head-append c [] h = absurd (h refl)
cons_head-append c (l ∷ lines) h = refl

cons_head-some : (c : ℕ) (lines : List Text) → cons_head c lines ≢ []
cons_head-some c [] e = cc
cons_head-some c (l ∷ lines) e = cc

trailing-split : (s : Text) → ends_with_code newline s ≡ true → TrailingSplit s
unfolding split
trailing-split [] h = let k : false ≡ true = h in cc
trailing-split (c ∷ []) h = record { lines = [] ∷ []; some_line = λ e. cc; parts = rw h refl }
trailing-split (c ∷ d ∷ s) h =
    let t = trailing-split (d ∷ s) h in
    elim (Bool-cases (c == newline)) [
      | inl e ↦ record {
        lines = [] ∷ t.lines;
        some_line = λ k. cc;
        parts = rw e (ap (λ (l : List Text). [] ∷ l) t.parts);
      }
      | inr e ↦ record {
        lines = cons_head c t.lines;
        some_line = cons_head-some c t.lines;
        parts = rw e (ap (cons_head c) t.parts ∙ cons_head-append c t.lines t.some_line);
      }
    ]

pub drop_last-append : {A : Type 0} (lines : List A) (l : A) → drop_last (lines ++ l ∷ []) ≡ lines
drop_last-append [] l = refl
drop_last-append (a ∷ []) l = refl
drop_last-append (a ∷ b ∷ lines) l = ap (λ x. a ∷ x) (drop_last-append (b ∷ lines) l)

join-trailing :
    (lines : List Text) → lines ≢ [] → join (lines ++ [] ∷ []) ≡ join lines ++ newline ∷ []
unfolding join
join-trailing [] h = absurd (h refl)
join-trailing (a ∷ []) h = refl
join-trailing (a ∷ b ∷ lines) h =
    ap (λ (x : Text). a ++ newline ∷ x) (join-trailing (b ∷ lines) (λ e. cc))
    ∙ sym (append_assoc a (newline ∷ join (b ∷ lines)) (newline ∷ []))

-- the lines and the last newline are the text
pub join-lines_of : (content : Text) → content ≡ join (lines_of content) ++ tail_of content
unfolding lines_of
join-lines_of content = elim (Bool-cases (ends_with_code newline content)) [
  | inl e ↦
      let t = trailing-split content e in
      rw e (
        sym (join-split content)
        ∙ ap join t.parts
        ∙ join-trailing t.lines t.some_line
        ∙ ap (λ (x : List Text). join x ++ newline ∷ [])
            (sym (ap drop_last t.parts ∙ drop_last-append t.lines [])))
  | inr e ↦ rw e (sym (join-split content) ∙ sym (append-nil (join (split content))))
]

-- which line the edit goes up to
abbrev pub EndsAt : EndLine → ℕ → ℕ → List Text → Type 0
EndsAt absent start upto lines = upto ≡ start - 1
EndsAt to_end start upto lines = upto ≡ length lines
EndsAt not_an_integer start upto lines = ⊥
EndsAt (at end) start upto lines = (upto ≡ end) × (start ≤ end)

-- The new lines stand in place of the lines from the start to `upto`; all others stay.
pub record IsSpan (content : Text) (start : ℕ) (end : EndLine) (given : Option (List Text))
    (s : Spanned) : Type 0 where
  pub upto : ℕ
  pub new : List Text
  pub from_given : given ≡ some new
  pub positive : 1 ≤ start
  pub starts_inside : start ≤ length (lines_of content) + 1
  pub inside : upto ≤ length (lines_of content)
  pub ends_at : EndsAt end start upto (lines_of content)
  pub was : content ≡ join (lines_of content) ++ tail_of content
  pub becomes :
      s.result
      ≡ join (
          take (start - 1) (lines_of content)
          ++ (map (with_eol (uses_crlf content (lines_of content) start)) new
              ++ drop upto (lines_of content)))
        ++ tail_of content

data Post (P : Spanned → Type 0) : SpanResult → Type 0 where
  not_accepted : {r : _} → Post P (refused r)
  accepted : {s : Spanned} → P s → Post P (spanned s)

Post-if :
    (P : Spanned → Type 0) (b : Bool) {x y : SpanResult}
    → (b ≡ true → Post P x)
    → (b ≡ false → Post P y)
    → Post P (if b then x else y)
Post-if P true h k = h refl
Post-if P false h k = k refl

of_Post : (P : Spanned → Type 0) {s : Spanned} → Post P (spanned s) → P s
of_Post P (accepted h) = h

module _ (content : Text) (start : ℕ) (anchored : Bool) (positive : 1 ≤ start)
    (starts_inside : start ≤ length (lines_of content) + 1) where
  abbrev Goal : EndLine → List Text → Spanned → Type 0
  Goal end raw s = IsSpan content start end (some raw) s

  place-Post :
      (end : EndLine) (raw : List Text)
      → Post (Goal end raw) (
          place content
            (lines_of content)
            start
            end
            (map (with_eol (uses_crlf content (lines_of content) start)) raw)
            anchored)
  unfolding place
  place-Post absent raw = accepted (record {
    upto = start - 1;
    new = raw;
    from_given = refl;
    positive = positive;
    starts_inside = starts_inside;
    inside = omega arith;
    ends_at = refl;
    was = join-lines_of content;
    becomes = refl;
  })
  place-Post to_end raw = accepted (record {
    upto = length (lines_of content);
    new = raw;
    from_given = refl;
    positive = positive;
    starts_inside = starts_inside;
    inside = omega arith;
    ends_at = refl;
    was = join-lines_of content;
    becomes = refl;
  })
  place-Post not_an_integer raw = not_accepted
  place-Post (at end) raw =
      Post-if (Goal (at end) raw) (ltb end start) (λ h. not_accepted)
        (λ h.
          Post-if (Goal (at end) raw) (ltb (length (lines_of content)) end) (λ k. not_accepted)
            (λ k. accepted (record {
              upto = end;
              new = raw;
              from_given = refl;
              positive = positive;
              starts_inside = starts_inside;
              inside = ground arith;
              ends_at = (refl, ground arith);
              was = join-lines_of content;
              becomes = refl;
            })))

  place_new-Post :
      (end : EndLine) (given : Option (List Text))
      → Post
          (IsSpan content start end given)
          (place_new content (lines_of content) start end given anchored)
  unfolding place_new
  place_new-Post end none = not_accepted
  place_new-Post end (some raw) = place-Post end raw

module _ (sha256 : Text → Text) where
  -- the text that the caller has read is the one that the anchor names
  abbrev pub IsFresh : Text → Option Text → Type 0
  IsFresh base none = Unit
  IsFresh base (some sha) = sha ≢ [] → sha256 base ≡ norm_sha sha

  IsFresh-anchor : (base : Text) (o : Option Text) → is_stale sha256 base o ≡ false → IsFresh base o
  IsFresh-anchor base none h = tt
  IsFresh-anchor base (some sha) h = λ named. elim (missing-cases sha) [
    | inl (m, e) ↦ absurd (named e)
    | inr (m, e) ↦ elim (same-cases (sha256 base) (norm_sha sha)) [
      | inl (k, same) ↦ same
      | inr (k, apart) ↦ let x : true ≡ false = rw (m, k) at h in cc
    ]
  ]

  abbrev Accepted : Text → Text → Edit → LineSpan → Spanned → Type 0
  Accepted content base edit ls s =
      IsSpan content (start_of ls.start_line) ls.end_line
        (new_lines_of edit.new_lines edit.new_string) s
      × IsFresh base (anchor_of edit.expect_sha ls.expect_sha)

  with_fresh :
      (P : Spanned → Type 0) (A : Type 0) {r : SpanResult} → A → Post P r → Post (λ s. P s × A) r
  with_fresh P A a not_accepted = not_accepted
  with_fresh P A a (accepted h) = accepted (h, a)

  span-Post :
      (content base : Text) (edit : Edit) (ls : LineSpan)
      → Post (Accepted content base edit ls) (apply_line_span sha256 content base edit ls)
  unfolding apply_line_span
  span-Post content base edit ls =
      let P = Accepted content base edit ls in
      let start = start_of ls.start_line in
      let anchor = anchor_of edit.expect_sha ls.expect_sha in
      let lines = lines_of content in
      let given = new_lines_of edit.new_lines edit.new_string in
      Post-if P (start == 0) (λ z. not_accepted)
        (λ z.
          Post-if P (shas_conflict edit.expect_sha ls.expect_sha) (λ c. not_accepted)
            (λ c.
              Post-if P (is_stale sha256 base anchor) (λ f. not_accepted)
                (λ f.
                  Post-if P (ltb (length lines + 1) start) (λ k. not_accepted)
                    (λ k.
                      with_fresh (IsSpan content start ls.end_line given) (IsFresh base anchor)
                        (IsFresh-anchor base anchor f)
                        (place_new-Post content start (is_anchored anchor) (ground arith)
                          (ground arith) ls.end_line given)))))

  -- what an accepted edit does, with the line ends that the code gives
  pub apply_line_span-IsSpan :
      (content base : Text) (edit : Edit) (ls : LineSpan) (s : Spanned)
      → apply_line_span sha256 content base edit ls ≡ spanned s
      → IsSpan content
          (start_of ls.start_line)
          ls.end_line
          (new_lines_of edit.new_lines edit.new_string)
          s
        × IsFresh base (anchor_of edit.expect_sha ls.expect_sha)
  apply_line_span-IsSpan content base edit ls s h =
      of_Post (Accepted content base edit ls)
        (subst (Post (Accepted content base edit ls)) h (span-Post content base edit ls))
