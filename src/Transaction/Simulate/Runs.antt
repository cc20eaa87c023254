-- ===== src/Transaction/Simulate/Runs.antt =====
-- What a simulation is: a run of edits of the text, in which some are skipped.
use liu_he.Base.{
  ℕ, zero, suc, ◌+◌, ◌≤◌, ◌≡◌, ◌≢◌, refl, sym, ap, subst, ◌∙◌, inl, inr, true, false, Bool-cases,
  Option, none, some, Option-cases, List, [], ◌∷◌, ◌++◌, length, length-append, take, drop, ltb,
  arith,
}
use liu_he.Base.Text.{Text, starts_with, missing-cases, same-cases}
use liu_he.Edit.Apply.{count_occurrences}
use liu_he.Transaction.Span.{
  LineSpan, Edit, Reason, Spanned, SpanResult, refused, spanned, apply_line_span,
}
use liu_he.Transaction.Simulate.Replacing.{
  Replaced, IsNowhere, starts-split, replace_all-Replaced, index_of-IsNowhere,
}
use liu_he.Transaction.Simulate.{
  index_of, one_further, replace_all, Match, Simulation, fail_edit, new_text, span_edit,
  replace_edit, first_edit, simulate_edit, edit_by, simulate_from, start_simulation, simulate_edits,
}

-- The text is there at that place, and at no earlier one.
pub record IsFirst (needle s : Text) (i : ℕ) : Type 0 where
  pub here : s ≡ take i s ++ (needle ++ drop (i + length needle) s)
  pub earlier : (j : ℕ) → suc j ≤ i → starts_with needle (drop j s) ≡ false

IsFirst-here : (needle s : Text) → starts_with needle s ≡ true → IsFirst needle s 0
IsFirst-here needle s h = record {
  here =
      starts-split needle s h
      ∙ ap (λ (n : ℕ). needle ++ drop n s)
          (let e : length needle ≡ 0 + length needle = omega arith in e);
  earlier = λ j less. absurd (omega arith);
}

IsFirst-later :
    (needle s : Text) (c i : ℕ)
    → starts_with needle (c ∷ s) ≡ false
    → IsFirst needle s i
    → IsFirst needle (c ∷ s) (suc i)
IsFirst-later needle s c i h f =
    let e : suc i + length needle ≡ suc (i + length needle) = omega arith in
    record {
      here =
          ap (λ (l : Text). c ∷ l) f.here
          ∙ ap (λ (n : ℕ). c ∷ (take i s ++ (needle ++ drop n (c ∷ s)))) (sym e);
      earlier = later;
    }
  where
    later : (j : ℕ) → suc j ≤ suc i → starts_with needle (drop j (c ∷ s)) ≡ false
    later zero less = h
    later (suc j) less = f.earlier j (omega arith)

index_of-IsFirst :
    (needle s : Text) (i : ℕ) → needle ≢ [] → index_of needle s ≡ some i → IsFirst needle s i
unfolding index_of
index_of-IsFirst needle [] i named h = elim (missing-cases needle) [
  | inl (m, e) ↦ absurd (named e)
  | inr (m, e) ↦ let k : none ≡ some i = rw m at h in cc
]
index_of-IsFirst needle (c ∷ s) i named h = elim (Bool-cases (starts_with needle (c ∷ s))) [
  | inl e ↦
      let k : some 0 ≡ some i = rw e at h in
      let z : 0 ≡ i = cc in
      subst (λ (n : ℕ). IsFirst needle (c ∷ s) n) z (IsFirst-here needle (c ∷ s) e)
  | inr e ↦
      let k : one_further (index_of needle s) ≡ some i = rw e at h in
      elim (Option-cases (index_of needle s)) [
        | inl n ↦ let x : none ≡ some i = rw n at k in cc
        | inr (j, f) ↦
            let x : some (suc j) ≡ some i = rw f at k in
            let z : suc j ≡ i = cc in
            subst (λ (n : ℕ). IsFirst needle (c ∷ s) n) z
              (IsFirst-later needle s c j e (index_of-IsFirst needle s j named f))
      ]
]

-- One edit of a text: of a range of lines, of every place, or of the first place of its old text.
pub data Edits (sha256 : Text → Text) (base : Text) : Text → Edit → Text → Type 0 where
  by_span :
      {r : Text} {e : Edit} (ls : LineSpan) (s : Spanned)
      → e.line_span ≡ some ls
      → apply_line_span sha256 r base e ls ≡ spanned s
      → Edits sha256 base r e s.result
  by_all :
      {r s : Text} {e : Edit}
      → e.line_span ≡ none
      → e.replace_all ≡ true
      → e.old_string ≢ []
      → Replaced e.old_string (new_text e) r s
      → s ≢ r
      → Edits sha256 base r e s
  by_first :
      {r : Text} {e : Edit} (i : ℕ)
      → e.line_span ≡ none
      → e.replace_all ≡ false
      → e.old_string ≢ []
      → IsFirst e.old_string r i
      → Edits sha256 base r e (take i r ++ (new_text e ++ drop (i + length e.old_string) r))

-- The edit cannot be made: its range of lines is refused, it has no old text, its old text is nowhere, or,
-- if it is for every place, it would leave the text as it is.
pub data Fails (sha256 : Text → Text) (base r : Text) (e : Edit) : Type 0 where
  span_refused :
      (ls : LineSpan) (reason : Reason)
      → e.line_span ≡ some ls
      → apply_line_span sha256 r base e ls ≡ refused reason
      → Fails sha256 base r e
  no_old_text : e.line_span ≡ none → e.old_string ≡ [] → Fails sha256 base r e
  no_change :
      e.line_span ≡ none
      → e.replace_all ≡ true
      → e.old_string ≢ []
      → Replaced e.old_string (new_text e) r r
      → Fails sha256 base r e
  nowhere :
      e.line_span ≡ none
      → e.replace_all ≡ false
      → e.old_string ≢ []
      → IsNowhere e.old_string r
      → Fails sha256 base r e

-- The edits in their order, of which those that cannot be made are left out: the text at the end, and how many of each.
pub data Run (sha256 : Text → Text) (base : Text) : Text → List Edit → Text → ℕ → ℕ → Type 0 where
  done : {r : Text} → Run sha256 base r [] r 0 0
  edited :
      {r s t : Text} {e : Edit} {es : List Edit} {a f : ℕ}
      → Edits sha256 base r e s
      → Run sha256 base s es t a f
      → Run sha256 base r (e ∷ es) t (suc a) f
  skipped :
      {r t : Text} {e : Edit} {es : List Edit} {a f : ℕ}
      → Fails sha256 base r e
      → Run sha256 base r es t a f
      → Run sha256 base r (e ∷ es) t a (suc f)

-- what one edit does to the state
data Stepped (sha256 : Text → Text) (base : Text) (st : Simulation) (e : Edit)
    : Simulation → Type 0 where
  failed :
      {st' : Simulation}
      → Fails sha256 base st.result e
      → st'.result ≡ st.result
      → st'.applied ≡ st.applied
      → length st'.failed_edits ≡ suc (length st.failed_edits)
      → length st'.matches ≡ length st.matches
      → Stepped sha256 base st e st'
  matched :
      {st' : Simulation}
      → Edits sha256 base st.result e st'.result
      → st'.applied ≡ suc st.applied
      → length st'.failed_edits ≡ length st.failed_edits
      → length st'.matches ≡ suc (length st.matches)
      → Stepped sha256 base st e st'

module _ (sha256 : Text → Text) (base : Text) (st : Simulation) (e : Edit) (i : ℕ) where
  fail-Stepped :
      (reason : Reason)
      → Fails sha256 base st.result e
      → Stepped sha256 base st e (fail_edit st i reason)
  fail-Stepped reason cannot =
      failed cannot refl refl
        (length-append st.failed_edits (record { index = i; reason = reason } ∷ [])
          ∙ (let k : length st.failed_edits + 1 ≡ suc (length st.failed_edits) = omega arith in k))
        refl

  length_push : (m : Match) → length (st.matches ++ m ∷ []) ≡ suc (length st.matches)
  length_push m =
      length-append st.matches (m ∷ [])
      ∙ (let k : length st.matches + 1 ≡ suc (length st.matches) = omega arith in k)

  span-Stepped :
      (ls : LineSpan) (r : SpanResult)
      → e.line_span ≡ some ls
      → apply_line_span sha256 st.result base e ls ≡ r
      → Stepped sha256 base st e (span_edit st i ls r)
  unfolding span_edit
  span-Stepped ls (refused reason) h k = fail-Stepped reason (span_refused ls reason h k)
  span-Stepped ls (spanned s) h k = matched (by_span ls s h k) refl refl (length_push _)

  replace-Stepped :
      e.line_span ≡ none
      → e.replace_all ≡ true
      → e.old_string ≢ []
      → Stepped sha256 base st e (replace_edit st i e.old_string (new_text e))
  unfolding replace_edit
  replace-Stepped h all_places named =
      let all = replace_all-Replaced e.old_string (new_text e) st.result named in
      elim (same-cases (replace_all e.old_string (new_text e) st.result) st.result) [
        | inr (x, other) ↦
            rw x (matched (by_all h all_places named all other) refl refl (length_push _))
        | inl (x, same) ↦ rw x (
            fail-Stepped _ (
              no_change h all_places named
                (subst (Replaced e.old_string (new_text e) st.result) same all)))
      ]

  first-Stepped :
      (o : Option ℕ)
      → e.line_span ≡ none
      → e.replace_all ≡ false
      → e.old_string ≢ []
      → index_of e.old_string st.result ≡ o
      → Stepped sha256 base st e (first_edit st i e.old_string (new_text e) o)
  unfolding first_edit
  first-Stepped none h one named k =
      fail-Stepped _ (nowhere h one named (index_of-IsNowhere e.old_string st.result named k))
  first-Stepped (some at) h one named k =
      let f = index_of-IsFirst e.old_string st.result at named k in
      elim (Bool-cases (ltb 1 (count_occurrences st.result e.old_string))) [
        | inl x ↦ rw x (matched (by_first at h one named f) refl refl (length_push _))
        | inr x ↦ rw x (matched (by_first at h one named f) refl refl (length_push _))
      ]

module _ (sha256 : Text → Text) (base : Text) where
  edit_by-Stepped :
      (st : Simulation) (i : ℕ) (e : Edit) (o : Option LineSpan)
      → e.line_span ≡ o
      → Stepped sha256 base st e (edit_by sha256 base st i e o)
  unfolding edit_by
  edit_by-Stepped st i e (some ls) h = span-Stepped sha256 base st e i ls _ h refl
  edit_by-Stepped st i e none h = elim (missing-cases e.old_string) [
    | inl (m, k) ↦ rw m (fail-Stepped sha256 base st e i _ (no_old_text h k))
    | inr (m, named) ↦ elim (Bool-cases e.replace_all) [
      | inl a ↦ simp (m, a) (replace-Stepped sha256 base st e i h a named)
      | inr a ↦ simp (m, a) (first-Stepped sha256 base st e i _ h a named refl)
    ]
  ]

  record RunFrom (st : Simulation) (es : List Edit) (end : Simulation) : Type 0 where
    done_edits : ℕ
    skipped_edits : ℕ
    run : Run sha256 base st.result es end.result done_edits skipped_edits
    applied_eq : end.applied ≡ st.applied + done_edits
    failed_eq : length end.failed_edits ≡ length st.failed_edits + skipped_edits
    matches_eq : length end.matches ≡ length st.matches + done_edits

  step-RunFrom :
      (st st' : Simulation) (e : Edit) (es : List Edit) (end : Simulation)
      → Stepped sha256 base st e st'
      → RunFrom st' es end
      → RunFrom st (e ∷ es) end
  step-RunFrom st st' e es end (failed cannot same applied_same one_more matches_same) r = record {
    done_edits = r.done_edits;
    skipped_edits = suc r.skipped_edits;
    run = skipped cannot (
        subst (λ (t : Text). Run sha256 base t es end.result r.done_edits r.skipped_edits) same
          r.run);
    applied_eq = omega (arith, r.applied_eq, applied_same);
    failed_eq = omega (arith, r.failed_eq, one_more);
    matches_eq = omega (arith, r.matches_eq, matches_same);
  }
  step-RunFrom st st' e es end (matched edit one_more same_failed more_matches) r = record {
    done_edits = suc r.done_edits;
    skipped_edits = r.skipped_edits;
    run = edited edit r.run;
    applied_eq = omega (arith, r.applied_eq, one_more);
    failed_eq = omega (arith, r.failed_eq, same_failed);
    matches_eq = omega (arith, r.matches_eq, more_matches);
  }

  simulate_from-RunFrom :
      (st : Simulation) (i : ℕ) (es : List Edit) → RunFrom st es (simulate_from sha256 base st i es)
  unfolding simulate_from
  simulate_from-RunFrom st i [] = record {
    done_edits = 0;
    skipped_edits = 0;
    run = done;
    applied_eq = omega arith;
    failed_eq = omega arith;
    matches_eq = omega arith;
  }
  simulate_from-RunFrom st i (e ∷ es) =
      step-RunFrom st (simulate_edit sha256 base st i e) e es
        (simulate_from sha256 base (simulate_edit sha256 base st i e) (suc i) es)
        (edit_by-Stepped st i e e.line_span refl)
        (simulate_from-RunFrom (simulate_edit sha256 base st i e) (suc i) es)

-- A simulation is a run of its edits in their order, each on the text that the one before has left. An
-- edit is left out exactly when its range of lines is refused, it has no old text, its old text is
-- nowhere, or it is for every place and would change nothing; another one changes its range of lines, or
-- every place of its old text from left to right, or the first one. `applied` counts those that are made, and
-- each of these has a receipt.
pub simulate_edits-Run :
    (sha256 : Text → Text) (content : Text) (edits : List Edit)
    → let st = simulate_edits sha256 content edits in
      Run sha256 content content edits st.result st.applied (length st.failed_edits)
      × (length st.matches ≡ st.applied)
unfolding simulate_edits
simulate_edits-Run sha256 content edits =
    let r = simulate_from-RunFrom sha256 content (start_simulation content) 0 edits in
    let st = simulate_from sha256 content (start_simulation content) 0 edits in
    let a : r.done_edits ≡ st.applied = omega (arith, r.applied_eq) in
    let f : r.skipped_edits ≡ length st.failed_edits = omega (arith, r.failed_eq) in
    (
      subst (λ (n : ℕ). Run sha256 content content edits st.result n (length st.failed_edits)) a
          (subst (λ (n : ℕ). Run sha256 content content edits st.result r.done_edits n) f r.run),
      omega (arith, r.matches_eq, r.applied_eq),
    )
