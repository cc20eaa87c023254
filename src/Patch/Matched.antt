-- ===== src/Patch/Matched.antt =====
-- What the two matchers of a patch find: a part of the text that is normalised like the search text.
use liu_he.Base.{
  ℕ, zero, suc, ◌+◌, ◌-◌, ◌≤◌, min, ◌≡◌, Bool-cases, inl, inr, Option, none, some, length, ltb,
  arith,
}
use liu_he.Base.Text.{Text, ◌===◌, ===_iff}
use liu_he.Transaction.Simulate.{index_of}
use liu_he.Patch.Apply.{
  Range, slice, find_end, find_from, find_start, find_near, find_match, or_later, find_exact_match,
  find_fuzzy_match, normalize_whitespace, fuzzy_normalize,
}

-- the range lies in the text, and what is in it is normalised to the target
pub record IsMatch (normalize : Text → Text) (content target : Text) (r : Range) : Type 0 where
  pub in_order : r.start ≤ r.end
  pub in_content : r.end ≤ length content
  pub same : normalize (slice content r) ≡ target

abbrev pub IsMatched : (Text → Text) → Text → Text → Option Range → Type 0
IsMatched normalize content target none = Unit
IsMatched normalize content target (some r) = IsMatch normalize content target r

module _ (normalize : Text → Text) (content : Text) (target : Text) where
  find_end-IsMatched :
      (n start end : ℕ)
      → start ≤ end
      → n ≤ suc (length content) - end
      → IsMatched normalize content target (find_end normalize content target n start end)
  unfolding find_end
  find_end-IsMatched zero start end l h = tt
  find_end-IsMatched (suc n) start end l h =
      elim (Bool-cases
        (normalize (slice content (record { start = start; end = end })) === target)) [
          | inl e ↦ rw e (record {
            in_order = l;
            in_content = omega (arith, h);
            same = (===_iff _ target).0 e;
          })
          | inr e ↦
              rw e (find_end-IsMatched n start (suc end) (omega (arith, l)) (omega (arith, h)))
        ]

  find_from-IsMatched :
      (len start : ℕ)
      → IsMatched normalize content target (find_from normalize content target len start)
  find_from-IsMatched len start =
      find_end-IsMatched (suc (min (length content) (start + len + 64)) - (start + len)) start
        (start + len) (omega arith) (omega arith)

  or_later-IsMatched :
      (now later : Option Range)
      → IsMatched normalize content target now
      → IsMatched normalize content target later
      → IsMatched normalize content target (or_later normalize content target now later)
  or_later-IsMatched none later h k = k
  or_later-IsMatched (some r) later h k = h

  find_start-IsMatched :
      (n window len ahead : ℕ)
      → IsMatched normalize content target (find_start normalize content target n window len ahead)
  unfolding find_start
  find_start-IsMatched zero window len ahead = tt
  find_start-IsMatched (suc n) window len ahead =
      let later = find_start-IsMatched n window len (suc ahead) in
      elim (Bool-cases (ltb ahead window)) [
        | inl e ↦ rw e later
        | inr e ↦ elim (Bool-cases (ltb (length content) (ahead - window))) [
          | inl f ↦ rw (e, f) later
          | inr f ↦
              rw (e, f)
                (or_later-IsMatched (find_from normalize content target len (ahead - window))
                  (find_start normalize content target n window len (suc ahead))
                  (find_from-IsMatched len (ahead - window)) later)
        ]
      ]

find_match-IsMatched :
    (normalize : Text → Text) (slack : ℕ) (content search : Text)
    → IsMatched normalize content (normalize search) (find_match normalize slack content search)
unfolding find_match
find_match-IsMatched normalize slack content search =
    near _ (index_of (normalize search) (normalize content))
  where
    near :
        (window : ℕ) (found : Option ℕ)
        → IsMatched normalize content
            (normalize search)
            (find_near normalize content search window found)
    near window none = tt
    near window (some idx) =
        find_start-IsMatched normalize content (normalize search) (suc (window + window)) window
          (length search) idx

pub exact-IsMatched :
    (content search : Text)
    → IsMatched normalize_whitespace content
        (normalize_whitespace search)
        (find_exact_match content search)
unfolding find_exact_match
exact-IsMatched content search = find_match-IsMatched normalize_whitespace 5 content search

pub fuzzy-IsMatched :
    (content search : Text)
    → IsMatched fuzzy_normalize content (fuzzy_normalize search) (find_fuzzy_match content search)
unfolding find_fuzzy_match
fuzzy-IsMatched content search = find_match-IsMatched fuzzy_normalize 20 content search
