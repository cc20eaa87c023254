-- ===== src/Attempts/Redone.antt =====
-- A stopped attempt is settled only by a determinate one that is at least as new and checks at least as
-- much in the same directory.
use liu_he.Base.{
  ℕ, ◌≤◌, ◌≡◌, refl, sym, Bool, true, false, Bool-cases, inl, inr, ◌||◌, not, Option, some,
  Option-cases, is_some, List, [], ◌∷◌, ◌++◌, All, All-append, In, All-In, All-self, any, arith,
}
use liu_he.Base.Text.{Text}
use liu_he.Base.Sort.{insert_by, insert_by-All}
use liu_he.Attempts.{
  Attempt, CheckOperation, JobRecord, is_after, sort_attempts, check_attempts, collect_attempts,
  is_check, is_check_job, filter,
}
use liu_he.Attempts.Scope.{
  is_stopped, is_unresolved, find, covers_stopped_attempt, resolve_from,
  stopped_attempt_resolutions,
}

-- each attempt is at least as new as all behind it
abbrev pub IsNewestFirst : List Attempt → Type 0
IsNewestFirst [] = Unit
IsNewestFirst (a ∷ attempts) =
    All (λ (b : Attempt). b.time ≤ a.time) attempts × IsNewestFirst attempts

pub some_eq : {A : Type 0} (x y : A) → some x ≡ some y → x ≡ y
some_eq x y h = cc

or_false : (a b : Bool) → (a || b) ≡ false → (a ≡ false) × (b ≡ false)
or_false true b h = cc
or_false false b h = (refl, h)

older :
    (t u : ℕ) (attempts : List Attempt)
    → t ≤ u
    → All (λ (b : Attempt). b.time ≤ t) attempts
    → All (λ (b : Attempt). b.time ≤ u) attempts
older t u [] l h = tt
older t u (b ∷ attempts) l h = (omega (arith, l, h.0), older t u attempts l h.1)

pub find-some :
    {A : Type 0} (p : A → Bool) (xs : List A) (x : A) → find p xs ≡ some x → In x xs × (p x ≡ true)
find-some p [] x h = cc
find-some p (y ∷ ys) x h = elim (Bool-cases (p y)) [
  | inl e ↦
      let same : some y ≡ some x = rw e at h in
      (inl (some_eq x y (sym same)), rw (sym (some_eq y x same)) e)
  | inr e ↦ let k = find-some p ys x (rw e at h) in (inr k.0, k.1)
]

-- `d` was made after `a` and closes it
abbrev pub IsRedone : (Text → Text) → List Attempt → Attempt → Type 0
IsRedone to_lower attempts a =
    (d : Attempt) × In d attempts × (a.time ≤ d.time) × (covers_stopped_attempt to_lower d a ≡ true)

module _ (locale_after : Text → Text → Bool) where
  insert-IsNewestFirst :
      (a : Attempt) (attempts : List Attempt)
      → IsNewestFirst attempts
      → IsNewestFirst (insert_by (is_after locale_after) a attempts)
  insert-IsNewestFirst a [] h = (tt, tt)
  insert-IsNewestFirst a (b ∷ attempts) h = elim (Bool-cases (is_after locale_after a b)) [
    | inl e ↦ rw e (
      insert_by-All (is_after locale_after) (λ (x : Attempt). x.time ≤ b.time) a attempts
          (ground arith) h.0,
      insert-IsNewestFirst a attempts h.1,
    )
    | inr e ↦ rw e ((ground arith, older b.time a.time attempts (ground arith) h.0), h)
  ]

  pub sort-IsNewestFirst :
      (attempts : List Attempt) → IsNewestFirst (sort_attempts locale_after attempts)
  sort-IsNewestFirst [] = tt
  sort-IsNewestFirst (a ∷ attempts) =
      insert-IsNewestFirst a (sort_attempts locale_after attempts) (sort-IsNewestFirst attempts)

-- what is at least as new as all in front of it stays so with one more
widen :
    (newer : List Attempt) (a : Attempt) (attempts : List Attempt)
    → All (λ (b : Attempt). All (λ (d : Attempt). b.time ≤ d.time) newer) attempts
    → All (λ (b : Attempt). b.time ≤ a.time) attempts
    → All (λ (b : Attempt). All (λ (d : Attempt). b.time ≤ d.time) (newer ++ (a ∷ []))) attempts
widen newer a [] h k = tt
widen newer a (b ∷ attempts) h k = (
  All-append (λ (d : Attempt). b.time ≤ d.time) newer (a ∷ []) h.0 (k.0, tt),
  widen newer a attempts h.1 k.1,
)

nothing_newer :
    (attempts : List Attempt)
    → All (λ (b : Attempt). All (λ (d : Attempt). b.time ≤ d.time) []) attempts
nothing_newer [] = tt
nothing_newer (a ∷ attempts) = (tt, nothing_newer attempts)

module _ (to_lower : Text → Text) where
  found-IsRedone :
      (all_attempts newer : List Attempt) (a : Attempt)
      → All (λ (d : Attempt). In d all_attempts) newer
      → All (λ (d : Attempt). a.time ≤ d.time) newer
      → not (is_some (find (λ (d : Attempt). covers_stopped_attempt to_lower d a) newer)) ≡ false
      → IsRedone to_lower all_attempts a
  found-IsRedone all_attempts newer a members times found =
      elim (Option-cases (find (λ (d : Attempt). covers_stopped_attempt to_lower d a) newer)) [
        | inl e ↦ let k : true ≡ false = rw e at found in cc
        | inr (d, e) ↦
            let (i, c) =
              find-some (λ (d : Attempt). covers_stopped_attempt to_lower d a) newer d e in
            (
              d,
              All-In (λ (d : Attempt). In d all_attempts) d newer members i,
              All-In (λ (d : Attempt). a.time ≤ d.time) d newer times i,
              c,
            )
      ]

  resolve_from-IsRedone :
      (all_attempts newer attempts : List Attempt)
      → All (λ (d : Attempt). In d all_attempts) newer
      → All (λ (d : Attempt). In d all_attempts) attempts
      → All (λ (b : Attempt). All (λ (d : Attempt). b.time ≤ d.time) newer) attempts
      → IsNewestFirst attempts
      → any is_unresolved (resolve_from to_lower newer attempts) ≡ false
      → All (λ (a : Attempt). is_stopped a ≡ true → IsRedone to_lower all_attempts a) attempts
  resolve_from-IsRedone all_attempts newer [] m n t s u = tt
  resolve_from-IsRedone all_attempts newer (a ∷ attempts) m n t s u =
      let next =
        resolve_from-IsRedone all_attempts (newer ++ (a ∷ [])) attempts
          (All-append (λ (d : Attempt). In d all_attempts) newer (a ∷ []) m (n.0, tt)) n.1
          (widen newer a attempts t.1 s.0) s.1 in
      elim (Bool-cases (is_stopped a)) [
        | inl e ↦
            let (here, later) =
              or_false
                (not (is_some (find (λ (d : Attempt). covers_stopped_attempt to_lower d a) newer)))
                (any is_unresolved (resolve_from to_lower (newer ++ (a ∷ [])) attempts))
                (rw e at u) in
            ((λ _. found-IsRedone all_attempts newer a m t.0 here), next later)
        | inr e ↦ ((λ h. let k : false ≡ true = rw e at h in cc), next (rw e at u))
      ]

  -- Among attempts from the newest to the oldest, if no stopped one is unresolved, each of them has been
  -- redone.
  pub unresolved-IsRedone :
      (attempts : List Attempt)
      → IsNewestFirst attempts
      → any is_unresolved (stopped_attempt_resolutions to_lower attempts) ≡ false
      → All (λ (a : Attempt). is_stopped a ≡ true → IsRedone to_lower attempts a) attempts
  unfolding stopped_attempt_resolutions
  unresolved-IsRedone attempts sorted u =
      resolve_from-IsRedone attempts [] attempts tt (All-self attempts) (nothing_newer attempts)
        sorted u

module _ (date_parse : Text → Option ℕ) (locale_after : Text → Text → Bool) where
  pub check_attempts-IsNewestFirst :
      (ops : List CheckOperation) (jobs : List JobRecord)
      → IsNewestFirst (check_attempts date_parse locale_after ops jobs)
  unfolding check_attempts
  check_attempts-IsNewestFirst ops jobs =
      sort-IsNewestFirst locale_after
        (collect_attempts date_parse locale_after (filter is_check ops) (filter is_check_job jobs))
