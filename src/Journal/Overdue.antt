-- ===== src/Journal/Overdue.antt =====
-- Which directories pruneJournals of malong/write-journal.js takes for over.
use liu_he.Base.{
  ℕ, ◌+◌, ◌*◌, ◌≤◌, ◌<◌, ◌≡◌, ◌≢◌, ◌↔◌, refl, sym, ap, subst, ◌∙◌, ◌⊎◌, inl, inr, Bool, true, false,
  Bool-cases, not, and_left, and_right, Option, Option-cases, none, some, List, [], ◌∷◌, ltb, arith,
}
use liu_he.Base.Text.{Text, starts_with, missing-cases}
use liu_he.Journal.{
  TxnState, created, staged, committed, rolled_back, abandoned, failed, undone, committed_recovered,
  indeterminate, needs_review, StateFile, StateRead, missing, unparseable, parsed, Txn,
}
use liu_he.Journal.Prune.{
  PruneOptions, is_protected, max_age, first_of, end_text, date_or, end_time, is_old, is_swept_read,
  is_swept,
}

-- `x` is the first of these that is given
pub data FirstGiven : List Text → Text → Type 0 where
  here : {x : Text} {xs : List Text} → x ≢ [] → FirstGiven (x ∷ xs) x
  later : {x : Text} {xs : List Text} → FirstGiven xs x → FirstGiven ([] ∷ xs) x

FirstGiven-first_of : (xs : List Text) (x : Text) → FirstGiven xs x → (first_of xs ≡ x) × (x ≢ [])
FirstGiven-first_of [] x f = elim f [ ]
FirstGiven-first_of (y ∷ xs) x (here n) = elim (missing-cases x) [
  | inl (m, e) ↦ absurd (n e)
  | inr (m, e) ↦ (rw m refl, n)
]
FirstGiven-first_of ([] ∷ xs) x (later f) = FirstGiven-first_of xs x f

first_of-FirstGiven : (xs : List Text) → first_of xs ≢ [] → FirstGiven xs (first_of xs)
first_of-FirstGiven [] n = absurd (n refl)
first_of-FirstGiven ([] ∷ xs) n = later (first_of-FirstGiven xs n)
first_of-FirstGiven ((c ∷ x) ∷ xs) n = here n

abbrev pub stamps : StateFile → List Text
stamps s = s.committed_at ∷ s.rolled_back_at ∷ s.abandoned_at ∷ s.failed_at ∷ []

pub not-true : (b : Bool) → not b ≡ true → b ≡ false
not-true true e = cc
not-true false e = refl

some_eq : (a b : ℕ) → some a ≡ some b → a ≡ b
some_eq a b h = cc

module _ (parse_date : Text → Option ℕ) (mtime : Text → Option ℕ) where
  -- When it ended: the first of its stamps that is given, if that is a date, and otherwise when its
  -- directory was changed.
  pub data EndsAt (id : Text) (s : StateFile) (ms : ℕ) : Type 0 where
    by_stamp : (x : Text) → FirstGiven (stamps s) x → parse_date x ≡ some ms → EndsAt id s ms
    by_directory :
        ((x : Text) → FirstGiven (stamps s) x → parse_date x ≡ none)
        → mtime id ≡ some ms
        → EndsAt id s ms

protected_iff :
    (x : TxnState) → (is_protected x ≡ false) ↔ ((x ≢ created) × (x ≢ staged) × (x ≢ needs_review))
protected_iff created = (λ e. cc, λ h. absurd (h.0 refl))
protected_iff staged = (λ e. cc, λ h. absurd (h.1 refl))
protected_iff needs_review = (λ e. cc, λ h. absurd (h.2 refl))
protected_iff committed = (λ e. (λ k. cc, λ k. cc, λ k. cc), λ h. refl)
protected_iff rolled_back = (λ e. (λ k. cc, λ k. cc, λ k. cc), λ h. refl)
protected_iff abandoned = (λ e. (λ k. cc, λ k. cc, λ k. cc), λ h. refl)
protected_iff failed = (λ e. (λ k. cc, λ k. cc, λ k. cc), λ h. refl)
protected_iff undone = (λ e. (λ k. cc, λ k. cc, λ k. cc), λ h. refl)
protected_iff committed_recovered = (λ e. (λ k. cc, λ k. cc, λ k. cc), λ h. refl)
protected_iff indeterminate = (λ e. (λ k. cc, λ k. cc, λ k. cc), λ h. refl)

-- the retention in milliseconds, of which no hours mean a day
abbrev pub IsRetention : PruneOptions → ℕ → Type 0
IsRetention opts age =
    ((opts.max_age_hours ≡ 0) × (age ≡ 86400000))
    ⊎ ((0 < opts.max_age_hours) × (age ≡ opts.max_age_hours * 3600000))

retention : (opts : PruneOptions) → IsRetention opts (max_age opts)
retention opts = elim (Bool-cases (ltb 0 opts.max_age_hours)) [
  | inl e ↦ rw e (inr (ground arith, omega arith))
  | inr e ↦ rw e (inl (ground arith, refl))
]

module _ (parse_date : Text → Option ℕ) (mtime : Text → Option ℕ) (opts : PruneOptions)
    (now : ℕ) where
  end_time-EndsAt :
      (id : Text) (s : StateFile) (ms : ℕ)
      → end_time parse_date mtime opts now id s ≡ some ms
      → EndsAt parse_date mtime id s ms
  end_time-EndsAt id s ms e = elim (missing-cases (end_text s)) [
    | inl (m, x) ↦
        by_directory
          (λ y f. let k = FirstGiven-first_of (stamps s) y f in absurd (k.1 (sym k.0 ∙ x)))
          (rw m at e)
    | inr (m, x) ↦ elim (Option-cases (parse_date (end_text s))) [
      | inl n ↦
          by_directory (λ y f. ap parse_date (sym (FirstGiven-first_of (stamps s) y f).0) ∙ n)
            (rw (m, n) at e)
      | inr (t, n) ↦ by_stamp (end_text s) (first_of-FirstGiven (stamps s) x) (n ∙ (rw (m, n) at e))
    ]
  ]

  EndsAt-end_time :
      (id : Text) (s : StateFile) (ms : ℕ)
      → EndsAt parse_date mtime id s ms
      → end_time parse_date mtime opts now id s ≡ some ms
  EndsAt-end_time id s ms (by_stamp x f e) =
      let k = FirstGiven-first_of (stamps s) x f in
      elim (missing-cases (end_text s)) [
        | inl (m, y) ↦ absurd (k.1 (sym k.0 ∙ y))
        | inr (m, y) ↦ rw m (ap (date_or parse_date mtime opts now id) (ap parse_date k.0 ∙ e))
      ]
  EndsAt-end_time id s ms (by_directory h e) = elim (missing-cases (end_text s)) [
    | inl (m, y) ↦ rw m e
    | inr (m, y) ↦ rw m (
        ap (date_or parse_date mtime opts now id)
          (h (end_text s) (first_of-FirstGiven (stamps s) y))
        ∙ e)
  ]

  -- It has ended, in none of the states that are protected, and as long ago as the retention says.
  abbrev pub IsOver : Text → StateRead → Type 0
  IsOver id missing = ⊥
  IsOver id unparseable = ⊥
  IsOver id (parsed s) =
      (s.state ≢ created)
      × (s.state ≢ staged)
      × (s.state ≢ needs_review)
      × ((ms : ℕ) × (age : ℕ) × EndsAt parse_date mtime id s ms
          × IsRetention opts age
          × (ms + age ≤ now))

  -- It is no hidden directory, and over.
  abbrev pub IsOverdue : Txn → Type 0
  IsOverdue t = (starts_with (46 ∷ []) t.txn_id ≡ false) × IsOver t.txn_id t.state

  retention_unique : (age : ℕ) → IsRetention opts age → age ≡ max_age opts
  retention_unique age (inl (z, e)) = elim (retention opts) [
    | inl (y, k) ↦ omega (arith, e, k)
    | inr (y, k) ↦ absurd (omega (arith, z, y))
  ]
  retention_unique age (inr (z, e)) = elim (retention opts) [
    | inl (y, k) ↦ absurd (omega (arith, z, y))
    | inr (y, k) ↦ e ∙ sym k
  ]

  old_iff :
      (o : Option ℕ)
      → (is_old parse_date mtime opts now o ≡ true)
        ↔ ((ms : ℕ) × (o ≡ some ms) × (ms + max_age opts ≤ now))
  old_iff none = (λ e. cc, λ (ms, e, l). cc)
  old_iff (some n) = (
    λ e. (n, refl, far n (max_age opts) e),
    λ (ms, e, l). near n (max_age opts) (let k = some_eq n ms e in omega (arith, k, l)),
  )
    where
      far : (n age : ℕ) → not (ltb now (n + age)) ≡ true → n + age ≤ now
      far n age e = ground arith

      near : (n age : ℕ) → n + age ≤ now → not (ltb now (n + age)) ≡ true
      near n age e = ground arith

  is_swept_read-IsOver :
      (id : Text) (r : StateRead)
      → (is_swept_read parse_date mtime opts now id r ≡ true) ↔ IsOver id r
  is_swept_read-IsOver id missing = (λ e. cc, λ h. absurd h)
  is_swept_read-IsOver id unparseable = (λ e. cc, λ h. absurd h)
  is_swept_read-IsOver id (parsed s) = (
    λ e.
        let (a, b, c) =
          (protected_iff s.state).0 (not-true _ (and_left (not (is_protected s.state)) _ e)) in
        let (ms, at, l) =
          (old_iff (end_time parse_date mtime opts now id s)).0
            (and_right (not (is_protected s.state)) _ e) in
        (a, b, c, (ms, max_age opts, end_time-EndsAt id s ms at, retention opts, l)),
    λ (a, b, c, (ms, age, at, long, l)).
        let p = (protected_iff s.state).1 (a, b, c) in
        let o = (old_iff (end_time parse_date mtime opts now id s)).1 (
          ms,
          EndsAt-end_time id s ms at,
          subst (λ n. ms + n ≤ now) (retention_unique age long) l,
        ) in
        rw (p, o) refl,
  )

  pub swept_iff : (t : Txn) → (is_swept parse_date mtime opts now t ≡ true) ↔ IsOverdue t
  swept_iff t = (
    λ e. (
      not-true _ (and_left (not (starts_with (46 ∷ []) t.txn_id)) _ e),
      (is_swept_read-IsOver t.txn_id t.state).0
          (and_right (not (starts_with (46 ∷ []) t.txn_id)) _ e),
    ),
    λ (v, h). let k = (is_swept_read-IsOver t.txn_id t.state).1 h in rw (v, k) refl,
  )
