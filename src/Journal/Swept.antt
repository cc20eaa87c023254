-- ===== src/Journal/Swept.antt =====
-- What pruneJournals of malong/write-journal.js takes away, and what it leaves.
use liu_he.Base.{
  ℕ, ◌+◌, ◌≤◌, ◌≡◌, refl, subst, sym, ◌⊎◌, inl, inr, true, false, Bool-cases, Option-cases, not,
  ◌&&◌, and_left, and_right, Option, none, some, List, [], ◌∷◌, In, length, ltb, arith,
}
use liu_he.Base.Text.{Text}
use liu_he.Journal.{Txn}
use liu_he.Journal.Overdue.{not-true, IsOverdue, swept_iff}
use liu_he.Journal.Prune.{PruneOptions, is_swept, sweep, count_of, is_recent, prune_journals}

-- the call is forced, or there was none before, or it was at least an hour ago
abbrev pub IsCalled : PruneOptions → ℕ → Option ℕ → Type 0
IsCalled opts now last =
    (opts.force ≡ true) ⊎ ((last ≡ none) ⊎ ((at : ℕ) × (last ≡ some at) × (at + 3600000 ≤ now)))

module _ (parse_date : Text → Option ℕ) (mtime : Text → Option ℕ) (opts : PruneOptions)
    (now : ℕ) where
  IsCalled-is_recent :
      (last : Option ℕ)
      → IsCalled opts now last
      → (not opts.force && not opts.dry_run && is_recent parse_date mtime opts now last) ≡ true
      → ⊥
  IsCalled-is_recent last (inl e) k = let never : false ≡ true = rw e at k in cc
  IsCalled-is_recent last (inr (inl e)) k =
      let recent =
        and_right (not opts.force && not opts.dry_run) (is_recent parse_date mtime opts now last)
          k in
      let never : false ≡ true = rw e at recent in cc
  IsCalled-is_recent last (inr (inr (at, e, l))) k =
      let recent =
        and_right (not opts.force && not opts.dry_run) (is_recent parse_date mtime opts now last)
          k in
      let soon : ltb now (at + 3600000) ≡ true = rw e at recent in ground arith

  is_recent-IsCalled :
      (last : Option ℕ)
      → opts.dry_run ≡ false
      → (not opts.force && not opts.dry_run && is_recent parse_date mtime opts now last) ≡ false
      → IsCalled opts now last
  is_recent-IsCalled last wet k = elim (Bool-cases opts.force) [
    | inl e ↦ inl e
    | inr e ↦ elim (Option-cases last) [
      | inl n ↦ inr (inl n)
      | inr (at, n) ↦
          let late : ltb now (at + 3600000) ≡ false = rw (e, wet, n) at k in
          inr (inr (at, n, ground arith))
    ]
  ]

  sweep-kept :
      (t : Txn) (txns : List Txn)
      → In t txns
      → In t (sweep parse_date mtime opts now txns)
        ⊎ ((opts.dry_run ≡ false) × IsOverdue parse_date mtime opts now t)
  sweep-kept t [] i = absurd i
  sweep-kept t (x ∷ txns) (inl e) =
      elim (Bool-cases (not opts.dry_run && is_swept parse_date mtime opts now x)) [
        | inl k ↦ inr (
          not-true opts.dry_run (and_left (not opts.dry_run) _ k),
          subst (IsOverdue parse_date mtime opts now) (sym e)
              ((swept_iff parse_date mtime opts now x).0 (and_right (not opts.dry_run) _ k)),
        )
        | inr k ↦ rw k (inl (inl e))
      ]
  sweep-kept t (x ∷ txns) (inr i) =
      elim (Bool-cases (not opts.dry_run && is_swept parse_date mtime opts now x)) [
        | inl k ↦ rw k (sweep-kept t txns i)
        | inr k ↦
            rw k (elim (sweep-kept t txns i) [ inl stays ↦ inl (inr stays) | inr over ↦ inr over ])
      ]

  sweep-within :
      (t : Txn) (txns : List Txn)
      → In t (sweep parse_date mtime opts now txns)
      → In t txns × (opts.dry_run ≡ false → IsOverdue parse_date mtime opts now t → ⊥)
  sweep-within t [] i = absurd i
  sweep-within t (x ∷ txns) i =
      elim (Bool-cases (not opts.dry_run && is_swept parse_date mtime opts now x)) [
        | inl k ↦ let (j, h) = sweep-within t txns (rw k at i) in (inr j, h)
        | inr k ↦ elim (rw k at i) [
          | inl e ↦ (
            inl e,
            λ wet over.
                let swept =
                  (swept_iff parse_date mtime opts now x).1
                    (subst (IsOverdue parse_date mtime opts now) e over) in
                let never : true ≡ false = rw (wet, swept) at k in cc,
          )
          | inr j ↦ let (l, h) = sweep-within t txns j in (inr l, h)
        ]
      ]

  sweep-count :
      (txns : List Txn)
      → opts.dry_run ≡ false
      → count_of parse_date mtime opts now (is_swept parse_date mtime opts now) txns
          + length (sweep parse_date mtime opts now txns)
        ≡ length txns
  sweep-count [] e = refl
  sweep-count (x ∷ txns) e = elim (Bool-cases (is_swept parse_date mtime opts now x)) [
    | inl k ↦ rw (e, k) (omega (arith, sweep-count txns e))
    | inr k ↦ rw (e, k) (omega (arith, sweep-count txns e))
  ]

  -- A call that is forced, or comes an hour or more after the last one, or is the first, takes away,
  -- unless it is a dry run, exactly those directories that are not hidden, whose state can be read and
  -- is none of created, staged and needs_review, and which ended at least as long ago as the retention
  -- says: by the first given of four stamps, if it is a date, or else by the time of the directory. Any
  -- other call takes none away, and no call adds one. What a call that is no dry run counts as pruned
  -- and what is left make up what there was.
  pub prune_journals-swept :
      (txns : List Txn) (last : Option ℕ)
      → let r = prune_journals parse_date mtime opts now txns last in
        ((t : Txn)
          → In t txns
          → In t r.txns
            ⊎ ((opts.dry_run ≡ false)
                × IsCalled opts now last
                × IsOverdue parse_date mtime opts now t))
        × ((t : Txn)
            → In t r.txns
            → In t txns
              × (opts.dry_run ≡ false
                  → IsCalled opts now last
                  → IsOverdue parse_date mtime opts now t
                  → ⊥))
        × (opts.dry_run ≡ false → r.pruned + length r.txns ≡ length txns)
  unfolding prune_journals
  prune_journals-swept txns last =
      elim (Bool-cases
        (not opts.force && not opts.dry_run && is_recent parse_date mtime opts now last)) [
          | inl k ↦ rw k (
            (λ t i. inl i),
            (λ t i. (i, λ wet called over. IsCalled-is_recent last called k)),
            λ e. omega arith,
          )
          | inr k ↦ rw k (
            (λ t i. elim (sweep-kept t txns i) [
              | inl stays ↦ inl stays
              | inr (wet, over) ↦ inr (wet, is_recent-IsCalled last wet k, over)
            ]),
            (λ t i. let (j, h) = sweep-within t txns i in (j, λ wet called. h wet)),
            λ e. sweep-count txns e,
          )
        ]
