-- ===== src/Journal/Prune.antt =====
-- `pruneJournals` of malong/write-journal.js, which sweeps what has ended long ago, at most once an hour.
-- The reading of a date and the time at which a directory was changed are parameters.
use liu_he.Base.{
  ℕ, ◌+◌, ◌*◌, Bool, true, false, not, ◌&&◌, Option, none, some, List, [], ◌∷◌, ltb, if◌then◌else◌,
  suc,
}
use liu_he.Base.Text.{Text, is_missing, starts_with}
use liu_he.Journal.{
  TxnState, created, staged, needs_review, StateFile, StateRead, missing, unparseable, parsed, Txn,
}

-- hours that are no positive number are 0; a fraction of an hour is left out
pub record PruneOptions : Type 0 where
  pub max_age_hours : ℕ
  pub dry_run : Bool
  pub force : Bool

pub record Pruned : Type 0 where
  pub txns : List Txn
  pub last_prune : Option ℕ
  pub pruned : ℕ
  pub kept : ℕ
  pub is_throttled : Bool

-- PRUNE_PROTECTED_STATES
abbrev pub is_protected : TxnState → Bool
is_protected created = true
is_protected staged = true
is_protected needs_review = true
is_protected _ = false

abbrev default_hours : ℕ
default_hours = 24

abbrev prune_interval : ℕ
prune_interval = 60 * 60 * 1000

abbrev pub max_age : PruneOptions → ℕ
max_age opts =
    (if ltb 0 opts.max_age_hours then opts.max_age_hours else default_hours) * 3600 * 1000

abbrev pub first_of : List Text → Text
first_of [] = []
first_of (x ∷ xs) = let rest = first_of xs in if is_missing x then rest else x

abbrev pub end_text : StateFile → Text
end_text s = first_of (s.committed_at ∷ s.rolled_back_at ∷ s.abandoned_at ∷ s.failed_at ∷ [])

module _ (parse_date : Text → Option ℕ) (mtime : Text → Option ℕ) (opts : PruneOptions)
    (now : ℕ) where
  abbrev pub date_or : Text → Option ℕ → Option ℕ
  date_or id (some ms) = some ms
  date_or id none = mtime id

  abbrev pub end_time : Text → StateFile → Option ℕ
  end_time id s = date_or id (if is_missing (end_text s) then none else parse_date (end_text s))

  -- not later than the cutoff, which lies `max_age` back
  abbrev pub is_old : Option ℕ → Bool
  is_old none = false
  is_old (some ms) = not (ltb now (ms + max_age opts))

  abbrev pub is_swept_read : Text → StateRead → Bool
  is_swept_read id (parsed s) = not (is_protected s.state) && is_old (end_time id s)
  is_swept_read id missing = false
  is_swept_read id unparseable = false

  abbrev pub is_swept : Txn → Bool
  is_swept t = not (starts_with (46 ∷ []) t.txn_id) && is_swept_read t.txn_id t.state

  -- counted as kept: protected, or not old enough
  abbrev is_counted_read : Text → StateRead → Bool
  is_counted_read id (parsed s) =
      if is_protected s.state
      then true
      else elim (end_time id s) [ none ↦ false | some ms ↦ ltb now (ms + max_age opts) ]
  is_counted_read id missing = false
  is_counted_read id unparseable = false

  abbrev is_counted : Txn → Bool
  is_counted t = not (starts_with (46 ∷ []) t.txn_id) && is_counted_read t.txn_id t.state

  abbrev pub sweep : List Txn → List Txn
  sweep [] = []
  sweep (t ∷ txns) =
      let rest = sweep txns in if not opts.dry_run && is_swept t then rest else t ∷ rest

  abbrev pub count_of : (Txn → Bool) → List Txn → ℕ
  count_of p [] = 0
  count_of p (t ∷ txns) = let n = count_of p txns in if p t then suc n else n

  abbrev pub is_recent : Option ℕ → Bool
  is_recent none = false
  is_recent (some last) = ltb now (last + prune_interval)

  unfoldable pub prune_journals : List Txn → Option ℕ → Pruned
  prune_journals txns last =
      if not opts.force && not opts.dry_run && is_recent last
      then record { txns = txns; last_prune = last; pruned = 0; kept = 0; is_throttled = true }
      else record {
        txns = sweep txns;
        last_prune = if opts.dry_run then last else some now;
        pruned = count_of is_swept txns;
        kept = count_of is_counted txns;
        is_throttled = false;
      }
