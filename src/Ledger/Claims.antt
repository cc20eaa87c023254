-- ===== src/Ledger/Claims.antt =====
-- `ledgerClaim` and `ledgerRelease` of malong/tools/outlet-ledger.js, for one request: the claim file,
-- which one process creates, and the lock of a process that takes over what a dead one has left.
-- `running` says whether a process lives. File operations that fail for other reasons are left out.
use liu_he.Base.{
  ℕ, ◌+◌, ◌-◌, ◌<◌, ◌≡◌, ◌≢◌, ◌⊎◌, inl, inr, refl, Bool, true, false, Bool-cases, Option, none,
  some, ltb, arith, if◌then◌else◌,
}

-- a damaged claim has no process id, which is 0 here
pub record Claim : Type 0 where
  pub pid : ℕ
  pub mtime : ℕ

pub record ClaimFiles : Type 0 where
  pub claim : Option Claim
  pub lock : Option ℕ

pub data Holder : Type 0 where
  alive dead fresh stale : Holder

pub data ClaimResult : Type 0 where
  claimed in_flight contended claim_error : ClaimResult

-- one minute, in milliseconds
abbrev pub stale_claim_ms : ℕ
stale_claim_ms = 60000

abbrev pub stale_lock_ms : ℕ
stale_lock_ms = 10000

abbrev pub is_holding : Holder → Bool
is_holding alive = true
is_holding fresh = true
is_holding _ = false

module _ (running : ℕ → Bool) (now : ℕ) where
  unfoldable pub claim_holder_state : Claim → Holder
  claim_holder_state c =
      if ltb 0 c.pid
      then (if running c.pid then alive else dead)
      else if ltb stale_claim_ms (now - c.mtime)
      then stale
      else fresh

  -- is the request in flight?
  unfoldable pub claim_held_live : Option Claim → Bool
  claim_held_live none = false
  claim_held_live (some c) = is_holding (claim_holder_state c)

  -- what is done under the lock, which is given back
  abbrev pub remove_held : Claim → Holder → ClaimFiles × Bool
  remove_held c alive = (record { claim = some c; lock = none }, false)
  remove_held c fresh = (record { claim = some c; lock = none }, false)
  remove_held c dead = (record { claim = none; lock = none }, true)
  remove_held c stale = (record { claim = none; lock = none }, true)

  abbrev pub remove_stale : Option Claim → ClaimFiles × Bool
  remove_stale none = (record { claim = none; lock = none }, false)
  remove_stale (some c) = remove_held c (claim_holder_state c)

  -- is the lock one that its process has left behind?
  abbrev pub is_left_behind : Option ℕ → Bool
  is_left_behind none = true
  is_left_behind (some m) = ltb stale_lock_ms (now - m)

  unfoldable pub take_over_stale_claim : ClaimFiles → ClaimFiles × Bool
  take_over_stale_claim s = if is_left_behind s.lock then remove_stale s.claim else (s, false)

  -- the claim is there: wait for its holder, or take it over and try once more
  abbrev pub claim_held :
      (ClaimFiles → ClaimFiles × ClaimResult) → ClaimFiles → Holder → ClaimFiles × ClaimResult
  claim_held again s alive = (s, in_flight)
  claim_held again s fresh = (s, in_flight)
  claim_held again s _ =
      let (s', taken) = take_over_stale_claim s in if taken then again s' else (s', contended)

  abbrev pub claim_at :
      ℕ
      → (ClaimFiles → ClaimFiles × ClaimResult)
      → ClaimFiles
      → Option Claim
      → ClaimFiles × ClaimResult
  claim_at pid again s none =
      (record s { claim = some (record { pid = pid; mtime = now }) }, claimed)
  claim_at pid again s (some c) = claim_held again s (claim_holder_state c)

  -- one round of `ledgerClaim`, and what follows it
  abbrev pub claim_round :
      ℕ → (ClaimFiles → ClaimFiles × ClaimResult) → ClaimFiles → ClaimFiles × ClaimResult
  claim_round pid again s = claim_at pid again s s.claim

  unfoldable pub ledger_claim : ℕ → ClaimFiles → ClaimFiles × ClaimResult
  ledger_claim pid s = claim_round pid (claim_round pid (λ t. (t, claim_error))) s

abbrev pub ledger_release : ClaimFiles → ClaimFiles
ledger_release s = record s { claim = none }

-- The process that the claim names has ended, or, of a claim that names none, more than a minute has
-- passed since it was written.
abbrev pub IsGone : (ℕ → Bool) → ℕ → Claim → Type 0
IsGone running now c =
    ((0 < c.pid) × (running c.pid ≡ false)) ⊎ ((c.pid ≡ 0) × (c.mtime + 60000 < now))

-- There is no lock, or it is more than ten seconds old.
abbrev pub IsUnlocked : ℕ → Option ℕ → Type 0
IsUnlocked now none = Unit
IsUnlocked now (some made) = made + 10000 < now

-- Nobody holds the claim, or who held it is gone and no other process is taking it over.
pub data IsFree (running : ℕ → Bool) (now : ℕ) : ClaimFiles → Type 0 where
  unclaimed : {l : Option ℕ} → IsFree running now (record { claim = none; lock = l })
  abandoned :
      {c : Claim} {l : Option ℕ}
      → IsGone running now c
      → IsUnlocked now l
      → IsFree running now (record { claim = some c; lock = l })

-- the holder's state says whether the holder is gone
data Judged (running : ℕ → Bool) (now : ℕ) (c : Claim) : Holder → Type 0 where
  dead_holder : IsGone running now c → Judged running now c dead
  stale_holder : IsGone running now c → Judged running now c stale
  live_holder : (IsGone running now c → ⊥) → Judged running now c alive
  fresh_holder : (IsGone running now c → ⊥) → Judged running now c fresh

holder-Judged :
    (running : ℕ → Bool) (now : ℕ) (c : Claim)
    → Judged running now c (claim_holder_state running now c)
unfolding claim_holder_state
holder-Judged running now c = elim (Bool-cases (ltb 0 c.pid)) [
  | inl named ↦ elim (Bool-cases (running c.pid)) [
    | inl e ↦ rw (named, e) (live_holder (λ g. elim g [ inl h ↦ cc | inr h ↦ ground arith ]))
    | inr e ↦ rw (named, e) (dead_holder (inl (ground arith, e)))
  ]
  | inr unnamed ↦ elim (Bool-cases (ltb stale_claim_ms (now - c.mtime))) [
    | inl e ↦ rw (unnamed, e) (stale_holder (inr (ground arith, ground arith)))
    | inr e ↦
        rw (unnamed, e) (fresh_holder (λ g. elim g [ inl h ↦ ground arith | inr h ↦ ground arith ]))
  ]
]

unlocked :
    (running : ℕ → Bool) (now : ℕ) (l : Option ℕ)
    → is_left_behind running now l ≡ true
    → IsUnlocked now l
unlocked running now none e = tt
unlocked running now (some made) e = ground arith

unlocked-left :
    (running : ℕ → Bool) (now : ℕ) (l : Option ℕ)
    → IsUnlocked now l
    → is_left_behind running now l ≡ true
unlocked-left running now none u = refl
unlocked-left running now (some made) u = ground arith

module _ (running : ℕ → Bool) (now pid : ℕ) where
  abbrev Outcome : Option Claim → Option ℕ → Type 0
  Outcome c l =
      let s : ClaimFiles = record { claim = c; lock = l } in
      let (s', result) = ledger_claim running now pid s in
      ((result ≡ claimed)
        × IsFree running now s
        × (s'.claim ≡ some (record { pid = pid; mtime = now })))
      ⊎ ((result ≢ claimed) × (IsFree running now s → ⊥) × (s'.claim ≡ c))

  free-parts :
      (c : Claim) (l : Option ℕ)
      → IsFree running now (record { claim = some c; lock = l })
      → IsGone running now c × IsUnlocked now l
  free-parts c l (abandoned g u) = (g, u)

  locked :
      (c : Claim) (l : Option ℕ)
      → is_left_behind running now l ≡ false
      → IsFree running now (record { claim = some c; lock = l })
      → ⊥
  locked c l h f = let k = unlocked-left running now l (free-parts c l f).1 in cc

  claim_by :
      (c : Claim) (l : Option ℕ) (h : Holder)
      → claim_holder_state running now c ≡ h
      → Judged running now c h
      → Outcome (some c) l
  unfolding ledger_claim take_over_stale_claim
  claim_by c l alive e (live_holder n) = rw e (inr ((λ k. cc), (λ f. n (free-parts c l f).0), refl))
  claim_by c l fresh e (fresh_holder n) =
      rw e (inr ((λ k. cc), (λ f. n (free-parts c l f).0), refl))
  claim_by c l dead e (dead_holder g) = elim (Bool-cases (is_left_behind running now l)) [
    | inl b ↦ rw e (rw b (rw e (inl (refl, abandoned g (unlocked running now l b), refl))))
    | inr b ↦ rw e (rw b (inr ((λ k. cc), locked c l b, refl)))
  ]
  claim_by c l stale e (stale_holder g) = elim (Bool-cases (is_left_behind running now l)) [
    | inl b ↦ rw e (rw b (rw e (inl (refl, abandoned g (unlocked running now l b), refl))))
    | inr b ↦ rw e (rw b (inr ((λ k. cc), locked c l b, refl)))
  ]

  claim-Outcome : (c : Option Claim) (l : Option ℕ) → Outcome c l
  unfolding ledger_claim
  claim-Outcome none l = inl (refl, unclaimed, refl)
  claim-Outcome (some c) l =
      claim_by c l (claim_holder_state running now c) refl (holder-Judged running now c)

-- A process gets the claim exactly if there is none, or the process that it names has ended, or it names
-- none and is more than a minute old, and in the last two cases no lock for a takeover is there that is
-- ten seconds old or less. It is then the claim's holder; otherwise the claim stays as it was.
pub ledger_claim-IsFree :
    (running : ℕ → Bool) (now pid : ℕ) (s : ClaimFiles)
    → let (s', result) = ledger_claim running now pid s in
      ((result ≡ claimed)
        × IsFree running now s
        × (s'.claim ≡ some (record { pid = pid; mtime = now })))
      ⊎ ((result ≢ claimed) × (IsFree running now s → ⊥) × (s'.claim ≡ s.claim))
ledger_claim-IsFree running now pid s = claim-Outcome running now pid s.claim s.lock
