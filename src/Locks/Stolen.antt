-- ===== src/Locks/Stolen.antt =====
-- Two callers of acquireLock in malong/write-runtime.js that find a lock file too old can both get the lock.
use liu_he.Base.{ℕ, ◌≡◌, refl, sym, subst, ◌∙◌, inl, inr, ◌≢◌, true, ==_refl}
use liu_he.Locks.{
  Stand, waiting, opened, holding, stealing, Locks, put_stand, move, open_lock, write_token,
  is_too_old, see_lock, unlink_stale, Step, create, write, look, steal,
}
use liu_he.Locks.Exclusive.{number-cases}

pub data Run (start : Locks) : Locks → Type 0 where
  none_yet : Run start start
  then_step : {s s' : Locks} → Run start s → Step s s' → Run start s'

here_stands : (p : ℕ) (stand : Stand) (stands : ℕ → Stand) → put_stand p stand stands p ≡ stand
here_stands p stand stands = rw (==_refl p) refl

elsewhere_stands :
    (p q : ℕ) (stand : Stand) (stands : ℕ → Stand) → q ≢ p → put_stand p stand stands q ≡ stands q
elsewhere_stands p q stand stands h = elim (number-cases q p) [
  | inl k ↦ absurd (h k.1)
  | inr k ↦ rw k.0 refl
]

saw_old : (p : ℕ) (s : Locks) → is_too_old s.now s.lock ≡ true → see_lock p s ≡ move p stealing s
unfolding see_lock
saw_old p s e = rw e refl

-- One that has seen an old file removes what is there, creates its own and signs it.
abbrev take_over : ℕ → Locks → Locks
take_over p s = write_token p s.next (open_lock p (unlink_stale p s))

took_over :
    (start s : Locks) (p : ℕ) → Run start s → s.stands p ≡ stealing → Run start (take_over p s)
unfolding unlink_stale open_lock
took_over start s p r e =
    let s1 = unlink_stale p s in
    let r1 = then_step r (steal p e) in
    let r2 = then_step r1 (create p (here_stands p waiting s.stands)) in
    then_step r2 (write p s.next (here_stands p (opened s.next) s1.stands))

take_over-here : (p : ℕ) (s : Locks) → (take_over p s).stands p ≡ holding s.next
unfolding unlink_stale open_lock write_token
take_over-here p s = here_stands p (holding s.next) (open_lock p (unlink_stale p s)).stands

take_over-elsewhere : (p q : ℕ) (s : Locks) → q ≢ p → (take_over p s).stands q ≡ s.stands q
unfolding unlink_stale open_lock write_token
take_over-elsewhere p q s h =
    elsewhere_stands p q (holding s.next) (open_lock p (unlink_stale p s)).stands h
    ∙ elsewhere_stands p q (opened s.next) (unlink_stale p s).stands h
    ∙ elsewhere_stands p q waiting s.stands h

-- From every state in which two callers wait for a lock whose file is older than the limit, there
-- is a run, in the steps of acquireLock alone, at whose end both hold the lock.
pub two_holders :
    (s : Locks) (p q : ℕ)
    → p ≢ q
    → s.stands p ≡ waiting
    → s.stands q ≡ waiting
    → is_too_old s.now s.lock ≡ true
    → (s' : Locks) × Run s s'
      × ((n : ℕ) × (s'.stands p ≡ holding n))
      × ((m : ℕ) × (s'.stands q ≡ holding m))
two_holders s p q apart ep eq e =
    let s1 = move p stealing s in
    let s2 = move q stealing s1 in
    let r1 = subst (Run s) (saw_old p s e) (then_step none_yet (look p ep)) in
    let r2 =
      subst (Run s) (saw_old q s1 e) (
        then_step r1 (look q (elsewhere_stands p q stealing s.stands (λ k. apart (sym k)) ∙ eq))) in
    let r3 =
      took_over s s2 p r2
        (elsewhere_stands q p stealing s1.stands apart ∙ here_stands p stealing s.stands) in
    let s3 = take_over p s2 in
    let r4 =
      took_over s s3 q r3
        (take_over-elsewhere p q s2 (λ k. apart (sym k)) ∙ here_stands q stealing s1.stands) in
    (
      take_over q s3,
      r4,
      (s2.next, take_over-elsewhere q p s3 apart ∙ take_over-here p s2),
      (s3.next, take_over-here q s3),
    )
