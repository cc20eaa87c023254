-- ===== src/Locks/Exclusive.antt =====
-- Two callers of acquireLock in malong/write-runtime.js do not hold one lock, as long as no lock file gets
-- old.
use liu_he.Base.{
  ℕ, suc, ◌≡◌, refl, sym, ap, subst, ◌∙◌, ◌⊎◌, inl, inr, ◌≢◌, Bool, true, false, Bool-cases, ◌==◌,
  ==_iff, Option, none, some,
}
use mathlib.Core.Bool.{true≢false}
use liu_he.Locks.{
  LockFile, Stand, idle, waiting, opened, holding, stealing, releasing, Locks, put_stand, open_if,
  open_lock, sign, write_token, is_too_old, see_lock, unlink_stale, has_token, touch_file,
  touch_lock, read_token, unlink_lock, Step, want, create, write, look, give_up, steal, beat,
  let_go, remove, wait,
}

pub number-cases : (q p : ℕ) → (((q == p) ≡ true) × (q ≡ p)) ⊎ (((q == p) ≡ false) × (q ≢ p))
number-cases q p = elim (Bool-cases (q == p)) [
  | inl e ↦ inl (e, (==_iff q p).0 e)
  | inr e ↦ inr (e, λ same. let k = (==_iff q p).1 same in cc)
]

-- the file that a caller has created and may still hold
abbrev pub own_file : Stand → Option ℕ
own_file idle = none
own_file waiting = none
own_file (opened n) = some n
own_file (holding n) = some n
own_file stealing = none
own_file (releasing n) = some n

abbrev is_thief : Stand → Bool
is_thief stealing = true
is_thief idle = false
is_thief waiting = false
is_thief (opened n) = false
is_thief (holding n) = false
is_thief (releasing n) = false

abbrev number_of : Option LockFile → Option ℕ
number_of none = none
number_of (some f) = some f.number

-- Who has created the lock file and not removed it is the only one, and the file is there.
pub record IsExclusive (s : Locks) : Type 0 where
  pub owned : (p n : ℕ) → own_file (s.stands p) ≡ some n → number_of s.lock ≡ some n
  pub alone :
      (p q n m : ℕ) → own_file (s.stands p) ≡ some n → own_file (s.stands q) ≡ some m → p ≡ q
  pub honest : (p : ℕ) → is_thief (s.stands p) ≡ false

-- nobody has the lock
abbrev pub no_locks : ℕ → Locks
no_locks now = record { now = now; lock = none; next = 0; stands = λ p. idle }

-- The runs in which no lock file gets old.
pub data Reach (start : Locks) : Locks → Type 0 where
  here : Reach start start
  next :
      {s s' : Locks} → Reach start s → is_too_old s.now s.lock ≡ false → Step s s' → Reach start s'

put_stand-own :
    (p n : ℕ) (stand : Stand) (stands : ℕ → Stand)
    → ((n : ℕ) → own_file stand ≡ some n → own_file (stands p) ≡ some n)
    → (q : ℕ) → own_file (put_stand p stand stands q) ≡ some n
    → own_file (stands q) ≡ some n
put_stand-own p n stand stands keep q h = elim (number-cases q p) [
  | inl e ↦ subst (λ r. own_file (stands r) ≡ some n) (sym e.1) (keep n (rw e.0 at h))
  | inr e ↦ rw e.0 at h
]

-- A caller that moves on without a new file leaves the lock as exclusive as it was.
moved-IsExclusive :
    (s : Locks) (p : ℕ) (stand : Stand) (lock : Option LockFile)
    → is_thief stand ≡ false
    → ((n : ℕ) → own_file stand ≡ some n → own_file (s.stands p) ≡ some n)
    → number_of lock ≡ number_of s.lock
    → IsExclusive s
    → IsExclusive (record s { lock = lock; stands = put_stand p stand s.stands })
moved-IsExclusive s p stand lock e keep same h = record {
  owned = λ q n o. same ∙ h.owned q n (put_stand-own p n stand s.stands keep q o);
  alone = λ q r n m o o'.
      h.alone q r n m (put_stand-own p n stand s.stands keep q o)
        (put_stand-own p m stand s.stands keep r o');
  honest = λ q. elim (number-cases q p) [ inl k ↦ rw k.0 e | inr k ↦ rw k.0 (h.honest q) ];
}

relocked-IsExclusive :
    (s : Locks) (lock : Option LockFile) (now : ℕ)
    → number_of lock ≡ number_of s.lock
    → IsExclusive s
    → IsExclusive (record s { lock = lock; now = now })
relocked-IsExclusive s lock now same h = record {
  owned = λ q n o. same ∙ h.owned q n o;
  alone = λ q r n m o o'. h.alone q r n m o o';
  honest = λ q. h.honest q;
}

number_of-sign : (n now : ℕ) (lock : Option LockFile) → number_of (sign n now lock) ≡ number_of lock
number_of-sign n now none = refl
number_of-sign n now (some f) = elim (Bool-cases (f.number == n)) [
  | inl e ↦ rw e refl
  | inr e ↦ rw e refl
]

number_of-touch :
    (n now : ℕ) (lock : Option LockFile) → number_of (touch_file n now lock) ≡ number_of lock
number_of-touch n now none = refl
number_of-touch n now (some f) = elim (Bool-cases (has_token n (some f))) [
  | inl e ↦ rw e refl
  | inr e ↦ rw e refl
]

none-some : (n : ℕ) → none ≢ some n
none-some n e = cc

-- the locks when a caller has created the file
abbrev created_by : ℕ → Locks → Locks
created_by p s = open_if p s none

only_creator :
    (s : Locks) (p : ℕ)
    → s.lock ≡ none
    → IsExclusive s
    → (q n : ℕ) → own_file (put_stand p (opened s.next) s.stands q) ≡ some n
    → (q ≡ p) × (some s.next ≡ some n)
only_creator s p e h q n o = elim (number-cases q p) [
  | inl k ↦ (k.1, rw k.0 at o)
  | inr k ↦ absurd (none-some _ (ap number_of (sym e) ∙ h.owned q n (rw k.0 at o)))
]

created_by-IsExclusive :
    (s : Locks) (p : ℕ) → s.lock ≡ none → IsExclusive s → IsExclusive (created_by p s)
created_by-IsExclusive s p e h = record {
  owned = λ q n o. (only_creator s p e h q n o).1;
  alone = λ q r n m o o'. (only_creator s p e h q n o).0 ∙ sym (only_creator s p e h r m o').0;
  honest = λ q. elim (number-cases q p) [ inl k ↦ rw k.0 refl | inr k ↦ rw k.0 (h.honest q) ];
}

open_if-IsExclusive :
    (s : Locks) (p : ℕ) (lock : Option LockFile)
    → s.lock ≡ lock
    → IsExclusive s
    → IsExclusive (open_if p s lock)
open_if-IsExclusive s p none e h = created_by-IsExclusive s p e h
open_if-IsExclusive s p (some f) e h = h

nobody_else :
    (s : Locks) (p n : ℕ)
    → own_file (s.stands p) ≡ some n
    → IsExclusive s
    → (q m : ℕ) → own_file (put_stand p idle s.stands q) ≢ some m
nobody_else s p n o h q m k = elim (number-cases q p) [
  | inl e ↦ none-some m (rw e.0 at k)
  | inr e ↦ e.1 (h.alone q p m n (rw e.0 at k) o)
]

-- The only one who may hold it goes.
gone-IsExclusive :
    (s : Locks) (p n : ℕ)
    → own_file (s.stands p) ≡ some n
    → IsExclusive s
    → IsExclusive (record s { lock = none; stands = put_stand p idle s.stands })
gone-IsExclusive s p n o h =
    let nobody = λ (q m : ℕ) (k : own_file (put_stand p idle s.stands q) ≡ some m).
      nobody_else s p n o h q m k in
    record {
      owned = λ q m k. absurd (nobody q m k);
      alone = λ q r m l k k'. absurd (nobody q m k);
      honest = λ q. elim (number-cases q p) [ inl k ↦ rw k.0 refl | inr k ↦ rw k.0 (h.honest q) ];
    }

Step-IsExclusive :
    {s s' : Locks} → is_too_old s.now s.lock ≡ false → Step s s' → IsExclusive s → IsExclusive s'
unfolding open_lock write_token see_lock unlink_stale touch_lock read_token unlink_lock
Step-IsExclusive {s} fresh (want p e) h =
    moved-IsExclusive s p waiting s.lock refl (λ n o. cc) refl h
Step-IsExclusive {s} fresh (create p e) h = open_if-IsExclusive s p s.lock refl h
Step-IsExclusive {s} fresh (write p n e) h =
    moved-IsExclusive s p (holding n) (sign n s.now s.lock) refl (λ m o. ap own_file e ∙ o)
      (number_of-sign n s.now s.lock) h
Step-IsExclusive {s} fresh (look p e) h = rw fresh h
Step-IsExclusive {s} fresh (give_up p e) h =
    moved-IsExclusive s p idle s.lock refl (λ n o. cc) refl h
Step-IsExclusive {s} fresh (steal p e) h = absurd (true≢false (sym (ap is_thief e) ∙ h.honest p))
Step-IsExclusive {s} fresh (beat p n e) h =
    relocked-IsExclusive s (touch_file n s.now s.lock) s.now (number_of-touch n s.now s.lock) h
Step-IsExclusive {s} fresh (let_go p n e) h = elim (Bool-cases (has_token n s.lock)) [
  | inl k ↦ rw k (moved-IsExclusive s p (releasing n) s.lock refl (λ m o. ap own_file e ∙ o) refl h)
  | inr k ↦ rw k (moved-IsExclusive s p idle s.lock refl (λ m o. cc) refl h)
]
Step-IsExclusive {s} fresh (remove p n e) h = gone-IsExclusive s p n (ap own_file e) h
Step-IsExclusive {s} fresh wait h = relocked-IsExclusive s s.lock (suc s.now) refl h

-- However the callers of acquireLock interleave, one call of the file system at a time, in a run
-- that begins without a lock file and in which no lock file gets older than the limit, at most one
-- caller has created the lock file and not yet given it up, and the file that is there is that
-- caller's.
pub Reach-IsExclusive : (now : ℕ) (s : Locks) → Reach (no_locks now) s → IsExclusive s
Reach-IsExclusive now s here = record {
  owned = λ p n o. cc;
  alone = λ p q n m o o'. cc;
  honest = λ p. refl;
}
Reach-IsExclusive now s' (next r fresh step) =
    Step-IsExclusive fresh step (Reach-IsExclusive now _ r)
