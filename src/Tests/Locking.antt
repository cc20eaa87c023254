-- ===== src/Tests/Locking.antt =====
-- One caller gets a free lock; two find a lock that a dead process has left.
use liu_he.Base.{ℕ, ◌≡◌, refl, some, arith}
use liu_he.Locks.{Locks, waiting, holding, move, open_lock, want, create}
use liu_he.Locks.Exclusive.{no_locks, here, next, IsExclusive, Reach-IsExclusive}
use liu_he.Locks.Stolen.{Run, two_holders}

abbrev opened_locks : Locks
opened_locks = open_lock 1 (move 1 waiting (no_locks 0))

Reach-IsExclusive_example : IsExclusive opened_locks
Reach-IsExclusive_example =
    Reach-IsExclusive 0 opened_locks (next (next here refl (want 1 refl)) refl (create 1 refl))

-- a lock file that nobody has touched for a minute
abbrev left_behind : Locks
left_behind = record {
  now = 60000;
  lock = some (record { number = 0; token = some 0; mtime = 0 });
  next = 1;
  stands = λ p. waiting;
}

two_holders_example :
    (s' : Locks) × Run left_behind s'
    × ((n : ℕ) × (s'.stands 1 ≡ holding n))
    × ((m : ℕ) × (s'.stands 2 ≡ holding m))
two_holders_example = two_holders left_behind 1 2 (λ e. omega (arith, e)) refl refl refl
