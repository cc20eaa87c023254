-- ===== src/Locks.antt =====
-- acquireLock of malong/write-runtime.js: the lock file beside a file, and the processes that want it. A
-- call waits, and other processes may come between any two of its calls of the file system. A lock file
-- has a number of its own, which is also the random token of its holder.
pub mod Exclusive
pub mod Stolen
use liu_he.Base.{ℕ, ◌+◌, ◌≡◌, Bool, true, false, ◌==◌, Option, none, some, ltb, suc, if◌then◌else◌}

-- `token` is none until it is written
pub record LockFile : Type 0 where
  pub number : ℕ
  pub token : Option ℕ
  pub mtime : ℕ

-- where a caller is: it wants the lock, has created the file, holds it, has found a file of somebody
-- else too old, or is about to remove its own
pub data Stand : Type 0 where
  idle : Stand
  waiting : Stand
  opened : ℕ → Stand
  holding : ℕ → Stand
  stealing : Stand
  releasing : ℕ → Stand

pub record Locks : Type 0 where
  pub now : ℕ
  pub lock : Option LockFile
  pub next : ℕ
  pub stands : ℕ → Stand

-- STALE_LOCK_MS
abbrev pub max_lock_age : ℕ
max_lock_age = 30000

abbrev pub put_stand : ℕ → Stand → (ℕ → Stand) → ℕ → Stand
put_stand p stand stands q = if q == p then stand else stands q

abbrev pub move : ℕ → Stand → Locks → Locks
move p stand s = record s { stands = put_stand p stand s.stands }

-- `openSync(lockPath, 'wx')`, which fails if there is a file
abbrev open_if : ℕ → Locks → Option LockFile → Locks
open_if p s (some f) = s
open_if p s none = record s {
  lock = some (record { number = s.next; token = none; mtime = s.now });
  next = suc s.next;
  stands = put_stand p (opened s.next) s.stands;
}

unfoldable pub open_lock : ℕ → Locks → Locks
open_lock p s = open_if p s s.lock

-- the token goes into the file that was opened, even if another one has its name by now
abbrev pub sign : ℕ → ℕ → Option LockFile → Option LockFile
sign n now none = none
sign n now (some f) =
    if f.number == n then some (record f { token = some n; mtime = now }) else some f

unfoldable pub write_token : ℕ → ℕ → Locks → Locks
write_token p n s = record s {
  lock = sign n s.now s.lock;
  stands = put_stand p (holding n) s.stands;
}

abbrev pub is_too_old : ℕ → Option LockFile → Bool
is_too_old now none = false
is_too_old now (some f) = ltb (f.mtime + max_lock_age) now

-- `statSync`: too old, or wait
unfoldable pub see_lock : ℕ → Locks → Locks
see_lock p s = if is_too_old s.now s.lock then move p stealing s else s

unfoldable pub unlink_stale : ℕ → Locks → Locks
unlink_stale p s = record s { lock = none; stands = put_stand p waiting s.stands }

abbrev pub has_token : ℕ → Option LockFile → Bool
has_token n none = false
has_token n (some f) = elim f.token [ none ↦ false | some t ↦ t == n ]

abbrev pub touch_file : ℕ → ℕ → Option LockFile → Option LockFile
touch_file n now none = none
touch_file n now (some f) = if has_token n (some f) then some (record f { mtime = now }) else some f

-- the timer of a holder; its reading of the file and its `utimesSync` are one step here
unfoldable pub touch_lock : ℕ → Locks → Locks
touch_lock n s = record s { lock = touch_file n s.now s.lock }

-- `release`: it reads the file, and removes it if it is its own
unfoldable pub read_token : ℕ → ℕ → Locks → Locks
read_token p n s = if has_token n s.lock then move p (releasing n) s else move p idle s

unfoldable pub unlink_lock : ℕ → Locks → Locks
unlink_lock p s = record s { lock = none; stands = put_stand p idle s.stands }

-- what can happen, one call of the file system at a time
pub data Step (s : Locks) : Locks → Type 0 where
  want : (p : ℕ) → s.stands p ≡ idle → Step s (move p waiting s)
  create : (p : ℕ) → s.stands p ≡ waiting → Step s (open_lock p s)
  write : (p n : ℕ) → s.stands p ≡ opened n → Step s (write_token p n s)
  look : (p : ℕ) → s.stands p ≡ waiting → Step s (see_lock p s)
  give_up : (p : ℕ) → s.stands p ≡ waiting → Step s (move p idle s)
  steal : (p : ℕ) → s.stands p ≡ stealing → Step s (unlink_stale p s)
  beat : (p n : ℕ) → s.stands p ≡ holding n → Step s (touch_lock n s)
  let_go : (p n : ℕ) → s.stands p ≡ holding n → Step s (read_token p n s)
  remove : (p n : ℕ) → s.stands p ≡ releasing n → Step s (unlink_lock p s)
  wait : Step s (record s { now = suc s.now })
