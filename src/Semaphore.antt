-- ===== src/Semaphore.antt =====
-- malong/semaphore.js: the queueing semaphore in front of the tool calls, FIFO with weights.
-- A method returns the new state beside what it resolves. A queued `item` carries a number for its
-- object identity. Weights and times are natural numbers, so `Math.max(0, a - b)` is `a - b`.
pub mod Release
pub mod Holders
pub mod Leaving
use liu_he.Base.{
  ℕ, ◌+◌, ◌-◌, ◌/◌, min, max, Bool, true, false, ◌&&◌, List, [], ◌∷◌, ◌++◌, map, length, leb, ltb,
  ◌==◌, if◌then◌else◌,
}

-- `timer` says whether the item has one, that is, whether `timeoutMs > 0`
pub record Waiter : Type 0 where
  pub id : ℕ
  pub weight : ℕ
  pub wait_time : ℕ
  pub timer : Bool

pub record Semaphore : Type 0 where
  pub max : ℕ
  pub current : ℕ
  pub queue : List Waiter

-- what a queued promise is resolved with
pub data Resolution : Type 0 where
  granted timeout : Resolution

-- what `acquire` answers at once, or when its promise is resolved
pub data Acquire : Type 0 where
  acquired timed_out waiting : Acquire

unfoldable pub heavy_tool_weight : ℕ → ℕ
heavy_tool_weight concurrency = min concurrency (max 3 (concurrency / 2))

abbrev pub is_empty : List Waiter → Bool
is_empty [] = true
is_empty (_ ∷ _) = false

-- the item that `acquire` queues
abbrev pub new_waiter : ℕ → ℕ → ℕ → ℕ → Waiter
new_waiter id weight timeout_ms now = record {
  id = id;
  weight = weight;
  wait_time = now;
  timer = ltb 0 timeout_ms;
}

unfoldable pub acquire : ℕ → ℕ → ℕ → ℕ → Semaphore → Semaphore × Acquire
acquire id weight timeout_ms now s =
    if leb (s.current + weight) s.max && is_empty s.queue
    then (record s { current = s.current + weight }, acquired)
    else (record s { queue = s.queue ++ new_waiter id weight timeout_ms now ∷ [] }, waiting)

-- `await promise`: only the path with a timer looks at what the promise was resolved with
unfoldable pub settle : Waiter → Resolution → Acquire
settle w granted = acquired
settle w timeout = if w.timer then timed_out else acquired

remove_item : ℕ → List Waiter → List Waiter
remove_item id [] = []
remove_item id (w ∷ q) = let rest = remove_item id q in if w.id == id then q else w ∷ rest

-- the timer's callback: `indexOf` and `splice`
unfoldable pub on_timeout : ℕ → Semaphore → Semaphore
unfolding remove_item
on_timeout id s = record s { queue = remove_item id s.queue }

pub record Drained : Type 0 where
  pub current : ℕ
  pub queue : List Waiter
  pub served : List Waiter

-- the `while` of `release`
unfoldable pub drain : ℕ → ℕ → List Waiter → Drained
drain max current [] = record { current = current; queue = []; served = [] }
drain max current (next ∷ q) =
    let rest = drain max (current + next.weight) q in
    if leb (current + next.weight) max
    then record rest { served = next ∷ rest.served }
    else record { current = current; queue = next ∷ q; served = [] }

unfoldable pub release : ℕ → Semaphore → Semaphore × List Waiter
release weight s =
    let d = drain s.max (s.current - weight) s.queue in
    (record s { current = d.current; queue = d.queue }, d.served)

pub record Status : Type 0 where
  pub current : ℕ
  pub max : ℕ
  pub queue : List (ℕ × ℕ)

unfoldable pub get_status : ℕ → Semaphore → Status
get_status now s = record {
  current = s.current;
  max = s.max;
  queue = map (λ q. (q.weight, now - q.wait_time)) s.queue;
}

-- the state, the waiters resolved with `timeout`, and the count that the watchdog logs
unfoldable pub reset : Semaphore → Semaphore × List Waiter × ℕ
reset s = (record s { queue = []; current = 0 }, s.queue, length s.queue)
