-- ===== src/Semaphore/Holders.antt =====
-- The semaphore of malong/semaphore.js with the callers that hold its slots: each step is one call of
-- a method, a fired timer included. A caller releases the weight that it was given.
use liu_he.Base.{
  ℕ, ◌+◌, ◌-◌, ◌≤◌, ◌<◌, ◌≡◌, ◌↔◌, refl, ap, subst, true, List, [], ◌∷◌, ◌++◌, map, sum, sum-append,
  All, All-append, All-append_right, ◌⊎◌, inl, inr, Bool-cases, leb, ◌==◌, ◌&&◌, arith,
}
use liu_he.Semaphore.{
  Waiter, Semaphore, Acquire, acquired, timeout, acquire, settle, remove_item, on_timeout, release,
  reset, drain, new_waiter, is_empty,
}
use liu_he.Semaphore.Release.{weights, HeadBlocked, drain-DrainSpec}

-- the weights that callers hold now
pub record System : Type 0 where
  pub sem : Semaphore
  pub held : List ℕ

abbrev pub weight_of : Waiter → ℕ
weight_of w = w.weight

abbrev hold : Acquire → ℕ → List ℕ → List ℕ
hold acquired weight held = weight ∷ held
hold _ weight held = held

pub data Step : System → System → Type 0 where
  acquire_step :
      {y : System} (y₀ : System) (id weight timeout_ms now : ℕ)
      → 0 < weight
      → weight ≤ y₀.sem.max
      → y ≡ (record {
        sem = (acquire id weight timeout_ms now y₀.sem).0;
        held = hold (acquire id weight timeout_ms now y₀.sem).1 weight y₀.held;
      })
      → Step y₀ y
  timeout_step :
      {y : System} (y₀ : System) (id : ℕ) → y ≡ record y₀ { sem = on_timeout id y₀.sem } → Step y₀ y
  release_step :
      {y : System} (y₀ : System) (before after : List ℕ) (weight : ℕ)
      → y₀.held ≡ before ++ weight ∷ after
      → y ≡ (record {
        sem = (release weight y₀.sem).0;
        held = before ++ after ++ map weight_of (release weight y₀.sem).1;
      })
      → Step y₀ y

pub data Reach (y₀ : System) : System → Type 0 where
  here : Reach y₀ y₀
  next : {y z : System} → Reach y₀ y → Step y z → Reach y₀ z

abbrev pub Fits : ℕ → Waiter → Type 0
Fits max w = (0 < w.weight) × (w.weight ≤ max)

-- who waits can be served one day, and who waits sees a slot in use
pub record IsAccounted (y : System) : Type 0 where
  pub counted : y.sem.current ≡ sum y.held
  pub bounded : y.sem.current ≤ y.sem.max
  pub servable : All (Fits y.sem.max) y.sem.queue
  pub busy : (y.sem.queue ≡ []) ⊎ (0 < y.sem.current)

acquire-IsAccounted :
    (y : System) (id weight timeout_ms now : ℕ)
    → 0 < weight
    → weight ≤ y.sem.max
    → IsAccounted y
    → IsAccounted (record {
      sem = (acquire id weight timeout_ms now y.sem).0;
      held = hold (acquire id weight timeout_ms now y.sem).1 weight y.held;
    })
unfolding acquire
acquire-IsAccounted y id weight timeout_ms now pos fits h =
    elim (Bool-cases (leb (y.sem.current + weight) y.sem.max && is_empty y.sem.queue)) [
      | inl go ↦ rw go (record {
        counted = omega (arith, h.counted);
        bounded = ground arith;
        servable = h.servable;
        busy = inr (omega arith);
      })
      | inr wait ↦ rw wait (record {
        counted = h.counted;
        bounded = h.bounded;
        servable =
            All-append (Fits y.sem.max) y.sem.queue (new_waiter id weight timeout_ms now ∷ [])
              h.servable ((pos, fits), tt);
        busy = inr (ground arith);
      })
    ]

All-remove_item :
    (P : Waiter → Type 0) (id : ℕ) (q : List Waiter) → All P q → All P (remove_item id q)
unfolding remove_item
All-remove_item P id [] h = tt
All-remove_item P id (w ∷ q) h = elim (Bool-cases (w.id == id)) [
  | inl e ↦ rw e h.1
  | inr e ↦ rw e (h.0, All-remove_item P id q h.1)
]

timeout-IsAccounted :
    (y : System) (id : ℕ) → IsAccounted y → IsAccounted (record y { sem = on_timeout id y.sem })
unfolding on_timeout
timeout-IsAccounted y id h = record {
  counted = h.counted;
  bounded = h.bounded;
  servable = All-remove_item (Fits y.sem.max) id y.sem.queue h.servable;
  busy = elim h.busy [ inl e ↦ inl (rw e) | inr e ↦ inr e ];
}

sum-map-weight_of : (q : List Waiter) → sum (map weight_of q) ≡ weights q
sum-map-weight_of [] = refl
sum-map-weight_of (w ∷ q) = omega (arith, sum-map-weight_of q)

blocked_busy :
    (max current : ℕ) (q : List Waiter)
    → All (Fits max) q
    → HeadBlocked max current q
    → (q ≡ []) ⊎ (0 < current)
blocked_busy max current [] h b = inl refl
blocked_busy max current (w ∷ q) h b = inr (omega arith)

sum-released :
    (before after : List ℕ) (q : List Waiter)
    → sum (before ++ after ++ map weight_of q) ≡ sum before + sum after + weights q
sum-released before after q = omega (
  arith,
  sum-append (before ++ after) (map weight_of q),
  sum-append before after,
  sum-map-weight_of q,
)

pub release-IsAccounted :
    (y : System) (before after : List ℕ) (weight : ℕ)
    → y.held ≡ before ++ weight ∷ after
    → IsAccounted y
    → IsAccounted (record {
      sem = (release weight y.sem).0;
      held = before ++ after ++ map weight_of (release weight y.sem).1;
    })
unfolding release
release-IsAccounted y before after weight e h =
    let d = drain y.sem.max (y.sem.current - weight) y.sem.queue in
    let spec = drain-DrainSpec y.sem.max (y.sem.current - weight) y.sem.queue in
    let servable =
      All-append_right (Fits y.sem.max) d.served d.queue
        (subst (All (Fits y.sem.max)) spec.fifo h.servable) in
    record {
      counted = omega (
        arith,
        h.counted,
        spec.counted,
        ap sum e,
        sum-append before (weight ∷ after),
        sum-released before after d.served,
      );
      bounded = spec.bounded (omega (arith, h.bounded));
      servable = servable;
      busy = blocked_busy y.sem.max d.current d.queue servable spec.blocked;
    }

Step-IsAccounted : {y z : System} → Step y z → IsAccounted y → IsAccounted z
Step-IsAccounted (acquire_step y id weight timeout_ms now pos fits e) h =
    rw e (acquire-IsAccounted y id weight timeout_ms now pos fits h)
Step-IsAccounted (timeout_step y id e) h = rw e (timeout-IsAccounted y id h)
Step-IsAccounted (release_step y before after weight held e) h =
    rw e (release-IsAccounted y before after weight held h)

abbrev pub start : ℕ → System
start slots = record { sem = record { max = slots; current = 0; queue = [] }; held = [] }

-- If every acquire asks for at least one slot and for no more than there are, then however acquires,
-- releases and fired timers interleave, the count of used slots is the sum of the weights that callers
-- hold, never exceeds the slots, every waiter could be served by an idle semaphore, and the semaphore
-- is not idle while somebody waits.
pub Reach-IsAccounted : (slots : ℕ) {y : System} → Reach (start slots) y → IsAccounted y
Reach-IsAccounted slots here = record {
  counted = refl;
  bounded = omega arith;
  servable = tt;
  busy = inl refl;
}
Reach-IsAccounted slots (next r st) = Step-IsAccounted st (Reach-IsAccounted slots r)

-- The waiters that `reset` lets go on without a slot: `acquire` has answered them `acquired`.
abbrev pub passed : List Waiter → List ℕ
passed [] = []
passed (w ∷ q) = hold (settle w timeout) w.weight (passed q)

-- The watchdog's reset, as the callers see it.
abbrev pub reset_system : System → System
reset_system y =
    let (sem, resolved, _) = reset y.sem in record { sem = sem; held = passed resolved ++ y.held }

passed-timed :
    (q : List Waiter) → All (λ w. 0 < w.weight) q → sum (passed q) ≡ 0 → All (λ w. w.timer ≡ true) q
unfolding settle
passed-timed [] p e = tt
passed-timed (w ∷ q) p e = elim (Bool-cases w.timer) [
  | inl t ↦ (t, passed-timed q p.1 (rw t at e))
  | inr t ↦ let k : w.weight + sum (passed q) ≡ 0 = rw t at e in absurd (omega (arith, p.0, k))
]

timed-passed : (q : List Waiter) → All (λ w. w.timer ≡ true) q → sum (passed q) ≡ 0
unfolding settle
timed-passed [] h = refl
timed-passed (w ∷ q) h = rw (h.0) (timed-passed q h.1)

-- When every waiter asks for at least one slot, the count of used slots is right after a reset exactly
-- if no caller held a slot and every waiter in the queue had a timer: one without takes the reset for
-- a slot.
pub reset-IsAccounted_iff :
    (y : System)
    → All (λ w. 0 < w.weight) y.sem.queue
    → IsAccounted (reset_system y) ↔ ((sum y.held ≡ 0) × All (λ w. w.timer ≡ true) y.sem.queue)
unfolding reset
reset-IsAccounted_iff y positive =
    let total = sum-append (passed y.sem.queue) y.held in
    (
      λ h. (
        omega (arith, h.counted, total),
        passed-timed y.sem.queue positive (omega (arith, h.counted, total)),
      ),
      λ h. record {
        counted = omega (arith, h.0, timed-passed y.sem.queue h.1, total);
        bounded = omega arith;
        servable = tt;
        busy = inl refl;
      },
    )
