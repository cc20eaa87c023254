-- ===== src/Semaphore/Release.antt =====
-- What `release` and `acquire` of malong/semaphore.js promise about the queue and the slots.
use liu_he.Base.{
  ℕ, ◌+◌, ◌-◌, ◌≤◌, ◌<◌, ◌≡◌, ◌⊎◌, refl, ap, List, [], ◌∷◌, ◌++◌, Bool-cases, inl, inr, leb, leb→le,
  arith,
}
use liu_he.Semaphore.{Waiter, Semaphore, Drained, drain, release, heavy_tool_weight}

abbrev pub weights : List Waiter → ℕ
weights [] = 0
weights (w ∷ q) = w.weight + weights q

-- the head of the queue does not fit beside what is in use
abbrev pub HeadBlocked : ℕ → ℕ → List Waiter → Type 0
HeadBlocked max current [] = Unit
HeadBlocked max current (w ∷ q) = max < current + w.weight

pub record DrainSpec (max current : ℕ) (q : List Waiter) (d : Drained) : Type 0 where
  pub fifo : q ≡ d.served ++ d.queue
  pub counted : d.current ≡ current + weights d.served
  pub bounded : current ≤ max → d.current ≤ max
  pub blocked : HeadBlocked max d.current d.queue

drain-served :
    (max current : ℕ) (w : Waiter) (q : List Waiter)
    → current + w.weight ≤ max
    → (d : Drained) → DrainSpec max (current + w.weight) q d
    → DrainSpec max current (w ∷ q) (record d { served = w ∷ d.served })
drain-served max current w q fits d h = record {
  fifo = ap (λ (l : List Waiter). w ∷ l) h.fifo;
  counted = omega (arith, h.counted);
  bounded = λ _. h.bounded fits;
  blocked = h.blocked;
}

pub drain-DrainSpec :
    (max current : ℕ) (q : List Waiter) → DrainSpec max current q (drain max current q)
unfolding drain
drain-DrainSpec max current [] = record {
  fifo = refl;
  counted = omega arith;
  bounded = λ h. h;
  blocked = tt;
}
drain-DrainSpec max current (w ∷ q) = elim (Bool-cases (leb (current + w.weight) max)) [
  | inl fits ↦ rw fits (
      drain-served max current w q (leb→le _ _ fits) (drain max (current + w.weight) q)
        (drain-DrainSpec max (current + w.weight) q))
  | inr full ↦
      rw full
        (record { fifo = refl; counted = omega arith; bounded = λ h. h; blocked = ground arith })
]

-- From a semaphore within its slots, a release hands the freed weight to a prefix of the queue in
-- order, books exactly the weights that it hands out, stays within the slots, and stops only where the
-- queue is empty or its head does not fit.
pub release_lem :
    (weight : ℕ) (s : Semaphore)
    → s.current ≤ s.max
    → let (s', served) = release weight s in
      (s.queue ≡ served ++ s'.queue)
      × (s'.current ≡ (s.current - weight) + weights served)
      × (s'.current ≤ s'.max)
      × HeadBlocked s'.max s'.current s'.queue
      × (s'.max ≡ s.max)
unfolding release
release_lem weight s b =
    let h = drain-DrainSpec s.max (s.current - weight) s.queue in
    (h.fifo, h.counted, h.bounded (omega arith), h.blocked, refl)

-- For a positive number of slots the weight of a heavy tool is positive and at most that number;
-- from four slots on it is less, so a light tool can run beside it.
pub heavy_tool_weight_bounds :
    (concurrency : ℕ)
    → 0 < concurrency
    → (0 < heavy_tool_weight concurrency)
      × (heavy_tool_weight concurrency ≤ concurrency)
      × ((concurrency ≤ 3) ⊎ (heavy_tool_weight concurrency < concurrency))
unfolding heavy_tool_weight
heavy_tool_weight_bounds concurrency h = omega arith
