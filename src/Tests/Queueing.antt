-- ===== src/Tests/Queueing.antt =====
-- The theorems on the semaphore at a run: two slots are taken, a second caller waits.
use liu_he.Base.{In, All, true, arith, ◌≤◌, ◌<◌, ◌≡◌, ◌⊎◌, ◌↔◌, refl, true, [], ◌∷◌, sum, arith}
use liu_he.Semaphore.{Waiter, acquire, release, drain, heavy_tool_weight}
use liu_he.Semaphore.Release.{heavy_tool_weight_bounds}
use liu_he.Semaphore.Leaving.{releases, releases-first}
use liu_he.Semaphore.Holders.{
  System, Reach, here, next, acquire_step, IsAccounted, start, Reach-IsAccounted, reset_system,
  reset-IsAccounted_iff,
}

abbrev second : Waiter
second = record { id = 2; weight = 1; wait_time = 5; timer = true }

abbrev full : System
full = record { sem = record { max = 2; current = 2; queue = [] }; held = 2 ∷ [] }

abbrev busy : System
busy = record { sem = record { max = 2; current = 2; queue = second ∷ [] }; held = 2 ∷ [] }

run : Reach (start 2) busy
unfolding acquire
run =
    next (next here (acquire_step {y = full} (start 2) 1 2 60 0 (omega arith) (omega arith) refl))
      (acquire_step {y = busy} full 2 1 60 5 (omega arith) (omega arith) refl)

second_served : (release 2 busy.sem).1 ≡ second ∷ []
unfolding release drain
second_served = refl

heavy_tool_weight_bounds_example :
    (0 < heavy_tool_weight 5) × (heavy_tool_weight 5 ≤ 5) × ((5 ≤ 3) ⊎ (heavy_tool_weight 5 < 5))
heavy_tool_weight_bounds_example = heavy_tool_weight_bounds 5 (omega arith)

Reach-IsAccounted_example : IsAccounted busy
Reach-IsAccounted_example = Reach-IsAccounted 2 run

releases-first_example : In second (releases busy.held busy.sem)
releases-first_example = releases-first 2 second [] run refl

reset-IsAccounted_iff_example :
    IsAccounted (reset_system busy)
    ↔ ((sum busy.held ≡ 0) × All (λ w. w.timer ≡ true) busy.sem.queue)
reset-IsAccounted_iff_example = reset-IsAccounted_iff busy (omega arith, tt)
