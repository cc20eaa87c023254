-- ===== src/Semaphore/Leaving.antt =====
-- Who waits in the queue of malong/semaphore.js is served when those who hold its slots leave.
use liu_he.Base.{
  ℕ, ◌+◌, ◌-◌, ◌≡◌, ◌≢◌, refl, sym, ap, subst, In, In-append_right, List, [], ◌∷◌, ◌++◌, map, sum,
  All, ◌⊎◌, inl, inr, Bool-cases, leb, arith,
}
use mathlib.Core.List.{append-nil}
use liu_he.Semaphore.{Waiter, Semaphore, release, drain}
use liu_he.Semaphore.Holders.{
  Fits, System, Reach, start, IsAccounted, Reach-IsAccounted, release-IsAccounted, weight_of,
}

-- While somebody waits in a state that calls of admissible weight reach, a caller holds a slot.
pub waiter_sees_holder :
    (slots : ℕ) {y : System} (w : Waiter) (q : List Waiter)
    → Reach (start slots) y
    → y.sem.queue ≡ w ∷ q
    → y.held ≢ []
waiter_sees_holder slots w q r e idle =
    let h = Reach-IsAccounted slots r in ground (arith, h.counted, h.busy, ap sum idle)

-- Who is served while callers release these weights, one after the other.
abbrev pub releases : List ℕ → Semaphore → List Waiter
releases [] s = []
releases (weight ∷ held) s = (release weight s).1 ++ releases held (release weight s).0

-- a release serves the first waiter, or nobody, and then the queue stays
served-cases :
    (weight : ℕ) (s : Semaphore) (w : Waiter) (q : List Waiter)
    → s.queue ≡ w ∷ q
    → ((rest : List Waiter) × ((release weight s).1 ≡ w ∷ rest))
      ⊎ (((release weight s).1 ≡ []) × ((release weight s).0.queue ≡ w ∷ q))
unfolding release drain
served-cases weight s w q e = elim (Bool-cases (leb (s.current - weight + w.weight) s.max)) [
  | inl fits ↦ rw e (rw fits (inl ((drain s.max (s.current - weight + w.weight) q).served, refl)))
  | inr large ↦ rw e (rw large (inr (refl, refl)))
]

leavers-serve :
    (held : List ℕ) (s : Semaphore) (w : Waiter) (q : List Waiter)
    → IsAccounted (record { sem = s; held = held })
    → s.queue ≡ w ∷ q
    → In w (releases held s)
leavers-serve [] s w q h e = ground (arith, h.counted, h.busy, e)
leavers-serve (weight ∷ held) s w q h e =
    let next =
      release-IsAccounted (record { sem = s; held = weight ∷ held }) [] held weight refl h in
    elim (served-cases weight s w q e) [
      | inl (rest, k) ↦
          subst (λ l. In w (l ++ releases held (release weight s).0)) (sym k) (inl refl)
      | inr (none_served, k) ↦
          let after =
            subst
              (λ l.
                IsAccounted (record { sem = (release weight s).0; held = held ++ map weight_of l }))
              none_served next in
          In-append_right w (release weight s).1 (releases held (release weight s).0) (
            leavers-serve held (release weight s).0 w q
              (subst (λ l. IsAccounted (record { sem = (release weight s).0; held = l }))
                (append-nil held) after)
              k)
    ]

-- If every acquire asks for at least one slot and for no more than there are, then in every state that
-- is reached the first waiter is served by the time that all who hold slots have released them, in
-- their order and with nobody else in between.
pub releases-first :
    (slots : ℕ) {y : System} (w : Waiter) (q : List Waiter)
    → Reach (start slots) y
    → y.sem.queue ≡ w ∷ q
    → In w (releases y.held y.sem)
releases-first slots {y} w q r e = leavers-serve y.held y.sem w q (Reach-IsAccounted slots r) e

-- When the only caller left in a state that calls of admissible weight reach releases what it holds, the first waiter is served.
pub last_release_serves :
    (slots : ℕ) {y : System} (w : Waiter) (q : List Waiter) (weight : ℕ)
    → Reach (start slots) y
    → y.sem.queue ≡ w ∷ q
    → y.held ≡ weight ∷ []
    → (rest : List Waiter) × ((release weight y.sem).1 ≡ w ∷ rest)
unfolding release drain
last_release_serves slots {y} w q weight r e only =
    let h = Reach-IsAccounted slots r in
    let fits = subst (All (Fits y.sem.max)) e h.servable in
    (
      (drain y.sem.max (y.sem.current - weight + w.weight) q).served,
      ground (arith, h.counted, ap sum only, fits),
    )
