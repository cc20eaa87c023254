-- ===== src/Invoke/Stated.antt =====
-- Every outcome of a call has a state, and a request whose record has one is answered.
use liu_he.Base.{
  ℕ, ◌<◌, ◌≡◌, ◌≢◌, refl, ap, Bool, true, false, Bool-cases, inl, inr, ◌||◌, ◌==◌, lt→ltb, Option,
  none, some,
}
use liu_he.Base.Text.{Text, codes, ◌===◌, is_missing}
use liu_he.Ledger.{
  Entry, request_conflict, deduplicated, request_unresolved, record_state, replay_outlet,
}
use liu_he.Ledger.Claims.{claim_held_live, is_holding, alive, claim_holder_state}
use liu_he.Invoke.{
  Answer, Delegated, threw, nothing, answered, outcome_of, classify_delegated_outcome, is_yes,
  is_good_status, of_exit_code, of_flags, of_exit_or_flags, is_refused,
}

exit-stated : (n : ℕ) (b : Bool) → is_missing (of_exit_code n b).state ≡ false
exit-stated n b = elim (Bool-cases (n == 0)) [
  | inl e ↦ elim (Bool-cases b) [ inl h ↦ rw (e, h) refl | inr h ↦ rw (e, h) refl ]
  | inr e ↦ rw e refl
]

flags-stated : (a : Answer) → is_missing (of_flags a).state ≡ false
flags-stated a = elim (Bool-cases (is_yes a.success || is_yes a.ok || is_good_status a.status)) [
  | inl e ↦ rw e refl
  | inr e ↦ rw e refl
]

exit_or_flags-stated : (a : Answer) (e : Option ℕ) → is_missing (of_exit_or_flags a e).state ≡ false
exit_or_flags-stated a none = flags-stated a
exit_or_flags-stated a (some n) = exit-stated n a.no_totals_parsed

pub outcome_of-stated : (d : Delegated) → is_missing (outcome_of d).state ≡ false
unfolding outcome_of classify_delegated_outcome
outcome_of-stated threw = refl
outcome_of-stated nothing = refl
outcome_of-stated (answered a) = elim (Bool-cases (is_refused a)) [
  | inl e ↦ rw e refl
  | inr e ↦ rw e (exit_or_flags-stated a a.exit_code)
]

-- a record under a state that is given says so
pub record_state-given : (rec : Entry) → is_missing rec.state ≡ false → record_state rec ≡ rec.state
unfolding record_state
record_state-given rec h = rw h refl

own_claim-alive :
    (running : ℕ → Bool) (now pid t : ℕ)
    → 0 < pid
    → running pid ≡ true
    → claim_holder_state running now (record { pid = pid; mtime = t }) ≡ alive
unfolding claim_holder_state
own_claim-alive running now pid t p r = rw (lt→ltb 0 pid p, r) refl

pub own_claim-live :
    (running : ℕ → Bool) (now pid t : ℕ)
    → 0 < pid
    → running pid ≡ true
    → claim_held_live running now (some (record { pid = pid; mtime = t })) ≡ true
unfolding claim_held_live
own_claim-live running now pid t p r = ap is_holding (own_claim-alive running now pid t p r)

pub replay_outlet-some :
    (rec : Entry) (payload_hash : Text) → replay_outlet (some rec) payload_hash ≢ none
unfolding replay_outlet
replay_outlet-some rec payload_hash h = elim (Bool-cases (rec.payload_hash === payload_hash)) [
  | inl e ↦ elim (Bool-cases (record_state rec === codes "succeeded")) [
    | inl f ↦ let k : some (deduplicated rec) ≡ none = rw (e, f) at h in cc
    | inr f ↦ let k : some (request_unresolved (record_state rec)) ≡ none = rw (e, f) at h in cc
  ]
  | inr e ↦ let k : some request_conflict ≡ none = rw e at h in cc
]
