-- ===== src/Invoke/Once.antt =====
-- A request that has been handed on is not handed on again.
use liu_he.Base.{
  ℕ, ◌<◌, ◌≡◌, refl, sym, ap, subst, ◌∙◌, Bool, true, false, inl, inr, Option, some, Option-cases,
  List, All,
}
use liu_he.Base.Text.{Text, codes, ===_refl, is_missing}
use liu_he.Ledger.{Entry, request_unresolved, record_state, replay_outlet}
use liu_he.Ledger.Files.{File, read_json_object, ledger_lookup}
use liu_he.Ledger.Prune.{Update, merge_record, get_or_blank}
use liu_he.Ledger.Claims.{
  ClaimFiles, Claim, ClaimResult, claimed, in_flight, contended, claim_error, claim_held_live,
  ledger_claim, ledger_claim-IsFree,
}
use liu_he.Ledger.Kept.{IsNamed}
use liu_he.Ledger.Live.{ledger_record-live}
use liu_he.Invoke.{
  Delegated, outcome_of, Call, World, Loaded, ready, replayed, request_in_flight, Entered, stop,
  go_on, live_in, record_in, replay_in, prepared, enter_with, enter, finish, handle,
}
use liu_he.Invoke.Stated.{outcome_of-stated, record_state-given, own_claim-live, replay_outlet-some}

module _ (path_of : Text → Text) (legacy : Text → Option Entry) (others_live : Text → Bool)
    (running : ℕ → Bool) (now pid : ℕ) (time : Text) where
  -- what the ledger says of a request
  abbrev IsRecorded : World → Text → Text → Text → Type 0
  IsRecorded w id payload_hash state =
      (rec : Entry) × (ledger_lookup path_of legacy w.dir id ≡ some rec)
      × (rec.payload_hash ≡ payload_hash)
      × (record_state rec ≡ state)

  abbrev IsHeld : World → Type 0
  IsHeld w = (t : ℕ) × (w.claims.claim ≡ some (record { pid = pid; mtime = t }))

  lookup-read :
      (dir : List File) (id : Text) (rec : Entry)
      → is_missing id ≡ false
      → read_json_object (path_of id) dir ≡ some rec
      → ledger_lookup path_of legacy dir id ≡ some rec
  unfolding ledger_lookup
  lookup-read dir id rec m e = rw (m, e) refl

  record_in-IsRecorded :
      (call : Call) (w : World) (payload_hash state : Text) (tool : Option Text) (ok : Option Bool)
      (error_code : Option Text) (created : Text)
      → is_missing call.request_id ≡ false
      → is_missing state ≡ false
      → 0 < pid
      → running pid ≡ true
      → IsHeld w
      → All (IsNamed path_of others_live) w.dir
      → IsRecorded
          (record_in path_of legacy others_live running now pid time call w (record {
            request_id = call.request_id;
            tool = tool;
            payload_hash = some payload_hash;
            state = some state;
            ok = ok;
            error_code = error_code;
            created = created;
          }))
          call.request_id
          payload_hash
          state
  unfolding merge_record
  record_in-IsRecorded call w payload_hash state tool ok error_code created m stated p r (t, held)
        named =
      let u : Update = record {
        request_id = call.request_id;
        tool = tool;
        payload_hash = some payload_hash;
        state = some state;
        ok = ok;
        error_code = error_code;
        created = created;
      } in
      let live = live_in path_of legacy others_live running now pid time call w in
      let is_live : live call.request_id ≡ true = rw (===_refl call.request_id) (
        ap (λ (c : Option Claim). claim_held_live running now c) held
        ∙ own_claim-live running now pid t p r) in
      let old = get_or_blank (read_json_object (path_of call.request_id) w.dir) in
      let rec = merge_record old u time in
      (
        rec,
        lookup-read _ call.request_id rec m
            (ledger_record-live path_of live now time w.dir u m is_live named),
        refl,
        record_state-given rec stated,
      )

  final-IsRecorded :
      (call : Call) (w : World) (has_claim : Bool) (d : Delegated)
      → is_missing call.request_id ≡ false
      → 0 < pid
      → running pid ≡ true
      → IsHeld w
      → All (IsNamed path_of others_live) w.dir
      → IsRecorded
          (finish path_of legacy others_live running now pid time call w has_claim d).0
          call.request_id
          call.payload_hash
          (outcome_of d).state
  unfolding finish
  final-IsRecorded call w true d m p r held named =
      record_in-IsRecorded call w call.payload_hash (outcome_of d).state _ _ _ _ m
        (outcome_of-stated d) p r held named
  final-IsRecorded call w false d m p r held named =
      record_in-IsRecorded call w call.payload_hash (outcome_of d).state _ _ _ _ m
        (outcome_of-stated d) p r held named

  -- with the claim, and only with it, a call goes on
  enter_with-IsHeld :
      (call : Call) (w w' : World) (result : ClaimResult)
      → (result ≡ claimed → IsHeld w)
      → enter_with path_of legacy others_live running now pid time call w result ≡ (w', go_on true)
      → IsHeld w'
  enter_with-IsHeld call w w' claimed held e =
      elim (Option-cases (replay_in path_of legacy others_live running now pid time call w)) [
        | inl n ↦
            let (t, k) = held refl in
            let same : record_in path_of legacy others_live running now pid time call w
                  (prepared path_of legacy others_live running now pid time call)
                ≡ w' =
              ap (λ (x : World × Entered). x.0) (rw n at e) in
            (t, ap (λ (x : World). x.claims.claim) (sym same) ∙ k)
        | inr (reply, n) ↦
            let k : stop (replayed reply) ≡ go_on true =
              ap (λ (x : World × Entered). x.1) (rw n at e) in
            cc
      ]
  enter_with-IsHeld call w w' in_flight held e =
      let k : stop request_in_flight ≡ go_on true = ap (λ (x : World × Entered). x.1) e in cc
  enter_with-IsHeld call w w' contended held e =
      let k : stop request_in_flight ≡ go_on true = ap (λ (x : World × Entered). x.1) e in cc
  enter_with-IsHeld call w w' claim_error held e =
      let k : go_on false ≡ go_on true = ap (λ (x : World × Entered). x.1) e in cc

  enter-IsHeld :
      (call : Call) (w w' : World)
      → enter path_of legacy others_live running now pid time call w ≡ (w', go_on true)
      → IsHeld w'
  unfolding enter
  enter-IsHeld call w w' e =
      let got = ledger_claim running now pid w.claims in
      enter_with-IsHeld call (record w { claims = got.0 }) w' got.1
        (λ c. elim (ledger_claim-IsFree running now pid w.claims) [
          | inl (_, _, k) ↦ (now, k)
          | inr (k, _, _) ↦ absurd (k c)
        ])
        e

  enter_with-IsRecorded :
      (call : Call) (w w' : World) (result : ClaimResult)
      → is_missing call.request_id ≡ false
      → 0 < pid
      → running pid ≡ true
      → (result ≡ claimed → IsHeld w)
      → All (IsNamed path_of others_live) w.dir
      → enter_with path_of legacy others_live running now pid time call w result ≡ (w', go_on true)
      → IsRecorded w' call.request_id call.payload_hash (codes "prepared")
  enter_with-IsRecorded call w w' claimed m p r held named e =
      elim (Option-cases (replay_in path_of legacy others_live running now pid time call w)) [
        | inl n ↦
            let same : record_in path_of legacy others_live running now pid time call w
                  (prepared path_of legacy others_live running now pid time call)
                ≡ w' =
              ap (λ (x : World × Entered). x.0) (rw n at e) in
            subst (λ (x : World). IsRecorded x call.request_id call.payload_hash (codes "prepared"))
              same
              (record_in-IsRecorded call w call.payload_hash (codes "prepared") _ _ _ _ m refl p r
                (held refl) named)
        | inr (reply, n) ↦
            let k : stop (replayed reply) ≡ go_on true =
              ap (λ (x : World × Entered). x.1) (rw n at e) in
            cc
      ]
  enter_with-IsRecorded call w w' in_flight m p r held named e =
      let k : stop request_in_flight ≡ go_on true = ap (λ (x : World × Entered). x.1) e in cc
  enter_with-IsRecorded call w w' contended m p r held named e =
      let k : stop request_in_flight ≡ go_on true = ap (λ (x : World × Entered). x.1) e in cc
  enter_with-IsRecorded call w w' claim_error m p r held named e =
      let k : go_on false ≡ go_on true = ap (λ (x : World × Entered). x.1) e in cc

  -- When a call is about to be handed on under its claim, by a process that runs, a retry with the same
  -- payload is told that the request is prepared and unresolved, if the process then dies.
  pub enter-prepared :
      (call : Call) (w w' : World)
      → is_missing call.request_id ≡ false
      → 0 < pid
      → running pid ≡ true
      → All (IsNamed path_of others_live) w.dir
      → enter path_of legacy others_live running now pid time call w ≡ (w', go_on true)
      → replay_in path_of legacy others_live running now pid time call w'
        ≡ some (request_unresolved (codes "prepared"))
  unfolding enter replay_outlet
  enter-prepared call w w' m p r named e =
      let got = ledger_claim running now pid w.claims in
      let (rec, found, hash, state) =
        enter_with-IsRecorded call (record w { claims = got.0 }) w' got.1 m p r
          (λ c. elim (ledger_claim-IsFree running now pid w.claims) [
            | inl (_, _, k) ↦ (now, k)
            | inr (k, _, _) ↦ absurd (k c)
          ])
          named e in
      simp (found, hash, ===_refl call.payload_hash, state) refl

  recorded_stops :
      (retry : Call) (w : World) (id payload_hash state : Text) (l : Loaded)
      (loading around : World → World) (d : Delegated)
      → retry.request_id ≡ id
      → IsRecorded w id payload_hash state
      → let again =
          handle path_of legacy others_live running now pid time retry w l loading around d in
        (again.was_called ≡ false) × (again.world ≡ w)
  unfolding handle
  recorded_stops retry w id payload_hash state l loading around d same (rec, found, _, _) =
      elim (Option-cases (replay_in path_of legacy others_live running now pid time retry w)) [
        | inl n ↦
            let f : ledger_lookup path_of legacy w.dir retry.request_id ≡ some rec =
              ap (λ (x : Text). ledger_lookup path_of legacy w.dir x) same ∙ found in
            absurd (replay_outlet-some rec retry.payload_hash (rw f at n))
        | inr (reply, n) ↦ rw n (refl, refl)
      ]

  -- what a call that was handed on leaves behind
  handle-ended :
      (call : Call) (w w' : World) (loading around : World → World) (d : Delegated)
      → enter path_of legacy others_live running now pid time call (loading w) ≡ (w', go_on true)
      → (handle path_of legacy others_live running now pid time call w ready loading around
          d).was_called
        ≡ true
      → (handle path_of legacy others_live running now pid time call w ready loading around d).world
        ≡ (finish path_of legacy others_live running now pid time call (around w') true d).0
  unfolding handle
  handle-ended call w w' loading around d entered called =
      elim (Option-cases (replay_in path_of legacy others_live running now pid time call w)) [
        | inl n ↦ rw (n, entered) refl
        | inr (reply, n) ↦ let k : false ≡ true = rw n at called in cc
      ]

-- A call that was handed on under its claim, by a process that runs, leaves a record, whatever its
-- handler answered, if the processes around it left the claim alone and kept each record in the file of
-- its request. Every retry of the request then, at any time, by any process and with any payload, is
-- answered from the ledger without a further call, and changes nothing.
pub handle-once :
    (path_of : Text → Text) (legacy : Text → Option Entry) (others_live : Text → Bool)
    (running : ℕ → Bool) (now pid : ℕ) (time : Text) (call : Call) (w w' : World)
    (loading around : World → World) (d : Delegated)
    → is_missing call.request_id ≡ false
    → 0 < pid
    → running pid ≡ true
    → enter path_of legacy others_live running now pid time call (loading w) ≡ (w', go_on true)
    → (around w').claims ≡ w'.claims
    → All (IsNamed path_of others_live) (around w').dir
    → (handle path_of legacy others_live running now pid time call w ready loading around
        d).was_called
      ≡ true
    → (others_live' : Text → Bool) (running' : ℕ → Bool) (now' pid' : ℕ) (time' : Text)
      (retry : Call) (l : Loaded) (loading' around' : World → World) (d' : Delegated)
    → retry.request_id ≡ call.request_id
    → let after =
        (handle path_of legacy others_live running now pid time call w ready loading around
          d).world in
      let again =
        handle path_of legacy others_live' running' now' pid' time' retry after l loading' around'
          d' in
      (again.was_called ≡ false) × (again.world ≡ after)
handle-once path_of legacy others_live running now pid time call w w' loading around d m p r entered
      kept named called others_live' running' now' pid' time' retry l loading' around' d' same =
    let (t, held) =
      enter-IsHeld path_of legacy others_live running now pid time call (loading w) w' entered in
    let record_left =
      final-IsRecorded path_of legacy others_live running now pid time call (around w') true d m p r
        (t, ap (λ (c : ClaimFiles). c.claim) kept ∙ held) named in
    let ended =
      handle-ended path_of legacy others_live running now pid time call w w' loading around d
        entered called in
    subst
      (λ (after : World).
        let again =
          handle path_of legacy others_live' running' now' pid' time' retry after l loading' around'
            d' in
        (again.was_called ≡ false) × (again.world ≡ after))
      (sym ended)
      (recorded_stops path_of legacy others_live' running' now' pid' time' retry
        (finish path_of legacy others_live running now pid time call (around w') true d).0
        call.request_id call.payload_hash (outcome_of d).state l loading' around' d' same
        record_left)
