-- ===== src/Invoke.antt =====
-- The call of a capability with side effects, with a request id and without a task, in
-- malong/tools/tool-invoke-capability/handler.js: the ledger is looked up, the request claimed, a record
-- prepared, the capability's own handler called, and its outcome recorded. What that handler answers, and
-- what other processes do in the meantime, are arguments.
pub mod Once
pub mod Stated
use liu_he.Base.{
  ℕ, ◌+◌, Bool, true, false, ◌&&◌, ◌||◌, not, Option, none, some, List, [], ◌∷◌, map, take, leb,
  ◌==◌, if◌then◌else◌,
}
use liu_he.Base.Text.{Text, codes, ◌===◌}
use liu_he.Attempts.{or_text, numbered}
use liu_he.Ledger.{Entry, Reply, replay_outlet}
use liu_he.Ledger.Files.{File, ledger_lookup}
use liu_he.Ledger.Prune.{Update, ledger_record}
use liu_he.Ledger.Claims.{
  ClaimFiles, ClaimResult, claimed, in_flight, contended, claim_error, ledger_claim, ledger_release,
  claim_held_live,
}

-- what a handler answers; a status that is no string is absent, and an exit code is not negative
pub record Answer : Type 0 where
  pub error : Option Text
  pub ok : Option Bool
  pub success : Option Bool
  pub status : Option Text
  pub exit_code : Option ℕ
  pub no_totals_parsed : Bool

pub data Delegated : Type 0 where
  threw : Delegated
  nothing : Delegated
  answered : Answer → Delegated

pub record Outcome : Type 0 where
  pub state : Text
  pub error_code : Option Text

abbrev is_no : Option Bool → Bool
is_no none = false
is_no (some b) = not b

abbrev is_yes : Option Bool → Bool
is_yes none = false
is_yes (some b) = b

abbrev is_failed_status : Option Text → Bool
is_failed_status none = false
is_failed_status (some s) = s === codes "fail" || s === codes "failed" || s === codes "error"

abbrev lower : ℕ → ℕ
lower c = if leb b'A' c && leb c b'Z' then c + 32 else c

-- a status that does not speak of a failure, in either case
abbrev is_good_status : Option Text → Bool
is_good_status none = false
is_good_status (some s) = not (is_failed_status (some (map lower s)))

abbrev has_error : Option Text → Bool
has_error none = false
has_error (some _) = true

abbrev text_of : Option Text → Text
text_of none = []
text_of (some s) = s

abbrev is_refused : Answer → Bool
is_refused a = has_error a.error || is_no a.ok || is_no a.success || is_failed_status a.status

abbrev of_exit_code : ℕ → Bool → Outcome
of_exit_code n no_totals =
    if not (n == 0)
    then record { state = codes "failed"; error_code = some (numbered (codes "exit_code:") n) }
    else if no_totals
    then record { state = codes "indeterminate"; error_code = some (codes "no_totals_parsed") }
    else record { state = codes "succeeded"; error_code = none }

abbrev of_flags : Answer → Outcome
of_flags a =
    if is_yes a.success || is_yes a.ok || is_good_status a.status
    then record { state = codes "succeeded"; error_code = none }
    else record { state = codes "indeterminate"; error_code = none }

abbrev of_exit_or_flags : Answer → Option ℕ → Outcome
of_exit_or_flags a (some n) = of_exit_code n a.no_totals_parsed
of_exit_or_flags a none = of_flags a

-- `classifyDelegatedOutcome` of an object
unfoldable pub classify_delegated_outcome : Answer → Outcome
classify_delegated_outcome a =
    if is_refused a
    then record {
      state = codes "failed";
      error_code = some (
          take 120
            (or_text (text_of a.error) (or_text (text_of a.status) (codes "operation_failed"))));
    }
    else of_exit_or_flags a a.exit_code

-- the outcome that is recorded; a call that threw has one, too
unfoldable pub outcome_of : Delegated → Outcome
outcome_of threw = record { state = codes "failed"; error_code = some (codes "delegate_failed") }
outcome_of nothing = record { state = codes "indeterminate"; error_code = none }
outcome_of (answered a) = classify_delegated_outcome a

pub record Call : Type 0 where
  pub name : Text
  pub request_id : Text
  pub payload_hash : Text

-- the records on disk, and the claim of this request
pub record World : Type 0 where
  pub dir : List File
  pub claims : ClaimFiles

-- what comes before the call: arguments that break the schema, a handler that cannot be loaded
pub data Loaded : Type 0 where
  invalid_input delegate_unavailable ready : Loaded

pub data InvokeReply : Type 0 where
  replayed : Reply → InvokeReply
  not_loaded : Loaded → InvokeReply
  request_in_flight : InvokeReply
  delegate_failed : InvokeReply
  completed : Outcome → InvokeReply

-- to stop with a reply, or to go on, with the claim or without
pub data Entered : Type 0 where
  stop : InvokeReply → Entered
  go_on : Bool → Entered

module _ (path_of : Text → Text) (legacy : Text → Option Entry) (others_live : Text → Bool)
    (running : ℕ → Bool) (now pid : ℕ) (time : Text) where
  -- is a request in flight? Of this one the claim decides.
  abbrev pub live_in : Call → World → Text → Bool
  live_in call w id =
      if id === call.request_id then claim_held_live running now w.claims.claim else others_live id

  abbrev pub record_in : Call → World → Update → World
  record_in call w u = record w { dir = ledger_record path_of (live_in call w) now time w.dir u }

  abbrev pub replay_in : Call → World → Option Reply
  replay_in call w =
      replay_outlet (ledger_lookup path_of legacy w.dir call.request_id) call.payload_hash

  abbrev pub prepared : Call → Update
  prepared call = record {
    request_id = call.request_id;
    tool = some call.name;
    payload_hash = some call.payload_hash;
    state = some (codes "prepared");
    ok = some false;
    error_code = none;
    created = time;
  }

  -- what comes first under the claim
  abbrev pub look_again : Call → World → Option Reply → World × Entered
  look_again call w (some reply) =
      (record w { claims = ledger_release w.claims }, stop (replayed reply))
  look_again call w none = (record_in call w (prepared call), go_on true)

  abbrev pub enter_with : Call → World → ClaimResult → World × Entered
  enter_with call w claimed = look_again call w (replay_in call w)
  enter_with call w in_flight = (w, stop request_in_flight)
  enter_with call w contended = (w, stop request_in_flight)
  enter_with call w claim_error = (record_in call w (prepared call), go_on false)

  unfoldable pub enter : Call → World → World × Entered
  enter call w =
      let (claims, result) = ledger_claim running now pid w.claims in
      enter_with call (record w { claims = claims }) result

  abbrev pub is_succeeded : Outcome → Bool
  is_succeeded o = o.state === codes "succeeded"

  abbrev pub final : Call → Delegated → Update
  final call d =
      let o = outcome_of d in
      record {
        request_id = call.request_id;
        tool = some call.name;
        payload_hash = some call.payload_hash;
        state = some o.state;
        ok = some (is_succeeded o);
        error_code = o.error_code;
        created = time;
      }

  abbrev pub release_if : Bool → World → World
  release_if true w = record w { claims = ledger_release w.claims }
  release_if false w = w

  abbrev pub reply_to : Delegated → InvokeReply
  reply_to threw = delegate_failed
  reply_to d = completed (outcome_of d)

  -- behind the call of the capability's handler
  unfoldable pub finish : Call → World → Bool → Delegated → World × InvokeReply
  finish call w has_claim d = (release_if has_claim (record_in call w (final call d)), reply_to d)

  -- the call as a whole: what the processes around it do to the ledger while the handler is loaded and
  -- while it runs, and whether it was called
  pub record Handled : Type 0 where
    pub world : World
    pub reply : InvokeReply
    pub was_called : Bool

  abbrev pub after_enter : Call → (World → World) → Delegated → World × Entered → Handled
  after_enter call around d (w, stop reply) = record {
    world = w;
    reply = reply;
    was_called = false;
  }
  after_enter call around d (w, go_on has_claim) =
      let (w', reply) = finish call (around w) has_claim d in
      record { world = w'; reply = reply; was_called = true }

  abbrev pub load : Call → World → Loaded → (World → World) → (World → World) → Delegated → Handled
  load call w ready loading around d = after_enter call around d (enter call (loading w))
  load call w l loading around d = record { world = w; reply = not_loaded l; was_called = false }

  abbrev pub after_lookup :
      Call → World → Option Reply → Loaded → (World → World) → (World → World) → Delegated → Handled
  after_lookup call w (some reply) l loading around d = record {
    world = w;
    reply = replayed reply;
    was_called = false;
  }
  after_lookup call w none l loading around d = load call w l loading around d

  unfoldable pub handle :
      Call → World → Loaded → (World → World) → (World → World) → Delegated → Handled
  handle call w l loading around d = after_lookup call w (replay_in call w) l loading around d
