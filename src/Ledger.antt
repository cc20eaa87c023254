-- ===== src/Ledger.antt =====
-- The request ledger of malong/tools/outlet-ledger.js, in which side effects without a task leave a
-- record per request, and how malong/tools/tool-invoke-capability/handler.js answers a retry from it.
use liu_he.Base.{Bool, true, false, ◌&&◌, not, Option, none, some, if◌then◌else◌}
use liu_he.Base.Text.{Text, codes, ◌===◌, is_missing}
pub mod Files
pub mod Prune
pub mod Kept
pub mod Live
pub mod Claims

-- a record; an absent text is empty, and `ok` says whether the field is `true`
pub record Entry : Type 0 where
  pub request_id : Text
  pub tool : Text
  pub payload_hash : Text
  pub state : Text
  pub ok : Bool
  pub error_code : Text
  pub pruned : Bool
  pub created : Text

unfoldable pub record_state : Entry → Text
record_state rec =
    if not (is_missing rec.state)
    then rec.state
    else if rec.ok
    then codes "succeeded"
    else codes "indeterminate"

-- may the record be dropped, since its request is known to have ended?
unfoldable pub is_safe_evictable : Entry → Bool
is_safe_evictable rec =
    if record_state rec === codes "succeeded"
    then true
    else record_state rec === codes "failed" && not (rec.error_code === codes "delegate_failed")

pub data Reply : Type 0 where
  request_conflict : Reply
  deduplicated : Entry → Reply
  request_unresolved : Text → Reply

-- `replayOutlet`: no reply lets the call go on
unfoldable pub replay_outlet : Option Entry → Text → Option Reply
replay_outlet none payload_hash = none
replay_outlet (some hit) payload_hash =
    if not (hit.payload_hash === payload_hash)
    then some request_conflict
    else if record_state hit === codes "succeeded"
    then some (deduplicated hit)
    else some (request_unresolved (record_state hit))
