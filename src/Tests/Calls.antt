-- ===== src/Tests/Calls.antt =====
-- A call that is handed on once, and its retry.
use liu_he.Base.{ℕ, ◌≡◌, refl, ap, Bool, true, false, ◌==◌, Option, none, some, [], ◌∷◌, All, arith}
use liu_he.Base.Text.{Text, codes}
use liu_he.Ledger.{Entry, request_unresolved, replay_outlet}
use liu_he.Ledger.Files.{ledger_lookup, read_json_object, unlink}
use liu_he.Ledger.Prune.{ledger_record, merge_record, prune_records}
use liu_he.Ledger.Claims.{ledger_claim}
use liu_he.Ledger.Kept.{IsNamed}
use liu_he.Invoke.{
  Delegated, threw, answered, Call, World, ready, go_on, enter, handle, replay_in, outcome_of,
  classify_delegated_outcome,
}
use liu_he.Invoke.Once.{handle-once, enter-prepared}

abbrev as_is : Text → Text
as_is id = id

abbrev no_legacy : Text → Option Entry
no_legacy id = none

abbrev nobody : Text → Bool
nobody id = false

abbrev is_seven : ℕ → Bool
is_seven n = n == 7

abbrev rename_call : Call
rename_call = record { name = codes "rename"; request_id = codes "r1"; payload_hash = codes "h1" }

abbrev other_payload : Call
other_payload = record rename_call { payload_hash = codes "h2" }

abbrev empty_ledger : World
empty_ledger = record { dir = []; claims = record { claim = none; lock = none } }

abbrev prepared_entry : Entry
prepared_entry = record {
  request_id = codes "r1";
  tool = codes "rename";
  payload_hash = codes "h1";
  state = codes "prepared";
  ok = false;
  error_code = [];
  pruned = false;
  created = codes "t";
}

abbrev prepared_ledger : World
prepared_ledger = record {
  dir = record { name = codes "r1"; mtime = 5; content = some prepared_entry } ∷ [];
  claims = record { claim = some (record { pid = 7; mtime = 5 }); lock = none };
}

abbrev exit_one : Delegated
exit_one = answered (record {
  error = none;
  ok = none;
  success = none;
  status = none;
  exit_code = some 1;
  no_totals_parsed = false;
})

exit_code_fails : (outcome_of exit_one).error_code ≡ some (codes "exit_code:1")
unfolding outcome_of classify_delegated_outcome
exit_code_fails = refl

handed_on :
    enter as_is no_legacy nobody is_seven 5 7 (codes "t") rename_call empty_ledger
    ≡ (prepared_ledger, go_on true)
unfolding enter ledger_claim ledger_lookup replay_outlet ledger_record prune_records merge_record
    read_json_object unlink
handed_on = refl

prepared_ledger-IsNamed : All (IsNamed as_is nobody) prepared_ledger.dir
prepared_ledger-IsNamed =
    ((λ r e. let k : prepared_entry ≡ r = cc in ap (λ (z : Entry). z.request_id) k), tt)

was_handed_on :
    (handle as_is no_legacy nobody is_seven 5 7
      (codes "t")
      rename_call
      empty_ledger
      ready
      (λ w. w)
      (λ w. w)
      exit_one).was_called
    ≡ true
unfolding handle enter ledger_claim ledger_lookup replay_outlet ledger_record prune_records
    merge_record read_json_object unlink
was_handed_on = refl

handle-once_example :
    let after =
      (handle as_is no_legacy nobody is_seven 5 7
        (codes "t")
        rename_call
        empty_ledger
        ready
        (λ w. w)
        (λ w. w)
        exit_one).world in
    let again =
      handle as_is no_legacy nobody
        (λ n. true)
        9
        8
        (codes "u")
        other_payload
        after
        ready
        (λ w. w)
        (λ w. w)
        threw in
    (again.was_called ≡ false) × (again.world ≡ after)
handle-once_example =
    handle-once as_is no_legacy nobody is_seven 5 7 (codes "t") rename_call empty_ledger
      prepared_ledger (λ w. w) (λ w. w) exit_one refl (ground arith) refl handed_on refl
      prepared_ledger-IsNamed was_handed_on nobody (λ n. true) 9 8 (codes "u") other_payload ready
      (λ w. w) (λ w. w) threw refl

enter-prepared_example :
    replay_in as_is no_legacy nobody is_seven 5 7 (codes "t") rename_call prepared_ledger
    ≡ some (request_unresolved (codes "prepared"))
enter-prepared_example =
    enter-prepared as_is no_legacy nobody is_seven 5 7 (codes "t") rename_call empty_ledger
      prepared_ledger refl (ground arith) refl tt handed_on
