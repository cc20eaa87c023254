-- ===== src/Tests/Requests.antt =====
-- The theorems on the request ledger, at a ledger that has more records than it may keep.
use liu_he.Base.{
  ℕ, zero, suc, ◌+◌, ◌≤◌, ◌≡◌, ◌≢◌, ◌⊎◌, inr, refl, ap, Bool, true, false, Option, none, some, List,
  [], ◌∷◌, All, arith,
}
use liu_he.Base.Text.{Text, codes, ===_apart}
use liu_he.Ledger.{Entry, record_state, is_safe_evictable, replay_outlet}
use liu_he.Ledger.Files.{File, read_json_object, ledger_lookup, HasDistinctNames}
use liu_he.Ledger.Prune.{Update, ledger_record}
use liu_he.Ledger.Kept.{IsUnresolved, ledger_record-replay}
use liu_he.Ledger.Claims.{ClaimFiles, claimed, ledger_claim, IsFree, ledger_claim-IsFree}

-- a delegated call that threw
abbrev crashed : Entry
crashed = record {
  request_id = codes "r";
  tool = codes "t";
  payload_hash = codes "p";
  state = codes "failed";
  ok = false;
  error_code = codes "delegate_failed";
  pruned = false;
  created = codes "1";
}

abbrev succeeded_at : ℕ → Entry
succeeded_at n = record {
  request_id = n ∷ [];
  tool = codes "t";
  payload_hash = codes "p";
  state = codes "succeeded";
  ok = true;
  error_code = [];
  pruned = false;
  created = codes "2";
}

-- the crashed call is the oldest record, `n` others have succeeded after it
abbrev ledger : ℕ → List File
ledger zero = record { name = codes "r"; mtime = 0; content = some crashed } ∷ []
ledger (suc n) =
    record { name = (200 + n) ∷ []; mtime = suc n; content = some (succeeded_at (200 + n)) }
    ∷ ledger n

abbrev path_of : Text → Text
path_of id = id

abbrev nobody : Text → Bool
nobody id = false

abbrev no_legacy : Text → Option Entry
no_legacy id = none

head_of : Text → ℕ
head_of [] = 0
head_of (c ∷ s) = c

later_names : (m n : ℕ) → n ≤ m → All (λ (g : File). g.name ≢ (200 + m) ∷ []) (ledger n)
unfolding head_of
later_names m zero h = ((λ e. let k : 114 ≡ 200 + m = ap head_of e in omega arith), tt)
later_names m (suc n) h =
    (λ e. let k : 200 + n ≡ 200 + m = ap head_of e in omega arith, later_names m n (omega arith))

ledger-HasDistinctNames : (n : ℕ) → HasDistinctNames (ledger n)
ledger-HasDistinctNames zero = (tt, tt)
ledger-HasDistinctNames (suc n) = (later_names n n (omega arith), ledger-HasDistinctNames n)

own_names :
    (n : ℕ)
    → All
        (λ (f : File). (r : Entry) → f.content ≡ some r → f.name ≡ path_of r.request_id)
        (ledger n)
own_names zero = ((λ r e. let k : crashed ≡ r = cc in ap (λ (z : Entry). z.request_id) k), tt)
own_names (suc n) = (
  λ r e. let k : succeeded_at (200 + n) ≡ r = cc in ap (λ (z : Entry). z.request_id) k,
  own_names n,
)

abbrev started : Update
started = record {
  request_id = codes "new";
  tool = some (codes "t");
  payload_hash = some (codes "q");
  state = some (codes "prepared");
  ok = some false;
  error_code = none;
  created = codes "3";
}

crashed_is_read : read_json_object (path_of (codes "r")) (ledger 501) ≡ some crashed
unfolding read_json_object
crashed_is_read = refl

crashed-IsUnresolved : IsUnresolved crashed
unfolding record_state is_safe_evictable
crashed-IsUnresolved = record { unfinished = refl; protected = inr refl }

-- 502 records: the crashed one is compacted, and a retry of its request is still refused
ledger_record-replay_example :
    replay_outlet
      (ledger_lookup path_of no_legacy
        (ledger_record path_of nobody 600 (codes "4") (ledger 501) started)
        (codes "r"))
      (codes "p")
    ≡ replay_outlet (some crashed) (codes "p")
ledger_record-replay_example =
    ledger_record-replay path_of nobody no_legacy 600 (codes "4") (ledger 501) started (codes "r")
      (codes "p") crashed (λ a b e. e)
      (record { distinct = ledger-HasDistinctNames 501; named = own_names 501 }) crashed_is_read
      crashed-IsUnresolved (===_apart (codes "r") [] refl)
      (===_apart (codes "new") (codes "r") refl)

abbrev left_claim : ClaimFiles
left_claim = record { claim = some (record { pid = 7; mtime = 1 }); lock = none }

ledger_claim-IsFree_example :
    let (s', result) = ledger_claim (λ p. false) 50 9 left_claim in
    ((result ≡ claimed)
      × IsFree (λ p. false) 50 left_claim
      × (s'.claim ≡ some (record { pid = 9; mtime = 50 })))
    ⊎ ((result ≢ claimed) × (IsFree (λ p. false) 50 left_claim → ⊥) × (s'.claim ≡ left_claim.claim))
ledger_claim-IsFree_example = ledger_claim-IsFree (λ p. false) 50 9 left_claim
