-- ===== src/Ledger/Prune.antt =====
-- `pruneRecords` and `ledgerRecord`: recording a request, and the bounded retention of old records.
use liu_he.Base.{
  ℕ, suc, Bool, true, false, ◌&&◌, not, Option, none, some, List, [], ◌∷◌, length, leb, ltb,
  if◌then◌else◌,
}
use liu_he.Base.Text.{Text, is_missing}
use liu_he.Base.Sort.{sort_by}
use liu_he.Ledger.{Entry, record_state, is_safe_evictable}
use liu_he.Ledger.Files.{File, read_json_object, unlink, write_file}

abbrev pub max_entries : ℕ
max_entries = 500

-- what is kept of a request that may have been executed
abbrev pub placeholder : Entry → Entry
placeholder rec = record {
  request_id = rec.request_id;
  tool = rec.tool;
  payload_hash = rec.payload_hash;
  state = record_state rec;
  ok = false;
  error_code = [];
  pruned = true;
  created = rec.created;
}

-- the number of records kept so far, and the directory
pub record Progress : Type 0 where
  pub kept : ℕ
  pub dir : List File

-- from the newest record to the oldest
abbrev pub is_older : File → File → Bool
is_older f g = ltb f.mtime g.mtime

abbrev pub sort_by_age : List File → List File
sort_by_age dir = sort_by is_older dir

-- `path_of` names the file of a request, `live` is what `claim_held_live` of
-- Ledger/Claims says of its claim.
module _ (path_of : Text → Text) (live : Text → Bool) where
  unfoldable pub write_recovery_placeholder : ℕ → Entry → List File → List File
  write_recovery_placeholder now rec dir =
      if is_missing rec.request_id
      then dir
      else write_file (path_of rec.request_id) now (placeholder rec) dir

  unfoldable pub prune_record : ℕ → Text → Entry → ℕ → List File → Progress
  prune_record now name rec kept dir =
      if rec.pruned
      then record { kept = kept; dir = dir }
      else if not (is_missing rec.request_id) && live rec.request_id
      then record { kept = suc kept; dir = dir }
      else if ltb kept max_entries
      then record { kept = suc kept; dir = dir }
      else if is_safe_evictable rec
      then record { kept = kept; dir = unlink name dir }
      else record { kept = kept; dir = write_recovery_placeholder now rec dir }

  abbrev pub prune_entry : ℕ → File → ℕ → List File → Progress
  prune_entry now f kept dir = elim f.content [
    | none ↦ record { kept = kept; dir = unlink f.name dir }
    | some rec ↦ prune_record now f.name rec kept dir
  ]

  unfoldable pub prune_loop : ℕ → List File → ℕ → List File → List File
  prune_loop now [] kept dir = dir
  prune_loop now (f ∷ files) kept dir =
      let p = prune_entry now f kept dir in prune_loop now files p.kept p.dir

  unfoldable pub prune_records : ℕ → List File → List File
  prune_records now dir =
      if leb (length dir) max_entries then dir else prune_loop now (sort_by_age dir) 0 dir

abbrev pub text_or : Option Text → Text → Text
text_or none old = old
text_or (some s) old = s

-- the fields that a caller of `ledgerRecord` passes
pub record Update : Type 0 where
  pub request_id : Text
  pub tool : Option Text
  pub payload_hash : Option Text
  pub state : Option Text
  pub ok : Option Bool
  pub error_code : Option Text
  pub created : Text

abbrev pub blank : Entry
blank = record {
  request_id = [];
  tool = [];
  payload_hash = [];
  state = [];
  ok = false;
  error_code = [];
  pruned = false;
  created = [];
}

abbrev pub get_or_blank : Option Entry → Entry
get_or_blank none = blank
get_or_blank (some rec) = rec

-- `{ ...prev, ...record, created, updated }`, where the first time of creation stays
unfoldable pub merge_record : Entry → Update → Text → Entry
merge_record prev u time = record {
  request_id = u.request_id;
  tool = text_or u.tool prev.tool;
  payload_hash = text_or u.payload_hash prev.payload_hash;
  state = text_or u.state prev.state;
  ok = elim u.ok [ none ↦ prev.ok | some b ↦ b ];
  error_code = text_or u.error_code prev.error_code;
  pruned = prev.pruned;
  created =
      if not (is_missing prev.created)
      then prev.created
      else if not (is_missing u.created)
      then u.created
      else time;
}

-- `ledgerRecord` for a record with a request id, at the time `time`, which is `now` on the file system
unfoldable pub ledger_record :
    (Text → Text) → (Text → Bool) → ℕ → Text → List File → Update → List File
ledger_record path_of live now time dir u =
    let name = path_of u.request_id in
    let next = merge_record (get_or_blank (read_json_object name dir)) u time in
    prune_records path_of live now (write_file name now next dir)
