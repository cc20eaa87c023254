-- ===== src/Ledger/Kept.antt =====
-- A record of a request that may have been executed survives the recording of other requests.
use liu_he.Base.{
  ℕ, ◌≡◌, ◌≢◌, ◌⊎◌, inl, inr, refl, sym, ap, subst, ◌∙◌, Bool, true, false, Bool-cases, not, ◌&&◌,
  Option, none, some, Option-cases, List, [], ◌∷◌, All, length, leb, ltb,
}
use liu_he.Base.Text.{Text, codes, ◌===◌, same-cases, is_missing, missing-cases}
use liu_he.Base.Sort.{sort_by-All}
use liu_he.Ledger.{Entry, record_state, is_safe_evictable, replay_outlet}
use liu_he.Ledger.Files.{
  File, read_json_object, unlink, write_file, ledger_lookup, read-unlink-other, read-write-other,
  read-write-same, unlink-All, HasDistinctNames, unlink-HasDistinctNames, unlink-gone,
}
use liu_he.Ledger.Prune.{
  placeholder, is_older, sort_by_age, write_recovery_placeholder, prune_record, prune_entry,
  prune_loop, prune_records, max_entries, Update, merge_record, get_or_blank, ledger_record,
}

-- The request did not succeed, and the record cannot be dropped.
pub record IsUnresolved (rec : Entry) : Type 0 where
  pub unfinished : (record_state rec === codes "succeeded") ≡ false
  pub protected : (rec.pruned ≡ true) ⊎ (is_safe_evictable rec ≡ false)

-- What a retry sees of a record is the same.
record IsTrace (rec r : Entry) : Type 0 where
  id_kept : r.request_id ≡ rec.request_id
  payload_kept : r.payload_hash ≡ rec.payload_hash
  state_kept : record_state r ≡ record_state rec
  protected : (r.pruned ≡ true) ⊎ (is_safe_evictable r ≡ false)

abbrev IsOnDisk : Text → Entry → List File → Type 0
IsOnDisk name rec dir = (r : Entry) × (read_json_object name dir ≡ some r) × IsTrace rec r

placeholder-state : (r : Entry) → record_state (placeholder r) ≡ record_state r
unfolding record_state
placeholder-state r = elim (missing-cases r.state) [
  | inl (m, e) ↦ elim (Bool-cases r.ok) [ inl o ↦ rw m (rw o refl) | inr o ↦ rw m (rw o refl) ]
  | inr (m, e) ↦ rw m (rw m refl)
]

placeholder-IsTrace : (rec r : Entry) → IsTrace rec r → IsTrace rec (placeholder r)
placeholder-IsTrace rec r t = record {
  id_kept = t.id_kept;
  payload_kept = t.payload_kept;
  state_kept = placeholder-state r ∙ t.state_kept;
  protected = inl refl;
}

replay-IsTrace :
    (rec r : Entry) (payload_hash : Text)
    → IsUnresolved rec
    → IsTrace rec r
    → replay_outlet (some r) payload_hash ≡ replay_outlet (some rec) payload_hash
unfolding replay_outlet
replay-IsTrace rec r payload_hash u t = simp (u.unfinished, t.payload_kept, t.state_kept) refl

module _ (path_of : Text → Text) (live : Text → Bool) where
  -- a readable file has the name of its request
  abbrev pub IsNamed : File → Type 0
  IsNamed f = (r : Entry) → f.content ≡ some r → f.name ≡ path_of r.request_id

  -- a file of this name has the record
  abbrev Holds : Text → Entry → File → Type 0
  Holds name rec f = f.name ≡ name → (r : Entry) × (f.content ≡ some r) × IsTrace rec r

  prune_unlink :
      (f : File) (r : Entry) (dir : List File) (name : Text) (rec : Entry)
      → f.content ≡ some r
      → r.pruned ≡ false
      → is_safe_evictable r ≡ true
      → Holds name rec f
      → IsOnDisk name rec dir
      → IsOnDisk name rec (unlink f.name dir)
  prune_unlink f r dir name rec c fresh evictable holds h = elim (same-cases f.name name) [
    | inl (e, same) ↦
        let (q, content, trace) = holds same in
        let k : q ≡ r = cc in
        absurd (elim trace.protected [
          | inl x ↦ let y : r.pruned ≡ true = sym (ap (λ (z : Entry). z.pruned) k) ∙ x in cc
          | inr x ↦ let y : is_safe_evictable r ≡ false = sym (ap is_safe_evictable k) ∙ x in cc
        ])
    | inr (e, apart) ↦ (h.0, read-unlink-other f.name name dir apart ∙ h.1, h.2)
  ]

  prune_placeholder :
      (now : ℕ) (f : File) (r : Entry) (dir : List File) (name : Text) (rec : Entry)
      → f.content ≡ some r
      → IsNamed f
      → Holds name rec f
      → IsOnDisk name rec dir
      → IsOnDisk name rec (write_file (path_of r.request_id) now (placeholder r) dir)
  prune_placeholder now f r dir name rec c named holds h =
      let path = named r c in
      elim (same-cases f.name name) [
        | inl (e, same) ↦
            let (q, content, trace) = holds same in
            let k : q ≡ r = cc in
            let t : IsTrace rec r = subst (λ (z : Entry). IsTrace rec z) k trace in
            let n : path_of r.request_id ≡ name = sym path ∙ same in
            (
              placeholder r,
              ap (λ (z : Text). read_json_object name (write_file z now (placeholder r) dir)) n
                  ∙ read-write-same name now (placeholder r) dir,
              placeholder-IsTrace rec r t,
            )
        | inr (e, apart) ↦ (
          h.0,
          read-write-other (path_of r.request_id) name now (placeholder r) dir
                (λ n. apart (path ∙ n))
              ∙ h.1,
          h.2,
        )
      ]

  prune_record-IsOnDisk :
      (now : ℕ) (f : File) (r : Entry) (kept : ℕ) (dir : List File) (name : Text) (rec : Entry)
      → f.content ≡ some r
      → IsNamed f
      → Holds name rec f
      → IsOnDisk name rec dir
      → IsOnDisk name rec (prune_record path_of live now f.name r kept dir).dir
  unfolding prune_record write_recovery_placeholder
  prune_record-IsOnDisk now f r kept dir name rec c named holds h = elim (Bool-cases r.pruned) [
    | inl p ↦ simp p h
    | inr p ↦ elim (Bool-cases (not (is_missing r.request_id) && live r.request_id)) [
      | inl l ↦ simp (p, l) h
      | inr l ↦ elim (Bool-cases (ltb kept max_entries)) [
        | inl k ↦ simp (p, l, k) h
        | inr k ↦ elim (Bool-cases (is_safe_evictable r)) [
          | inl e ↦ simp (p, l, k, e) (prune_unlink f r dir name rec c p e holds h)
          | inr e ↦ elim (Bool-cases (is_missing r.request_id)) [
            | inl m ↦ simp (p, m, k, e) h
            | inr m ↦
                let l' : live r.request_id ≡ false = rw m at l in
                simp (p, m, l', k, e) (prune_placeholder now f r dir name rec c named holds h)
          ]
        ]
      ]
    ]
  ]

  prune_entry-IsOnDisk :
      (now : ℕ) (f : File) (kept : ℕ) (dir : List File) (name : Text) (rec : Entry)
      → IsNamed f
      → Holds name rec f
      → IsOnDisk name rec dir
      → IsOnDisk name rec (prune_entry path_of live now f kept dir).dir
  prune_entry-IsOnDisk now f kept dir name rec named holds h = elim (Option-cases f.content) [
    | inl n ↦ rw n (
        (
          h.0,
          read-unlink-other f.name name dir (λ e.
                let (q, content, trace) = holds e in let k : none ≡ some q = sym n ∙ content in cc)
              ∙ h.1,
          h.2,
        ))
    | inr (r, c) ↦ rw c (prune_record-IsOnDisk now f r kept dir name rec c named holds h)
  ]

  prune_loop-IsOnDisk :
      (now : ℕ) (files : List File) (kept : ℕ) (dir : List File) (name : Text) (rec : Entry)
      → All IsNamed files
      → All (Holds name rec) files
      → IsOnDisk name rec dir
      → IsOnDisk name rec (prune_loop path_of live now files kept dir)
  unfolding prune_loop
  prune_loop-IsOnDisk now [] kept dir name rec named holds h = h
  prune_loop-IsOnDisk now (f ∷ files) kept dir name rec named holds h =
      let p = prune_entry path_of live now f kept dir in
      prune_loop-IsOnDisk now files p.kept p.dir name rec named.1 holds.1
        (prune_entry-IsOnDisk now f kept dir name rec named.0 holds.0 h)

  -- the files of one directory, each with the name of its request
  pub record IsLedger (dir : List File) : Type 0 where
    pub distinct : HasDistinctNames dir
    pub named : All IsNamed dir

  read-nowhere :
      (name : Text) (dir : List File)
      → All (λ (g : File). g.name ≢ name) dir
      → read_json_object name dir ≡ none
  unfolding read_json_object
  read-nowhere name [] h = refl
  read-nowhere name (f ∷ dir) h = elim (same-cases f.name name) [
    | inl (e, same) ↦ absurd (h.0 same)
    | inr (e, apart) ↦ rw e (read-nowhere name dir h.1)
  ]

  weaken-Holds :
      (name : Text) (rec : Entry) (dir : List File)
      → All (λ (g : File). g.name ≢ name) dir
      → All (Holds name rec) dir
  weaken-Holds name rec [] h = tt
  weaken-Holds name rec (f ∷ dir) h = (λ e. absurd (h.0 e), weaken-Holds name rec dir h.1)

  -- with distinct names, the file that is read is the only one of its name
  read-Holds :
      (name : Text) (rec : Entry) (dir : List File)
      → HasDistinctNames dir
      → IsOnDisk name rec dir
      → All (Holds name rec) dir
  unfolding read_json_object
  read-Holds name rec [] d h = tt
  read-Holds name rec (f ∷ dir) d h = elim (same-cases f.name name) [
    | inl (e, same) ↦
        let found : f.content ≡ some h.0 = rw e at h.1 in
        (
          λ k. (h.0, found, h.2),
          weaken-Holds name rec dir
              (subst (λ (n : Text). All (λ (g : File). g.name ≢ n) dir) same d.0),
        )
    | inr (e, apart) ↦ (λ k. absurd (apart k), read-Holds name rec dir d.1 (h.0, rw e at h.1, h.2))
  ]

  prune_records-IsOnDisk :
      (now : ℕ) (dir : List File) (name : Text) (rec : Entry)
      → IsLedger dir
      → IsOnDisk name rec dir
      → IsOnDisk name rec (prune_records path_of live now dir)
  unfolding prune_records
  prune_records-IsOnDisk now dir name rec w h = elim (Bool-cases (leb (length dir) max_entries)) [
    | inl e ↦ rw e h
    | inr e ↦ rw e (
        prune_loop-IsOnDisk now (sort_by_age dir) 0 dir name rec
          (sort_by-All is_older IsNamed dir w.named)
          (sort_by-All is_older (Holds name rec) dir (read-Holds name rec dir w.distinct h)) h)
  ]

  write-IsLedger :
      (now : ℕ) (rec : Entry) (dir : List File)
      → IsLedger dir
      → IsLedger (write_file (path_of rec.request_id) now rec dir)
  write-IsLedger now rec dir w = record {
    distinct = (
      unlink-gone (path_of rec.request_id) dir,
      unlink-HasDistinctNames (path_of rec.request_id) dir w.distinct,
    );
    named = (
      λ r e. let k : rec ≡ r = cc in ap (λ (z : Entry). path_of z.request_id) k,
      unlink-All IsNamed (path_of rec.request_id) dir w.named,
    );
  }

  ledger_record-IsOnDisk :
      (now : ℕ) (time : Text) (dir : List File) (u : Update) (name : Text) (rec : Entry)
      → IsLedger dir
      → path_of u.request_id ≢ name
      → IsOnDisk name rec dir
      → IsOnDisk name rec (ledger_record path_of live now time dir u)
  unfolding ledger_record merge_record
  ledger_record-IsOnDisk now time dir u name rec w other h =
      let path = path_of u.request_id in
      let next = merge_record (get_or_blank (read_json_object path dir)) u time in
      prune_records-IsOnDisk now (write_file path now next dir) name rec
        (write-IsLedger now next dir w)
        (h.0, read-write-other path name now next dir other ∙ h.1, h.2)

  -- what a retry is told of a record in the ledger
  lookup-replay :
      (legacy : Text → Option Entry) (dir : List File) (id payload_hash : Text) (rec : Entry)
      → id ≢ []
      → IsUnresolved rec
      → IsOnDisk (path_of id) rec dir
      → replay_outlet (ledger_lookup path_of legacy dir id) payload_hash
        ≡ replay_outlet (some rec) payload_hash
  unfolding ledger_lookup
  lookup-replay legacy dir id payload_hash rec named u (r, e, t) = elim (missing-cases id) [
    | inl (m, k) ↦ absurd (named k)
    | inr (m, k) ↦ rw m (rw e (replay-IsTrace rec r payload_hash u t))
  ]

  -- Recording a request, with all the pruning that comes with it, does not change what a retry of another
  -- request is told whose record is there and says that it may have been executed without success.
  pub ledger_record-replay :
      (legacy : Text → Option Entry) (now : ℕ) (time : Text) (dir : List File) (u : Update)
      (id payload_hash : Text) (rec : Entry)
      → ((a b : Text) → path_of a ≡ path_of b → a ≡ b)
      → IsLedger dir
      → read_json_object (path_of id) dir ≡ some rec
      → IsUnresolved rec
      → id ≢ []
      → u.request_id ≢ id
      → replay_outlet
          (ledger_lookup path_of legacy (ledger_record path_of live now time dir u) id)
          payload_hash
        ≡ replay_outlet (some rec) payload_hash
  ledger_record-replay legacy now time dir u id payload_hash rec inj w found pending named other =
      let trace : IsTrace rec rec = record {
        id_kept = refl;
        payload_kept = refl;
        state_kept = refl;
        protected = pending.protected;
      } in
      lookup-replay legacy (ledger_record path_of live now time dir u) id payload_hash rec named
        pending
        (ledger_record-IsOnDisk now time dir u (path_of id) rec w
          (λ e. other (inj u.request_id id e)) (rec, found, trace))
