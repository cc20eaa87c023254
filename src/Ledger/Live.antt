-- ===== src/Ledger/Live.antt =====
-- The record of a request whose claim is held is not pruned when it is written.
use liu_he.Base.{
  ℕ, ◌≡◌, ◌≢◌, refl, sym, ap, ◌∙◌, Bool, true, false, Bool-cases, inl, inr, not, ◌&&◌, none, some,
  Option-cases, List, [], ◌∷◌, All, length, leb, ltb,
}
use liu_he.Base.Text.{Text, same-cases, is_missing}
use liu_he.Base.Sort.{sort_by-All}
use liu_he.Ledger.{Entry, is_safe_evictable}
use liu_he.Ledger.Files.{
  File, read_json_object, unlink, write_file, read-unlink-other, read-write-other, read-write-same,
  unlink-All, unlink-gone,
}
use liu_he.Ledger.Prune.{
  placeholder, is_older, sort_by_age, write_recovery_placeholder, prune_record, prune_entry,
  prune_loop, prune_records, max_entries, Update, merge_record, get_or_blank, ledger_record,
}
use liu_he.Ledger.Kept.{IsNamed}

-- a file of this name has exactly this record
abbrev HasRecord : Text → Entry → File → Type 0
HasRecord name rec f = f.name ≡ name → f.content ≡ some rec

module _ (path_of : Text → Text) (live : Text → Bool) (name : Text) (rec : Entry) where
  prune_other :
      (now : ℕ) (f : File) (r : Entry) (kept : ℕ) (dir : List File)
      → f.name ≢ name
      → f.name ≡ path_of r.request_id
      → read_json_object name dir ≡ some rec
      → read_json_object name (prune_record path_of live now f.name r kept dir).dir ≡ some rec
  unfolding prune_record write_recovery_placeholder
  prune_other now f r kept dir apart path h = elim (Bool-cases r.pruned) [
    | inl p ↦ simp p h
    | inr p ↦ elim (Bool-cases (not (is_missing r.request_id) && live r.request_id)) [
      | inl l ↦ simp (p, l) h
      | inr l ↦ elim (Bool-cases (ltb kept max_entries)) [
        | inl k ↦ simp (p, l, k) h
        | inr k ↦ elim (Bool-cases (is_safe_evictable r)) [
          | inl e ↦ simp (p, l, k, e) (read-unlink-other f.name name dir apart ∙ h)
          | inr e ↦ elim (Bool-cases (is_missing r.request_id)) [
            | inl m ↦ simp (p, m, k, e) h
            | inr m ↦
                let l' : live r.request_id ≡ false = rw m at l in
                let written =
                  read-write-other (path_of r.request_id) name now (placeholder r) dir
                    (λ n. apart (path ∙ n))
                  ∙ h in
                simp (p, m, l', k, e) written
          ]
        ]
      ]
    ]
  ]

  prune_same :
      (now : ℕ) (f : File) (kept : ℕ) (dir : List File)
      → is_missing rec.request_id ≡ false
      → live rec.request_id ≡ true
      → (prune_record path_of live now f.name rec kept dir).dir ≡ dir
  unfolding prune_record
  prune_same now f kept dir m l = elim (Bool-cases rec.pruned) [
    | inl p ↦ simp p refl
    | inr p ↦ simp (p, m, l) refl
  ]

  prune_entry-live :
      (now : ℕ) (f : File) (kept : ℕ) (dir : List File)
      → is_missing rec.request_id ≡ false
      → live rec.request_id ≡ true
      → IsNamed path_of live f
      → HasRecord name rec f
      → read_json_object name dir ≡ some rec
      → read_json_object name (prune_entry path_of live now f kept dir).dir ≡ some rec
  prune_entry-live now f kept dir m l named has h = elim (Option-cases f.content) [
    | inl n ↦
        rw n (
          read-unlink-other f.name name dir (λ e. let k : none ≡ some rec = sym n ∙ has e in cc)
          ∙ h)
    | inr (r, c) ↦ elim (same-cases f.name name) [
      | inl (e, same) ↦
          let k : r ≡ rec = (let q : some r ≡ some rec = sym c ∙ has same in cc) in
          rw (c, k)
            (ap (λ (d : List File). read_json_object name d) (prune_same now f kept dir m l) ∙ h)
      | inr (e, apart) ↦ rw c (prune_other now f r kept dir apart (named r c) h)
    ]
  ]

  prune_loop-live :
      (now : ℕ) (files : List File) (kept : ℕ) (dir : List File)
      → is_missing rec.request_id ≡ false
      → live rec.request_id ≡ true
      → All (IsNamed path_of live) files
      → All (HasRecord name rec) files
      → read_json_object name dir ≡ some rec
      → read_json_object name (prune_loop path_of live now files kept dir) ≡ some rec
  unfolding prune_loop
  prune_loop-live now [] kept dir m l named has h = h
  prune_loop-live now (f ∷ files) kept dir m l named has h =
      let p = prune_entry path_of live now f kept dir in
      prune_loop-live now files p.kept p.dir m l named.1 has.1
        (prune_entry-live now f kept dir m l named.0 has.0 h)

no_record :
    (name : Text) (rec : Entry) (dir : List File)
    → All (λ (g : File). g.name ≢ name) dir
    → All (HasRecord name rec) dir
no_record name rec [] h = tt
no_record name rec (f ∷ dir) h = (λ e. absurd (h.0 e), no_record name rec dir h.1)

module _ (path_of : Text → Text) (live : Text → Bool) where
  -- Recording a request whose claim is held puts the record into its file, whatever is pruned with it.
  pub ledger_record-live :
      (now : ℕ) (time : Text) (dir : List File) (u : Update)
      → is_missing u.request_id ≡ false
      → live u.request_id ≡ true
      → All (IsNamed path_of live) dir
      → read_json_object (path_of u.request_id) (ledger_record path_of live now time dir u)
        ≡ some (merge_record (get_or_blank (read_json_object (path_of u.request_id) dir)) u time)
  unfolding ledger_record prune_records merge_record
  ledger_record-live now time dir u m l named =
      let name = path_of u.request_id in
      let next = merge_record (get_or_blank (read_json_object name dir)) u time in
      let new : File = record { name = name; mtime = now; content = some next } in
      let files = write_file name now next dir in
      let has : All (HasRecord name next) files =
        (λ e. refl, no_record name next (unlink name dir) (unlink-gone name dir)) in
      let all_named : All (IsNamed path_of live) files = (
        λ r e.
            ap (λ (z : Text). path_of z)
              (let k : next ≡ r = cc in ap (λ (z : Entry). z.request_id) k),
        unlink-All (IsNamed path_of live) name dir named,
      ) in
      elim (Bool-cases (leb (length files) max_entries)) [
        | inl e ↦ rw e (read-write-same name now next dir)
        | inr e ↦ rw e (
            prune_loop-live path_of live name next now (sort_by_age files) 0 files m l
              (sort_by-All is_older (IsNamed path_of live) files all_named)
              (sort_by-All is_older (HasRecord name next) files has)
              (read-write-same name now next dir))
      ]
