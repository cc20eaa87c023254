-- ===== src/Ledger/Files.antt =====
-- The directory of the ledger: one file per record, and the reads and writes of it.
use liu_he.Base.{
  ℕ, ◌≡◌, ◌≢◌, refl, Bool-cases, inl, inr, Option, none, some, List, [], ◌∷◌, All, if◌then◌else◌,
}
use liu_he.Base.Text.{Text, ◌===◌, ===_refl, is_missing, same-cases}
use liu_he.Ledger.{Entry}

-- a file; what is damaged or unreadable has no content
pub record File : Type 0 where
  pub name : Text
  pub mtime : ℕ
  pub content : Option Entry

abbrev pub or_else : Option Entry → Option Entry → Option Entry
or_else none o = o
or_else (some rec) o = some rec

unfoldable pub read_json_object : Text → List File → Option Entry
read_json_object name [] = none
read_json_object name (f ∷ dir) =
    let rest = read_json_object name dir in if f.name === name then f.content else rest

unfoldable pub unlink : Text → List File → List File
unlink name [] = []
unlink name (f ∷ dir) = let rest = unlink name dir in if f.name === name then rest else f ∷ rest

-- a temporary file that is renamed: it takes the place of the old one
abbrev pub write_file : Text → ℕ → Entry → List File → List File
write_file name now rec dir =
    record { name = name; mtime = now; content = some rec } ∷ unlink name dir

-- `ledgerLookup`: the record's own file, or else the old format, one object for all requests
unfoldable pub ledger_lookup :
    (Text → Text) → (Text → Option Entry) → List File → Text → Option Entry
ledger_lookup path_of legacy dir request_id =
    if is_missing request_id
    then none
    else or_else (read_json_object (path_of request_id) dir) (legacy request_id)

pub read-unlink-other :
    (m n : Text) (dir : List File)
    → m ≢ n
    → read_json_object n (unlink m dir) ≡ read_json_object n dir
unfolding read_json_object unlink
read-unlink-other m n [] h = refl
read-unlink-other m n (f ∷ dir) h = elim (same-cases f.name m) [
  | inl (e, same) ↦ elim (same-cases f.name n) [
    | inl (k, also) ↦ let x : m ≡ n = cc in absurd (h x)
    | inr (k, apart) ↦ rw e (rw k (read-unlink-other m n dir h))
  ]
  | inr (e, apart) ↦ elim (Bool-cases (f.name === n)) [
    | inl k ↦ rw e (rw k refl)
    | inr k ↦ rw e (rw k (read-unlink-other m n dir h))
  ]
]

pub read-write-other :
    (m n : Text) (now : ℕ) (rec : Entry) (dir : List File)
    → m ≢ n
    → read_json_object n (write_file m now rec dir) ≡ read_json_object n dir
read-write-other m n now rec dir h = elim (same-cases m n) [
  | inl (e, same) ↦ absurd (h same)
  | inr (e, apart) ↦ unfold read_json_object in rw e (read-unlink-other m n dir h)
]

pub read-write-same :
    (n : Text) (now : ℕ) (rec : Entry) (dir : List File)
    → read_json_object n (write_file n now rec dir) ≡ some rec
unfolding read_json_object
read-write-same n now rec dir = rw (===_refl n) refl

-- What holds of all files holds of those that are left.
pub unlink-All :
    (P : File → Type 0) (name : Text) (dir : List File) → All P dir → All P (unlink name dir)
unfolding unlink
unlink-All P name [] h = h
unlink-All P name (f ∷ dir) h = elim (Bool-cases (f.name === name)) [
  | inl e ↦ rw e (unlink-All P name dir h.1)
  | inr e ↦ rw e (h.0, unlink-All P name dir h.1)
]

-- no two files have one name
abbrev pub HasDistinctNames : List File → Type 0
HasDistinctNames [] = Unit
HasDistinctNames (f ∷ dir) = All (λ (g : File). g.name ≢ f.name) dir × HasDistinctNames dir

pub unlink-HasDistinctNames :
    (name : Text) (dir : List File) → HasDistinctNames dir → HasDistinctNames (unlink name dir)
unfolding unlink
unlink-HasDistinctNames name [] h = h
unlink-HasDistinctNames name (f ∷ dir) h = elim (Bool-cases (f.name === name)) [
  | inl e ↦ rw e (unlink-HasDistinctNames name dir h.1)
  | inr e ↦ rw e (
    unlink-All (λ (g : File). g.name ≢ f.name) name dir h.0,
    unlink-HasDistinctNames name dir h.1,
  )
]

pub unlink-gone :
    (name : Text) (dir : List File) → All (λ (g : File). g.name ≢ name) (unlink name dir)
unfolding unlink
unlink-gone name [] = tt
unlink-gone name (f ∷ dir) = elim (same-cases f.name name) [
  | inl (e, same) ↦ rw e (unlink-gone name dir)
  | inr (e, apart) ↦ rw e (apart, unlink-gone name dir)
]
