-- ===== src/Write/Conflict.antt =====
-- `classifyConflict` and `CONFLICT_POLICY` of malong/write-runtime.js: what the caller read against
-- what the file holds now. A missing hash is the empty text.
use liu_he.Base.{
  ◌≡◌, ◌≢◌, ◌↔◌, ◌⊎◌, inl, inr, refl, ap, sym, ◌∙◌, Bool, true, false, ◌&&◌, not, Bool-cases,
  Option-cases, Option, none, some, [], ◌∷◌, is_some, if◌then◌else◌,
}
use liu_he.Base.Text.{Text, ◌===◌, ===_iff, same-cases, is_missing, missing-cases}

pub record FileVersion : Type 0 where
  pub hash : Text
  pub truncated_hash : Bool

pub record SymbolVersion : Type 0 where
  pub body_hash : Text
  pub signature_hash : Text

pub record Version : Type 0 where
  pub file : FileVersion
  pub symbol : Option SymbolVersion

pub data Warning : Type 0 where
  truncated_hash_base no_base_body_hash : Warning

pub data Conflict : Type 0 where
  clean : Option Warning → Conflict
  file_changed_symbol_stable file_changed symbol_changed symbol_signature_changed symbol_deleted
        no_base :
      Conflict

-- `symbol?.body_hash`
abbrev pub body_hash_of : Option SymbolVersion → Text
body_hash_of none = []
body_hash_of (some s) = s.body_hash

abbrev pub signature_hash_of : Option SymbolVersion → Text
signature_hash_of none = []
signature_hash_of (some s) = s.signature_hash

-- both are known, and they are equal
abbrev pub same_hash : Text → Text → Bool
same_hash a b = not (is_missing a) && not (is_missing b) && a === b

-- both are known, and they differ
abbrev pub other_hash : Text → Text → Bool
other_hash a b = not (is_missing a) && not (is_missing b) && not (a === b)

unfoldable pub same_file : Option SymbolVersion → Option SymbolVersion → Bool → Conflict
same_file base cur symbol_mode =
    if not symbol_mode
    then clean none
    else if same_hash (body_hash_of base) (body_hash_of cur)
    then clean none
    else if is_missing (body_hash_of base)
    then clean (some no_base_body_hash)
    else symbol_changed

unfoldable pub changed_file : Option SymbolVersion → Option SymbolVersion → Bool → Conflict
changed_file base cur symbol_mode =
    if not symbol_mode
    then file_changed
    else if same_hash (body_hash_of base) (body_hash_of cur)
    then file_changed_symbol_stable
    else if other_hash (signature_hash_of base) (signature_hash_of cur)
    then symbol_signature_changed
    else symbol_changed

unfoldable pub classify_conflict : Version → Version → Bool → Conflict
classify_conflict base cur symbol_mode =
    if is_missing base.file.hash
    then no_base
    else if symbol_mode && not (is_some cur.symbol)
    then symbol_deleted
    else if base.file.truncated_hash && not symbol_mode
    then clean (some truncated_hash_base)
    else if base.file.hash === cur.file.hash
    then same_file base.symbol cur.symbol symbol_mode
    else changed_file base.symbol cur.symbol symbol_mode

pub data Policy : Type 0 where
  allow allow_warn reject : Policy

abbrev pub conflict_policy : Conflict → Policy
conflict_policy (clean _) = allow
conflict_policy file_changed_symbol_stable = allow_warn
conflict_policy _ = reject

-- does the write go on?
abbrev pub is_admitted : Policy → Bool
is_admitted reject = false
is_admitted _ = true

-- When a write does not lose what the caller has not seen: of a file, when its hash is the one that was
-- read, or was of a part only; of a symbol, when it is still there with the body that was read, or
-- its body was not hashed and the file is the one that was read.
abbrev pub IsUpToDate : Version → Version → Bool → Type 0
IsUpToDate base cur false =
    (base.file.hash ≢ []) × ((base.file.truncated_hash ≡ true) ⊎ (base.file.hash ≡ cur.file.hash))
IsUpToDate base cur true =
    (base.file.hash ≢ [])
    × (cur.symbol ≢ none)
    × (((body_hash_of base.symbol ≢ []) × (body_hash_of base.symbol ≡ body_hash_of cur.symbol))
        ⊎ ((body_hash_of base.symbol ≡ []) × (base.file.hash ≡ cur.file.hash)))

same_hash_iff : (a b : Text) → (same_hash a b ≡ true) ↔ ((a ≢ []) × (a ≡ b))
same_hash_iff [] b = (λ h. cc, λ h. absurd (h.0 refl))
same_hash_iff (c ∷ a) [] = (λ h. cc, λ h. let e = h.1 in cc)
same_hash_iff (c ∷ a) (d ∷ b) =
    (λ h. ((λ e. cc), (===_iff (c ∷ a) (d ∷ b)).0 h), λ h. (===_iff (c ∷ a) (d ∷ b)).1 h.1)

abbrev IsSameBody : Option SymbolVersion → Option SymbolVersion → Type 0
IsSameBody base cur = (body_hash_of base ≢ []) × (body_hash_of base ≡ body_hash_of cur)

same_file-IsSameBody :
    (base cur : Option SymbolVersion)
    → (is_admitted (conflict_policy (same_file base cur true)) ≡ true)
      ↔ (IsSameBody base cur ⊎ (body_hash_of base ≡ []))
unfolding same_file
same_file-IsSameBody base cur =
    let iff = same_hash_iff (body_hash_of base) (body_hash_of cur) in
    elim (Bool-cases (same_hash (body_hash_of base) (body_hash_of cur))) [
      | inl e ↦ rw e (λ h. inl (iff.0 e), λ h. refl)
      | inr e ↦ elim (missing-cases (body_hash_of base)) [
        | inl (m, f) ↦ rw e (rw m (λ h. inr f, λ h. refl))
        | inr (m, f) ↦
            rw e
              (rw m (λ h. cc, λ h. elim h [ inl x ↦ let k = iff.1 x in cc | inr x ↦ absurd (f x) ]))
      ]
    ]

changed_file-IsSameBody :
    (base cur : Option SymbolVersion)
    → (is_admitted (conflict_policy (changed_file base cur true)) ≡ true) ↔ IsSameBody base cur
unfolding changed_file
changed_file-IsSameBody base cur =
    let iff = same_hash_iff (body_hash_of base) (body_hash_of cur) in
    elim (Bool-cases (same_hash (body_hash_of base) (body_hash_of cur))) [
      | inl e ↦ rw e (λ h. iff.0 e, λ h. refl)
      | inr e ↦ elim (Bool-cases (other_hash (signature_hash_of base) (signature_hash_of cur))) [
        | inl o ↦ rw e (rw o (λ h. cc, λ h. let k = iff.1 h in cc))
        | inr o ↦ rw e (rw o (λ h. cc, λ h. let k = iff.1 h in cc))
      ]
    ]

present_file-IsUpToDate :
    (base cur : Version)
    → base.file.hash ≢ []
    → cur.symbol ≢ none
    → (is_admitted (
          conflict_policy (
            if base.file.hash === cur.file.hash
            then same_file base.symbol cur.symbol true
            else changed_file base.symbol cur.symbol true))
        ≡ true)
      ↔ IsUpToDate base cur true
present_file-IsUpToDate base cur named there = elim (same-cases base.file.hash cur.file.hash) [
  | inl (s, f) ↦
      let iff = same_file-IsSameBody base.symbol cur.symbol in
      rw s (
        λ h. (named, there, elim (iff.0 h) [ inl x ↦ inl x | inr x ↦ inr (x, f) ]),
        λ h. iff.1 (elim h.2 [ inl x ↦ inl x | inr x ↦ inr x.0 ]),
      )
  | inr (s, f) ↦
      let iff = changed_file-IsSameBody base.symbol cur.symbol in
      rw s (
        λ h. (named, there, inl (iff.0 h)),
        λ h. iff.1 (elim h.2 [ inl x ↦ x | inr x ↦ absurd (f x.1) ]),
      )
]

-- A write goes on exactly if the caller's base has a hash and, for a file, it is the file's hash or one
-- of a truncated read; for a symbol, the symbol is still there and has the body hash of the base, or
-- the base has no body hash and the file is the one that was read.
pub classify_conflict-IsUpToDate :
    (base cur : Version) (symbol_mode : Bool)
    → (is_admitted (conflict_policy (classify_conflict base cur symbol_mode)) ≡ true)
      ↔ IsUpToDate base cur symbol_mode
unfolding classify_conflict
classify_conflict-IsUpToDate base cur false = elim (missing-cases base.file.hash) [
  | inl (m, e) ↦ rw m (λ h. cc, λ h. absurd (h.0 e))
  | inr (m, e) ↦ elim (Bool-cases base.file.truncated_hash) [
    | inl t ↦ rw m (rw t (λ h. (e, inl refl), λ h. refl))
    | inr t ↦
        unfold same_file changed_file in
        elim (same-cases base.file.hash cur.file.hash) [
          | inl (s, f) ↦ rw m (rw t (rw s (λ h. (e, inr f), λ h. refl)))
          | inr (s, f) ↦
              rw m (rw t (rw s (λ h. cc, λ h. elim h.1 [ inl x ↦ cc | inr x ↦ absurd (f x) ])))
        ]
  ]
]
classify_conflict-IsUpToDate base cur true = elim (missing-cases base.file.hash) [
  | inl (m, e) ↦ rw m (λ h. cc, λ h. absurd (h.0 e))
  | inr (m, e) ↦ elim (Option-cases cur.symbol) [
    | inl n ↦
        let g : is_some cur.symbol ≡ false = ap (λ (o : Option SymbolVersion). is_some o) n in
        rw m (rw g (λ h. cc, λ h. absurd (h.1 n)))
    | inr (t, f) ↦
        let g : is_some cur.symbol ≡ true = ap (λ (o : Option SymbolVersion). is_some o) f in
        let iff =
          present_file-IsUpToDate base cur e (λ n. let k : none ≡ some t = sym n ∙ f in cc) in
        elim (Bool-cases base.file.truncated_hash) [
          | inl x ↦ rw m (rw g (rw x iff))
          | inr x ↦ rw m (rw g (rw x iff))
        ]
  ]
]
