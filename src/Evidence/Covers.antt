-- ===== src/Evidence/Covers.antt =====
-- What `currentEvidence` leaves out is proved by what it keeps.
use liu_he.Base.{
  ◌≡◌, inl, inr, refl, ap, subst, ◌∙◌, sym, Bool, true, false, ◌&&◌, ◌||◌, Bool-cases, List, [],
  ◌∷◌, All, All-map, In, any,
}
use liu_he.Base.Text.{Text, ◌===◌, ===_iff, ===_refl, same-cases}
use liu_he.Evidence.{
  Dependency, on_file, on_scope, Finding, member, add_new, files_of, scopes_of, contains_all,
  evidence_scope, scope_superset, supersedes, current_evidence,
}

and-parts : (a b : Bool) → (a && b) ≡ true → (a ≡ true) × (b ≡ true)
and-parts true b h = (refl, h)
and-parts false b h = cc

or-right : (a b : Bool) → b ≡ true → (a || b) ≡ true
or-right true b h = refl
or-right false b h = h

member-subset :
    (x : Text) (a b : List Text) → contains_all a b ≡ true → member x b ≡ true → member x a ≡ true
member-subset x a [] h m = cc
member-subset x a (y ∷ b) h m = elim (Bool-cases (y === x)) [
  | inl e ↦
      let same : y ≡ x = (===_iff y x).0 e in
      let k = (and-parts (member y a) (contains_all a b) h).0 in
      ap (λ (z : Text). member z a) (sym same) ∙ k
  | inr e ↦ member-subset x a b (and-parts (member y a) (contains_all a b) h).1 (rw e at m)
]

contains_all_trans :
    (a b c : List Text)
    → contains_all a b ≡ true
    → contains_all b c ≡ true
    → contains_all a c ≡ true
contains_all_trans a b [] h k = refl
contains_all_trans a b (x ∷ c) h k =
    let parts = and-parts (member x b) (contains_all b c) k in
    let first = member-subset x a b h parts.0 in
    let rest = contains_all_trans a b c h parts.1 in rw first rest

contains_all-cons :
    (x : Text) (a b : List Text) → contains_all a b ≡ true → contains_all (x ∷ a) b ≡ true
contains_all-cons x a [] h = refl
contains_all-cons x a (y ∷ b) h =
    let parts = and-parts (member y a) (contains_all a b) h in
    let rest = contains_all-cons x a b parts.1 in
    let first = or-right (x === y) (member y a) parts.0 in rw first rest

contains_all_refl : (a : List Text) → contains_all a a ≡ true
contains_all_refl [] = refl
contains_all_refl (x ∷ a) = rw (===_refl x) (contains_all-cons x a a (contains_all_refl a))

supersedes_refl : (ev : Finding) → supersedes ev ev ≡ true
unfolding supersedes scope_superset
supersedes_refl ev = rw (===_refl ev.kind) (
    rw (contains_all_refl (evidence_scope ev).files) (contains_all_refl (evidence_scope ev).scopes))

supersedes_trans :
    (a b c : Finding) → supersedes a b ≡ true → supersedes b c ≡ true → supersedes a c ≡ true
unfolding supersedes scope_superset
supersedes_trans a b c h k =
    let sa = evidence_scope a in
    let sb = evidence_scope b in
    let sc = evidence_scope c in
    let p = and-parts (b.kind === a.kind) (scope_superset sb sa) h in
    let q = and-parts (c.kind === b.kind) (scope_superset sc sb) k in
    let pp = and-parts (contains_all sb.files sa.files) (contains_all sb.scopes sa.scopes) p.1 in
    let qq = and-parts (contains_all sc.files sb.files) (contains_all sc.scopes sb.scopes) q.1 in
    let kinds : c.kind ≡ a.kind = (===_iff c.kind b.kind).0 q.0 ∙ (===_iff b.kind a.kind).0 p.0 in
    let same = (===_iff c.kind a.kind).1 kinds in
    rw same (
      rw (contains_all_trans sc.files sb.files sa.files qq.0 pp.0)
        (contains_all_trans sc.scopes sb.scopes sa.scopes qq.1 pp.1))

-- what covers a later entry covers what that entry supersedes
any_trans :
    (a b : Finding) (kept : List Finding)
    → supersedes a b ≡ true
    → any (supersedes b) kept ≡ true
    → any (supersedes a) kept ≡ true
any_trans a b [] h k = cc
any_trans a b (c ∷ kept) h k = elim (Bool-cases (supersedes b c)) [
  | inl e ↦ rw (supersedes_trans a b c h e) refl
  | inr e ↦ or-right (supersedes a c) (any (supersedes a) kept) (any_trans a b kept h (rw e at k))
]

abbrev IsCovered : List Finding → Finding → Type 0
IsCovered kept ev = any (supersedes ev) kept ≡ true

IsCovered-later :
    (ev : Finding) (evs kept : List Finding)
    → any (supersedes ev) evs ≡ true
    → All (IsCovered kept) evs
    → IsCovered kept ev
IsCovered-later ev [] kept h all_covered = cc
IsCovered-later ev (b ∷ evs) kept h all_covered = elim (Bool-cases (supersedes ev b)) [
  | inl e ↦ any_trans ev b kept e all_covered.0
  | inr e ↦ IsCovered-later ev evs kept (rw e at h) all_covered.1
]

weaken-IsCovered :
    (c : Finding) (kept evs : List Finding)
    → All (IsCovered kept) evs
    → All (IsCovered (c ∷ kept)) evs
weaken-IsCovered c kept [] h = tt
weaken-IsCovered c kept (ev ∷ evs) h =
    (or-right (supersedes ev c) (any (supersedes ev) kept) h.0, weaken-IsCovered c kept evs h.1)

current-superseded :
    (ev : Finding) (evs : List Finding)
    → any (supersedes ev) evs ≡ true
    → current_evidence (ev ∷ evs) ≡ current_evidence evs
unfolding current_evidence
current-superseded ev evs h = rw h refl

current-kept :
    (ev : Finding) (evs : List Finding)
    → any (supersedes ev) evs ≡ false
    → current_evidence (ev ∷ evs) ≡ ev ∷ current_evidence evs
unfolding current_evidence
current-kept ev evs h = rw h refl

current-any :
    (evs : List Finding)
    → All (λ (ev : Finding). any (supersedes ev) (current_evidence evs) ≡ true) evs
current-any [] = tt
current-any (ev ∷ evs) =
    let later = current-any evs in
    let kept = current_evidence evs in
    elim (Bool-cases (any (supersedes ev) evs)) [
      | inl e ↦
          subst (λ (l : List Finding). All (IsCovered l) (ev ∷ evs))
            (sym (current-superseded ev evs e)) (IsCovered-later ev evs kept e later, later)
      | inr e ↦
          subst (λ (l : List Finding). All (IsCovered l) (ev ∷ evs)) (sym (current-kept ev evs e))
            (rw (supersedes_refl ev) refl, weaken-IsCovered ev kept evs later)
    ]

abbrev file_name : Dependency → Text
file_name (on_file f h) = f
file_name (on_scope s h) = s

member-added : (x y : Text) (xs : List Text) → member x (add_new y xs) ≡ ((y === x) || member x xs)
member-added x y xs = elim (Bool-cases (member y xs)) [
  | inr e ↦ rw e refl
  | inl e ↦ elim (same-cases y x) [
    | inl (k, same) ↦ rw (e, k) (subst (λ (z : Text). member z xs ≡ true) same e)
    | inr (k, apart) ↦ rw (e, k) refl
  ]
]

file-member :
    (f h : Text) (deps : List Dependency) → In (on_file f h) deps → member f (files_of deps) ≡ true
file-member f h [] i = absurd i
file-member f h (on_file g k ∷ deps) (inl e) =
    let same : f ≡ g = ap file_name e in
    member-added f g (files_of deps) ∙ rw ((===_iff g f).1 (sym same)) refl
file-member f h (on_file g k ∷ deps) (inr i) =
    member-added f g (files_of deps) ∙ or-right (g === f) _ (file-member f h deps i)
file-member f h (on_scope g k ∷ deps) (inl e) = cc
file-member f h (on_scope g k ∷ deps) (inr i) = file-member f h deps i

scope-member :
    (f h : Text) (deps : List Dependency)
    → In (on_scope f h) deps
    → member f (scopes_of deps) ≡ true
scope-member f h [] i = absurd i
scope-member f h (on_scope g k ∷ deps) (inl e) =
    let same : f ≡ g = ap file_name e in
    member-added f g (scopes_of deps) ∙ rw ((===_iff g f).1 (sym same)) refl
scope-member f h (on_scope g k ∷ deps) (inr i) =
    member-added f g (scopes_of deps) ∙ or-right (g === f) _ (scope-member f h deps i)
scope-member f h (on_file g k ∷ deps) (inl e) = cc
scope-member f h (on_file g k ∷ deps) (inr i) = scope-member f h deps i

member-file :
    (f : Text) (deps : List Dependency)
    → member f (files_of deps) ≡ true
    → (h : Text) × In (on_file f h) deps
member-file f [] m = cc
member-file f (on_file g k ∷ deps) m = elim (same-cases g f) [
  | inl (e, same) ↦ (k, inl (ap (λ n. on_file n k) (sym same)))
  | inr (e, apart) ↦
      let (h, i) = member-file f deps (
        let n : ((g === f) || member f (files_of deps)) ≡ true =
          sym (member-added f g (files_of deps)) ∙ m in
        rw e at n) in
      (h, inr i)
]
member-file f (on_scope g k ∷ deps) m = let (h, i) = member-file f deps m in (h, inr i)

member-scope :
    (f : Text) (deps : List Dependency)
    → member f (scopes_of deps) ≡ true
    → (h : Text) × In (on_scope f h) deps
member-scope f [] m = cc
member-scope f (on_scope g k ∷ deps) m = elim (same-cases g f) [
  | inl (e, same) ↦ (k, inl (ap (λ n. on_scope n k) (sym same)))
  | inr (e, apart) ↦
      let (h, i) = member-scope f deps (
        let n : ((g === f) || member f (scopes_of deps)) ≡ true =
          sym (member-added f g (scopes_of deps)) ∙ m in
        rw e at n) in
      (h, inr i)
]
member-scope f (on_file g k ∷ deps) m = let (h, i) = member-scope f deps m in (h, inr i)

-- `c` is of the kind of `ev` and depends on each file and each directory that `ev` depends on.
pub record Covers (c ev : Finding) : Type 0 where
  pub same_kind : c.kind ≡ ev.kind
  pub on_its_files :
      (f h : Text) → In (on_file f h) ev.depends_on → (h' : Text) × In (on_file f h') c.depends_on
  pub on_its_scopes :
      (f h : Text) → In (on_scope f h) ev.depends_on → (h' : Text) × In (on_scope f h') c.depends_on

supersedes-Covers : (ev c : Finding) → supersedes ev c ≡ true → Covers c ev
unfolding supersedes scope_superset evidence_scope
supersedes-Covers ev c h =
    let p = and-parts (c.kind === ev.kind) _ h in
    let q = and-parts (contains_all (files_of c.depends_on) (files_of ev.depends_on)) _ p.1 in
    record {
      same_kind = (===_iff c.kind ev.kind).0 p.0;
      on_its_files = λ f k i. member-file f c.depends_on (
          member-subset f (files_of c.depends_on) (files_of ev.depends_on) q.0
            (file-member f k ev.depends_on i));
      on_its_scopes = λ f k i. member-scope f c.depends_on (
          member-subset f (scopes_of c.depends_on) (scopes_of ev.depends_on) q.1
            (scope-member f k ev.depends_on i));
    }

-- some entry of these covers it
abbrev pub HasCover : List Finding → Finding → Type 0
HasCover kept ev = (c : Finding) × In c kept × Covers c ev

any-HasCover :
    (ev : Finding) (kept : List Finding) → any (supersedes ev) kept ≡ true → HasCover kept ev
any-HasCover ev [] h = cc
any-HasCover ev (c ∷ kept) h = elim (Bool-cases (supersedes ev c)) [
  | inl e ↦ (c, inl refl, supersedes-Covers ev c e)
  | inr e ↦ let (d, i, k) = any-HasCover ev kept (rw e at h) in (d, inr i, k)
]

current-In : (c : Finding) (evs : List Finding) → In c (current_evidence evs) → In c evs
unfolding current_evidence
current-In c [] i = i
current-In c (ev ∷ evs) i = elim (Bool-cases (any (supersedes ev) evs)) [
  | inl e ↦ inr (current-In c evs (rw e at i))
  | inr e ↦ elim (rw e at i) [ inl k ↦ inl k | inr j ↦ inr (current-In c evs j) ]
]

-- The current evidence is among the evidence, and every piece of evidence has a current one of its kind
-- that depends on all files and on all directories that it depends on: leaving out superseded evidence
-- leaves no range without its proof.
pub current_evidence-IsCovered :
    (evs : List Finding)
    → ((c : Finding) → In c (current_evidence evs) → In c evs)
      × All (HasCover (current_evidence evs)) evs
current_evidence-IsCovered evs = (
  λ c i. current-In c evs i,
  All-map (λ ev. any (supersedes ev) (current_evidence evs) ≡ true)
      (HasCover (current_evidence evs)) (λ ev h. any-HasCover ev (current_evidence evs) h) evs
      (current-any evs),
)
