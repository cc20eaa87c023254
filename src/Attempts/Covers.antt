-- ===== src/Attempts/Covers.antt =====
-- What it takes to close a stopped attempt: normalising its checks loses and adds none.
use liu_he.Base.{
  ◌≡◌, ◌≢◌, refl, sym, ap, ◌∙◌, subst, Bool, true, false, and_left, and_right, Bool-cases, inl, inr,
  ◌||◌, not, Option, none, some, List, [], ◌∷◌, map, all, In,
}
use liu_he.Base.Text.{Text, ◌===◌, ===_iff, same-cases, missing-cases, is_missing}
use liu_he.Evidence.{member}
use liu_he.Attempts.{Attempt, filter}
use liu_he.Attempts.Scope.{
  CheckScope, text_before, insert_text, sort_texts, unique, same_workdir, is_determinate, check_key,
  normalize_scope_checks, normalize_scope_workdir, covers_scope, covers_stopped_attempt,
  scope_of_attempt,
}

or_true : (a : Bool) → (a || true) ≡ true
or_true true = refl
or_true false = refl

or_swap : (a b c : Bool) → (b || (a || c)) ≡ (a || (b || c))
or_swap true true c = refl
or_swap true false c = refl
or_swap false true c = refl
or_swap false false c = refl

member-insert :
    (x a : Text) (l : List Text) → member x (insert_text a l) ≡ ((a === x) || member x l)
member-insert x a [] = refl
member-insert x a (b ∷ l) = elim (Bool-cases (text_before a b)) [
  | inl e ↦ rw e refl
  | inr e ↦ rw (e, member-insert x a l) (or_swap (a === x) (b === x) (member x l))
]

member-sort : (x : Text) (l : List Text) → member x (sort_texts l) ≡ member x l
member-sort x [] = refl
member-sort x (a ∷ l) =
    member-insert x a (sort_texts l) ∙ ap (λ (b : Bool). (a === x) || b) (member-sort x l)

member-unique : (x : Text) (l : List Text) → member x (unique l) ≡ member x l
member-unique x [] = refl
member-unique x (a ∷ l) = elim (Bool-cases (member a l)) [
  | inl e ↦ elim (same-cases a x) [
    | inl (s, k) ↦
        let there : member x l ≡ true = subst (λ (z : Text). member z l ≡ true) k e in
        rw (e, s) (member-unique x l ∙ there)
    | inr (s, k) ↦ rw (e, s) (member-unique x l)
  ]
  | inr e ↦ rw e (ap (λ (b : Bool). (a === x) || b) (member-unique x l))
]

abbrev is_text : Text → Bool
is_text c = not (is_missing c)

member-filter : (x : Text) (l : List Text) → x ≢ [] → member x (filter is_text l) ≡ member x l
member-filter x [] h = refl
member-filter x (a ∷ l) h = elim (missing-cases a) [
  | inl (e, k) ↦ elim (same-cases a x) [
    | inl (s, same) ↦ absurd (h (sym same ∙ k))
    | inr (s, apart) ↦ rw (e, s) (member-filter x l h)
  ]
  | inr (e, k) ↦ rw e (ap (λ (b : Bool). (a === x) || b) (member-filter x l h))
]

all-In :
    (p : Text → Bool) (l : List Text) (x : Text) → all p l ≡ true → member x l ≡ true → p x ≡ true
all-In p [] x h m = cc
all-In p (a ∷ l) x h m = elim (same-cases a x) [
  | inl (s, same) ↦ subst (λ (z : Text). p z ≡ true) same (and_left (p a) (all p l) h)
  | inr (s, apart) ↦ all-In p l x (and_right (p a) (all p l) h) (rw s at m)
]

member-map : (f : Text → Text) (l : List Text) (c : Text) → In c l → member (f c) (map f l) ≡ true
member-map f [] c i = absurd i
member-map f (a ∷ l) c (inl e) =
    let k : (f a === f c) ≡ true = (===_iff (f a) (f c)).1 (ap f (sym e)) in rw k refl
member-map f (a ∷ l) c (inr i) = rw (member-map f l c i) (or_true (f a === f c))

same_workdir-eq : (a b : Option Text) → same_workdir a b ≡ true → a ≡ b
same_workdir-eq none none h = refl
same_workdir-eq none (some b) h = cc
same_workdir-eq (some a) none h = cc
same_workdir-eq (some a) (some b) h = ap (λ (t : Text). some t) ((===_iff a b).0 h)

module _ (to_lower : Text → Text) where
  member-normalize :
      (x : Text) (cs : List Text)
      → x ≢ []
      → member x (normalize_scope_checks to_lower cs) ≡ member x (map (check_key to_lower) cs)
  unfolding normalize_scope_checks
  member-normalize x cs h =
      let keys = map (check_key to_lower) cs in
      member-sort x (unique (filter is_text keys))
      ∙ member-unique x (filter is_text keys)
      ∙ member-filter x keys h

  covers_scope-checks :
      (ds ss : CheckScope) (c : Text)
      → covers_scope to_lower (some ds) (some ss) ≡ true
      → In c ss.checks
      → check_key to_lower c ≢ []
      → member (check_key to_lower c) (map (check_key to_lower) ds.checks) ≡ true
  covers_scope-checks ds ss c h i ne =
      let key = check_key to_lower c in
      let asked : member key (normalize_scope_checks to_lower ss.checks) ≡ true =
        member-normalize key ss.checks ne ∙ member-map (check_key to_lower) ss.checks c i in
      sym (member-normalize key ds.checks ne)
      ∙ all-In (λ k. member k (normalize_scope_checks to_lower ds.checks))
          (normalize_scope_checks to_lower ss.checks) key (and_right _ _ h) asked

  -- An attempt that closes a stopped one has succeeded or failed, its directory is the same up to its
  -- spelling, and every check of the stopped one, in lower case and without spaces around it, is a check
  -- of it too.
  pub covers_stopped_attempt-checks :
      (d s : Attempt) (ds ss : CheckScope)
      → scope_of_attempt d ≡ some ds
      → scope_of_attempt s ≡ some ss
      → covers_stopped_attempt to_lower d s ≡ true
      → (is_determinate d.state ≡ true)
        × (normalize_scope_workdir ds.workdir ≡ normalize_scope_workdir ss.workdir)
        × ((c : Text)
            → In c ss.checks
            → check_key to_lower c ≢ []
            → member (check_key to_lower c) (map (check_key to_lower) ds.checks) ≡ true)
  unfolding covers_stopped_attempt
  covers_stopped_attempt-checks d s ds ss e k h =
      let scopes : covers_scope to_lower (some ds) (some ss) ≡ true =
        rw (e, k) at (and_right (is_determinate d.state) _ h) in
      (
        and_left _ _ h,
        same_workdir-eq _ _ (and_left _ _ scopes),
        λ c i ne. covers_scope-checks ds ss c scopes i ne,
      )
