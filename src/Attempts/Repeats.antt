-- ===== src/Attempts/Repeats.antt =====
-- What it says that an attempt repeats a stopped one, in malong/workflow/check-attempts.js.
use liu_he.Base.{
  ◌≤◌, ◌≡◌, ◌≢◌, ◌⊎◌, refl, sym, ap, ◌∙◌, subst, true, and_right, Bool-cases, inl, inr, Option,
  Option-cases, none, some, List, [], ◌∷◌, ◌++◌, map, All, All-self, All-append, All-In, In,
}
use liu_he.Base.Text.{Text, codes, ===_iff, same-cases, is_missing, trim}
use liu_he.Evidence.{member}
use liu_he.Attempts.{Attempt, checks_of}
use liu_he.Attempts.Scope.{
  CheckScope, pick, scope_with, scope_of_attempt, normalize_scope_workdir, check_key,
  is_determinate, is_stopped, find, covers_scope, covers_stopped_attempt, resolve_from, settled_ids,
  stopped_attempt_resolutions,
}
use liu_he.Attempts.Places.{letters_of, normalize_scope_workdir-letters_of}
use liu_he.Attempts.Covers.{covers_stopped_attempt-checks}
use liu_he.Attempts.Redone.{IsRedone, find-some, some_eq}

-- `d` has succeeded or failed, it ran in the directory of `a` up to its spelling, which keeps the names of
-- it, and every check of `a`, in lower case and without spaces around it, is a check of it.
pub record Repeats (to_lower : Text → Text) (d a : Attempt) : Type 0 where
  pub ended : (d.state ≡ codes "succeeded") ⊎ (d.state ≡ codes "failed")
  pub same_place :
      normalize_scope_workdir (pick (λ p. p.workdir) d)
      ≡ normalize_scope_workdir (pick (λ p. p.workdir) a)
  pub same_names : letters_of (pick (λ p. p.workdir) d) ≡ letters_of (pick (λ p. p.workdir) a)
  pub all_checks :
      (c : Text)
      → In c (checks_of a.op a.job)
      → to_lower (trim c) ≢ []
      → (c' : Text) × In c' (checks_of d.op d.job) × (to_lower (trim c') ≡ to_lower (trim c))

-- some attempt among them that is at least as new repeats it
abbrev pub IsRepeated : (Text → Text) → List Attempt → Attempt → Type 0
IsRepeated to_lower attempts a =
    (d : Attempt) × In d attempts × (a.time ≤ d.time) × Repeats to_lower d a

determinate-ended :
    (s : Text) → is_determinate s ≡ true → (s ≡ codes "succeeded") ⊎ (s ≡ codes "failed")
determinate-ended s h = elim (same-cases s (codes "succeeded")) [
  | inl (k, e) ↦ inl e
  | inr (k, e) ↦ inr ((===_iff s (codes "failed")).0 (rw k at h))
]

scope_parts :
    (a : Attempt) (cs : List Text) (s : CheckScope)
    → scope_with a cs ≡ some s
    → (s.workdir ≡ pick (λ p. p.workdir) a) × (s.checks ≡ cs)
scope_parts a [] s h = cc
scope_parts a (c ∷ cs) s h =
    let e = some_eq _ s h in
    (ap (λ (x : CheckScope). x.workdir) (sym e), ap (λ (x : CheckScope). x.checks) (sym e))

attempt_parts :
    (a : Attempt) (s : CheckScope)
    → scope_of_attempt a ≡ some s
    → (s.workdir ≡ pick (λ p. p.workdir) a) × (s.checks ≡ checks_of a.op a.job)
unfolding scope_of_attempt
attempt_parts a s h = scope_parts a (checks_of a.op a.job) s h

-- a member of the images is an image
member-map_lem :
    (f : Text → Text) (x : Text) (l : List Text)
    → member x (map f l) ≡ true
    → (c : Text) × In c l × (f c ≡ x)
member-map_lem f x [] h = cc
member-map_lem f x (c ∷ l) h = elim (same-cases (f c) x) [
  | inl (e, k) ↦ (c, inl refl, k)
  | inr (e, k) ↦ let (d, i, m) = member-map_lem f x l (rw e at h) in (d, inr i, m)
]

module _ (to_lower : Text → Text) where
  both_scopes :
      (d s : Option CheckScope)
      → covers_scope to_lower d s ≡ true
      → (ds : CheckScope) × (ss : CheckScope) × (d ≡ some ds) × (s ≡ some ss)
  both_scopes none s h = cc
  both_scopes (some d) none h = cc
  both_scopes (some d) (some s) h = (d, s, refl, refl)

  pub covers-Repeats :
      (d a : Attempt) → covers_stopped_attempt to_lower d a ≡ true → Repeats to_lower d a
  unfolding covers_stopped_attempt
  covers-Repeats d a h =
      let (ds, ss, e, k) =
        both_scopes (scope_of_attempt d) (scope_of_attempt a)
          (and_right (is_determinate d.state) _ h) in
      let (ended, place, checks) = covers_stopped_attempt-checks to_lower d a ds ss e k h in
      let (dw, dc) = attempt_parts d ds e in
      let (aw, ac) = attempt_parts a ss k in
      let same : normalize_scope_workdir (pick (λ p. p.workdir) d)
          ≡ normalize_scope_workdir (pick (λ p. p.workdir) a) =
        ap normalize_scope_workdir (sym dw) ∙ place ∙ ap normalize_scope_workdir aw in
      record {
        ended = determinate-ended d.state ended;
        same_place = same;
        same_names = normalize_scope_workdir-letters_of _ _ same;
        all_checks = λ c i ne.
            member-map_lem (check_key to_lower) (check_key to_lower c) (checks_of d.op d.job) (
              subst (λ l. member (check_key to_lower c) (map (check_key to_lower) l) ≡ true) dc
                (checks c (subst (In c) (sym ac) i) ne));
      }

  pub IsRedone-IsRepeated :
      (attempts : List Attempt) (a : Attempt)
      → IsRedone to_lower attempts a
      → IsRepeated to_lower attempts a
  IsRedone-IsRepeated attempts a (d, i, newer, c) = (d, i, newer, covers-Repeats d a c)

  -- An attempt of that operation among `attempts` has been repeated by one of them.
  abbrev pub IsSettled : List Attempt → Text → Type 0
  IsSettled attempts id =
      (a : Attempt) × (d : Attempt) × In a attempts
      × (a.operation_id ≡ id)
      × In d attempts
      × Repeats to_lower d a

  resolve_from-IsSettled :
      (attempts newer rest : List Attempt) (id : Text)
      → All (λ (d : Attempt). In d attempts) newer
      → All (λ (d : Attempt). In d attempts) rest
      → member id (settled_ids (resolve_from to_lower newer rest)) ≡ true
      → IsSettled attempts id
  unfolding settled_ids
  resolve_from-IsSettled attempts newer [] id m n h = cc
  resolve_from-IsSettled attempts newer (a ∷ rest) id m n h =
      let next =
        resolve_from-IsSettled attempts (newer ++ (a ∷ [])) rest id
          (All-append (λ (d : Attempt). In d attempts) newer (a ∷ []) m (n.0, tt)) n.1 in
      let p = λ (d : Attempt). covers_stopped_attempt to_lower d a in
      elim (Bool-cases (is_stopped a)) [
        | inr e ↦ next (rw e at h)
        | inl e ↦ elim (Option-cases (find p newer)) [
          | inl f ↦ next (rw (e, f) at h)
          | inr (d, f) ↦ elim (Bool-cases (is_missing a.operation_id)) [
            | inl g ↦ next (rw (e, f, g) at h)
            | inr g ↦ elim (same-cases a.operation_id id) [
              | inr (k, apart) ↦ next (rw (e, f, g, k) at h)
              | inl (k, same) ↦
                  let (i, c) = find-some p newer d f in
                  (
                    a,
                    d,
                    n.0,
                    same,
                    All-In (λ (d : Attempt). In d attempts) d newer m i,
                    covers-Repeats d a c,
                  )
            ]
          ]
        ]
      ]

  pub settled_ids-IsSettled :
      (attempts : List Attempt) (id : Text)
      → member id (settled_ids (stopped_attempt_resolutions to_lower attempts)) ≡ true
      → IsSettled attempts id
  unfolding stopped_attempt_resolutions
  settled_ids-IsSettled attempts id h =
      resolve_from-IsSettled attempts [] attempts id tt (All-self attempts) h
