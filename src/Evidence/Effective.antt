-- ===== src/Evidence/Effective.antt =====
-- `effectiveState` of malong/workflow/evidence.js: why the result of a task is stale, if it is.
use liu_he.Base.{
  ℕ, zero, suc, ◌≡◌, refl, ◌==◌, ==_iff, Bool, true, false, Bool-cases, inl, inr, ◌&&◌, ◌||◌, not,
  Option, none, some, List, [], ◌∷◌, ◌++◌, map, any, if◌then◌else◌,
}
use liu_he.Base.Text.{Text, codes, ◌===◌, is_missing, backslash}
use liu_he.Evidence.{
  Finding, Dependency, on_file, on_scope, member, differs, current_evidence, stale_evidence_ids,
}

-- the operations of a task, as far as they are read here
pub record WriteOperation : Type 0 where
  pub kind : Text
  pub state : Text
  pub file : Text
  pub result_file_hash : Text
  pub result_hashes : List (Text × Text)

pub record TaskFacts : Type 0 where
  pub result_kind : Text
  pub goal_revision : ℕ
  pub validated_goal_revision : Option ℕ
  pub evidence : List Finding
  pub operations : List WriteOperation

pub data StaleReason : Type 0 where
  goal_change file_change pending_work : StaleReason

-- `task.goal_revision || 1`
abbrev pub or_first : ℕ → ℕ
or_first zero = 1
or_first (suc n) = suc n

abbrev pub revision_differs : ℕ → Option ℕ → Bool
revision_differs revision none = false
revision_differs revision (some v) = not (or_first revision == v)

abbrev pub goal_changed : TaskFacts → Bool
goal_changed t =
    t.result_kind === codes "validated"
    && revision_differs t.goal_revision t.validated_goal_revision

abbrev slash : ℕ → ℕ
slash c = if c == backslash then b'/' else c

abbrev strip_dot : Text → Text
strip_dot [] = []
strip_dot (a ∷ []) = a ∷ []
strip_dot (a ∷ b ∷ s) = if a == b'.' && b == b'/' then s else a ∷ b ∷ s

-- a path with slashes only, without a leading `./`
unfoldable pub p_key : Text → Text
p_key path = strip_dot (map slash path)

abbrev pub files_read : List Dependency → List Text
files_read [] = []
files_read (on_file f _ ∷ deps) = p_key f ∷ files_read deps
files_read (on_scope _ _ ∷ deps) = files_read deps

-- the files that current evidence covers whose id is not among the stale ones
abbrev pub fresh_covered : List Text → List Finding → List Text
fresh_covered stale [] = []
fresh_covered stale (ev ∷ evs) =
    let rest = fresh_covered stale evs in
    if member ev.evidence_id stale then rest else files_read ev.depends_on ++ rest

abbrev pub is_write : WriteOperation → Bool
is_write o = (o.kind === codes "patch" || o.kind === codes "batch") && o.state === codes "succeeded"

abbrev pub last_write : Option WriteOperation → List WriteOperation → Option WriteOperation
last_write found [] = found
last_write found (o ∷ ops) =
    let newer = last_write (some o) ops in
    let same = last_write found ops in if is_write o then newer else same

abbrev pub is_nonempty : List Text → Bool
is_nonempty [] = false
is_nonempty (_ ∷ _) = true

abbrev pub pending : TaskFacts → Bool
pending t =
    t.result_kind === codes "validated" && any (λ o. o.state === codes "indeterminate") t.operations

nonempty-none : (l : List Text) → is_nonempty l ≡ false → l ≡ []
nonempty-none [] h = refl
nonempty-none (s ∷ l) h = cc

-- the tests of `effectiveState` in their order
abbrev first_reason : Bool → Bool → Bool → Bool → Option StaleReason
first_reason goal stale written uncertain =
    if goal
    then some goal_change
    else if stale
    then some file_change
    else if written
    then some file_change
    else if uncertain
    then some pending_work
    else none

no_reason :
    (goal stale written uncertain : Bool)
    → first_reason goal stale written uncertain ≡ none
    → (goal ≡ false) × (stale ≡ false) × (uncertain ≡ false)
no_reason true s w u h = cc
no_reason false true w u h = cc
no_reason false false true u h = cc
no_reason false false false true h = cc
no_reason false false false false h = (refl, refl, refl)

same_revision : (a v : ℕ) → not (a == v) ≡ false → a ≡ v
same_revision a v h = elim (Bool-cases (a == v)) [
  | inl e ↦ (==_iff a v).0 e
  | inr e ↦ let k : true ≡ false = rw e at h in cc
]

module _ (file_hash : Text → Option Text) (scope_hash : Text → Text) where
  abbrev pub is_drifted : List Text → Text × Text → Bool
  is_drifted covered (file, hash) =
      not (is_missing hash) && not (member (p_key file) covered) && differs (file_hash file) hash

  unfoldable pub written_file_changed : List Text → Option WriteOperation → Bool
  written_file_changed covered none = false
  written_file_changed covered (some o) =
      if o.kind === codes "batch"
      then any (is_drifted covered) o.result_hashes
      else not (is_missing o.file) && is_drifted covered (o.file, o.result_file_hash)

  unfoldable pub effective_state : TaskFacts → Option StaleReason
  effective_state t =
      let stale = stale_evidence_ids file_hash scope_hash t.evidence in
      let covered = fresh_covered stale (current_evidence t.evidence) in
      if goal_changed t
      then some goal_change
      else if is_nonempty stale
      then some file_change
      else if written_file_changed covered (last_write none t.operations)
      then some file_change
      else if pending t
      then some pending_work
      else none

  -- A validated task whose result is not stale was validated for the goal that it has now, no current
  -- evidence is stale, and no operation has an uncertain outcome.
  pub effective_state-fresh :
      (t : TaskFacts) (v : ℕ)
      → effective_state t ≡ none
      → t.result_kind ≡ codes "validated"
      → t.validated_goal_revision ≡ some v
      → (or_first t.goal_revision ≡ v)
        × (stale_evidence_ids file_hash scope_hash t.evidence ≡ [])
        × (any (λ (o : WriteOperation). o.state === codes "indeterminate") t.operations ≡ false)
  unfolding effective_state
  effective_state-fresh t v fresh validated recorded =
      let stale = stale_evidence_ids file_hash scope_hash t.evidence in
      let covered = fresh_covered stale (current_evidence t.evidence) in
      let (g, s, p) =
        no_reason (goal_changed t) (is_nonempty stale)
          (written_file_changed covered (last_write none t.operations)) (pending t) fresh in
      (
        same_revision (or_first t.goal_revision) v (rw (validated, recorded) at g),
        nonempty-none stale s,
        rw validated at p,
      )
