-- ===== src/Evidence.antt =====
-- The evidence of a task in malong/workflow/evidence.js: what it depends on, which entries a later one
-- supersedes, and which are stale. The hash of a file and the signature of a directory, which the
-- source computes from the disk, are parameters.
use liu_he.Base.{
  ℕ, ◌==◌, Bool, true, false, ◌&&◌, ◌||◌, not, Option, none, some, List, [], ◌∷◌, map, all, any,
  if◌then◌else◌,
}
use liu_he.Base.Text.{Text, codes, ◌===◌, starts_with}
pub mod Covers
pub mod Effective

pub data Dependency : Type 0 where
  on_file : Text → Text → Dependency
  on_scope : Text → Text → Dependency

-- what an analysis says of its own run; `scope_truncated` is either of the two flags of that name
pub record Actual : Type 0 where
  pub error : Bool
  pub errored_files : Bool
  pub scope_truncated : Bool

-- an absent kind is `unknown`
pub record Finding : Type 0 where
  pub evidence_id : Text
  pub kind : Text
  pub goal_revision : Option ℕ
  pub result : Text
  pub actual : Actual
  pub depends_on : List Dependency

abbrev pub member : Text → List Text → Bool
member x xs = any (λ y. y === x) xs

-- `[...new Set(...)]`
abbrev pub add_new : Text → List Text → List Text
add_new x xs = if member x xs then xs else x ∷ xs

abbrev pub files_of : List Dependency → List Text
files_of [] = []
files_of (on_file f _ ∷ deps) = add_new f (files_of deps)
files_of (on_scope _ _ ∷ deps) = files_of deps

abbrev pub scopes_of : List Dependency → List Text
scopes_of [] = []
scopes_of (on_file _ _ ∷ deps) = scopes_of deps
scopes_of (on_scope s _ ∷ deps) = add_new s (scopes_of deps)

pub record Scope : Type 0 where
  pub files : List Text
  pub scopes : List Text

-- `evidenceScope`, whose lists the source also sorts
unfoldable pub evidence_scope : Finding → Scope
evidence_scope ev = record { files = files_of ev.depends_on; scopes = scopes_of ev.depends_on }

abbrev pub contains_all : List Text → List Text → Bool
contains_all a b = all (λ x. member x a) b

unfoldable pub scope_superset : Scope → Scope → Bool
scope_superset a b = contains_all a.files b.files && contains_all a.scopes b.scopes

-- does `later` take the place of `ev`?
unfoldable pub supersedes : Finding → Finding → Bool
supersedes ev later =
    later.kind === ev.kind && scope_superset (evidence_scope later) (evidence_scope ev)

unfoldable pub current_evidence : List Finding → List Finding
current_evidence [] = []
current_evidence (ev ∷ evs) =
    let rest = current_evidence evs in if any (supersedes ev) evs then rest else ev ∷ rest

abbrev pub goal_revision_of : Finding → ℕ
goal_revision_of ev = elim ev.goal_revision [ none ↦ 1 | some n ↦ n ]

abbrev pub differs : Option Text → Text → Bool
differs none hash = true
differs (some h) hash = not (h === hash)

module _ (file_hash : Text → Option Text) (scope_hash : Text → Text) where
  abbrev pub is_dependency_stale : Dependency → Bool
  is_dependency_stale (on_file f hash) = differs (file_hash f) hash
  is_dependency_stale (on_scope s hash) = not (scope_hash s === hash)

  unfoldable pub is_evidence_stale : Finding → Bool
  is_evidence_stale ev = any is_dependency_stale ev.depends_on

  abbrev pub stale_ids : List Finding → List Text
  stale_ids [] = []
  stale_ids (ev ∷ evs) =
      let rest = stale_ids evs in if is_evidence_stale ev then ev.evidence_id ∷ rest else rest

  unfoldable pub stale_evidence_ids : List Finding → List Text
  stale_evidence_ids evs = stale_ids (current_evidence evs)

  unfoldable pub is_applicable_audit : ℕ → Finding → Bool
  is_applicable_audit revision ev =
      starts_with (codes "audit") ev.kind
      && goal_revision_of ev == revision
      && not (ev.result === codes "skipped")
      && not ev.actual.error
      && not ev.actual.errored_files
      && not ev.actual.scope_truncated
      && not (is_evidence_stale ev)

  unfoldable pub has_applicable_audit_evidence : ℕ → List Finding → Bool
  has_applicable_audit_evidence revision evs =
      any (is_applicable_audit revision) (current_evidence evs)
