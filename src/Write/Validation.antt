-- ===== src/Write/Validation.antt =====
-- `reconcileBracketWithSyntax` and `shouldBlockValidation` of malong/write-runtime.js: whether a
-- validation stops a write.
use liu_he.Base.{
  ◌≡◌, ◌≢◌, ◌↔◌, ◌⊎◌, refl, Bool, true, false, ◌&&◌, ◌||◌, not, Bool-cases, inl, inr, ap, Option,
  none, some, if◌then◌else◌,
}

pub data CheckStatus : Type 0 where
  pass fail skip : CheckStatus

-- `unavailable`: the machine has no interpreter to check the syntax with
pub record SyntaxCheck : Type 0 where
  pub status : CheckStatus
  pub unavailable : Bool

pub record BracketCheck : Type 0 where
  pub status : CheckStatus
  pub syntax_disagreement : Bool

pub record Validation : Type 0 where
  pub syntax : Option SyntaxCheck
  pub bracket : Option BracketCheck

pub data Profile : Type 0 where
  fast standard strict unknown : Profile

-- an absent profile is `standard`
pub record Safety : Type 0 where
  pub block_on_validation_error : Option Bool
  pub profile : Option Profile

abbrev pub syntax_failed : Option SyntaxCheck → Bool
syntax_failed none = false
syntax_failed (some c) = elim c.status [ fail ↦ true | _ ↦ false ]

abbrev pub syntax_passed : Option SyntaxCheck → Bool
syntax_passed none = false
syntax_passed (some c) = elim c.status [ pass ↦ true | _ ↦ false ]

abbrev pub syntax_skipped : Option SyntaxCheck → Bool
syntax_skipped none = false
syntax_skipped (some c) = elim c.status [ skip ↦ not c.unavailable | _ ↦ false ]

abbrev pub bracket_failed : Option BracketCheck → Bool
bracket_failed none = false
bracket_failed (some c) = elim c.status [ fail ↦ true | _ ↦ false ]

abbrev pub mark_disagreement : Option BracketCheck → Option BracketCheck
mark_disagreement none = none
mark_disagreement (some c) = some (record c { syntax_disagreement = true })

unfoldable pub reconcile_bracket_with_syntax : Validation → Validation
reconcile_bracket_with_syntax v =
    if syntax_passed v.syntax && bracket_failed v.bracket
    then record v { bracket = mark_disagreement v.bracket }
    else v

abbrev pub hard_fail : Validation → Bool
hard_fail v = syntax_failed v.syntax || bracket_failed v.bracket

abbrev pub block_by_profile : Option Profile → Validation → Bool
block_by_profile (some fast) v = false
block_by_profile (some strict) v = hard_fail v || syntax_skipped v.syntax
block_by_profile _ v = hard_fail v

unfoldable pub should_block_validation : Safety → Option Validation → Bool
should_block_validation safety none = false
should_block_validation safety (some v) = elim safety.block_on_validation_error [
  | some false ↦ false
  | some true ↦ hard_fail v || syntax_skipped v.syntax
  | none ↦ block_by_profile safety.profile v
]

mark-failed : (b : Option BracketCheck) → bracket_failed (mark_disagreement b) ≡ bracket_failed b
mark-failed none = refl
mark-failed (some c) = refl

-- the two checks as `shouldBlockValidation` sees them
reconcile-hard_fail : (v : Validation) → hard_fail (reconcile_bracket_with_syntax v) ≡ hard_fail v
unfolding reconcile_bracket_with_syntax
reconcile-hard_fail v = elim (Bool-cases (syntax_passed v.syntax && bracket_failed v.bracket)) [
  | inl e ↦ rw e (ap (λ (b : Bool). syntax_failed v.syntax || b) (mark-failed v.bracket))
  | inr e ↦ rw e refl
]

reconcile-syntax : (v : Validation) → (reconcile_bracket_with_syntax v).syntax ≡ v.syntax
unfolding reconcile_bracket_with_syntax
reconcile-syntax v = elim (Bool-cases (syntax_passed v.syntax && bracket_failed v.bracket)) [
  | inl e ↦ rw e refl
  | inr e ↦ rw e refl
]

or-true : (b : Bool) → (b || true) ≡ true
or-true true = refl
or-true false = refl

fails-if : (v : Validation) → bracket_failed v.bracket ≡ true → hard_fail v ≡ true
fails-if v h = rw h (or-true (syntax_failed v.syntax))

unbalanced_blocks :
    (block : Option Bool) (profile : Option Profile) (v : Validation)
    → hard_fail v ≡ true
    → (should_block_validation
          (record { block_on_validation_error = block; profile = profile })
          (some v)
        ≡ true)
      ↔ ((block ≡ some true) ⊎ ((block ≡ none) × (profile ≢ some fast)))
unfolding should_block_validation
unbalanced_blocks (some false) profile v h =
    (λ e. cc, λ x. elim x [ inl e ↦ cc | inr e ↦ let k = e.0 in cc ])
unbalanced_blocks (some true) profile v h = rw h (λ e. inl refl, λ x. refl)
unbalanced_blocks none none v h = rw h (λ e. inr (refl, λ k. cc), λ x. refl)
unbalanced_blocks none (some fast) v h =
    (λ e. cc, λ x. elim x [ inl e ↦ cc | inr e ↦ absurd (e.1 refl) ])
unbalanced_blocks none (some standard) v h = rw h (λ e. inr (refl, λ k. cc), λ x. refl)
unbalanced_blocks none (some strict) v h = rw h (λ e. inr (refl, λ k. cc), λ x. refl)
unbalanced_blocks none (some unknown) v h = rw h (λ e. inr (refl, λ k. cc), λ x. refl)

-- Noting a disagreement between the parser and the bracket check never changes whether a validation
-- stops the write.
pub should_block-reconcile :
    (block : Option Bool) (profile : Option Profile) (v : Validation)
    → let safety : Safety = record { block_on_validation_error = block; profile = profile } in
      should_block_validation safety (some (reconcile_bracket_with_syntax v))
      ≡ should_block_validation safety (some v)
unfolding should_block_validation
should_block-reconcile (some false) profile v = refl
should_block-reconcile (some true) profile v =
    rw (reconcile-hard_fail v) (rw (reconcile-syntax v) refl)
should_block-reconcile none none v = reconcile-hard_fail v
should_block-reconcile none (some fast) v = refl
should_block-reconcile none (some standard) v = reconcile-hard_fail v
should_block-reconcile none (some strict) v =
    rw (reconcile-hard_fail v) (rw (reconcile-syntax v) refl)
should_block-reconcile none (some unknown) v = reconcile-hard_fail v

-- A text that the bracket check refuses stops the write, whatever the parser says of it, exactly if
-- blocking is asked for, or is not mentioned and the profile is not `fast`.
pub should_block-unbalanced :
    (block : Option Bool) (profile : Option Profile) (v : Validation)
    → bracket_failed v.bracket ≡ true
    → let safety : Safety = record { block_on_validation_error = block; profile = profile } in
      (should_block_validation safety (some (reconcile_bracket_with_syntax v)) ≡ true)
      ↔ ((block ≡ some true) ⊎ ((block ≡ none) × (profile ≢ some fast)))
should_block-unbalanced block profile v h =
    rw (should_block-reconcile block profile v) (unbalanced_blocks block profile v (fails-if v h))
