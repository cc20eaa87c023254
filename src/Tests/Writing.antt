-- ===== src/Tests/Writing.antt =====
-- The theorems on conflicts and validations at small values.
use liu_he.Base.{◌≡◌, ◌↔◌, refl, true, false, none, some}
use liu_he.Base.Text.{codes}
use liu_he.Write.Conflict.{
  Version, classify_conflict, conflict_policy, is_admitted, IsUpToDate,
  classify_conflict-IsUpToDate, file_changed_symbol_stable, symbol_signature_changed, changed_file,
}
use liu_he.Write.Validation.{Validation, Safety, pass, fail, strict}

abbrev read_version : Version
read_version = record {
  file = record { hash = codes "f1"; truncated_hash = false };
  symbol = some (record { body_hash = codes "b1"; signature_hash = codes "s1" });
}

abbrev moved_version : Version
moved_version = record {
  file = record { hash = codes "f2"; truncated_hash = false };
  symbol = some (record { body_hash = codes "b1"; signature_hash = codes "s1" });
}

abbrev renamed_version : Version
renamed_version = record {
  file = record { hash = codes "f2"; truncated_hash = false };
  symbol = some (record { body_hash = codes "b2"; signature_hash = codes "s2" });
}

moved_is_stable : classify_conflict read_version moved_version true ≡ file_changed_symbol_stable
unfolding classify_conflict changed_file
moved_is_stable = refl

renamed_is_rejected : classify_conflict read_version renamed_version true ≡ symbol_signature_changed
unfolding classify_conflict changed_file
renamed_is_rejected = refl

classify_conflict-IsUpToDate_example :
    (is_admitted (conflict_policy (classify_conflict read_version moved_version true)) ≡ true)
    ↔ IsUpToDate read_version moved_version true
classify_conflict-IsUpToDate_example = classify_conflict-IsUpToDate read_version moved_version true

abbrev unclosed_brace : Validation
unclosed_brace = record {
  syntax = some (record { status = pass; unavailable = false });
  bracket = some (record { status = fail; syntax_disagreement = false });
}

abbrev strict_safety : Safety
strict_safety = record { block_on_validation_error = none; profile = some strict }
