-- ===== src/Tests/Quoting.antt =====
-- Lines with literals, escapes and templates.
use liu_he.Base.{◌≡◌, refl, true, [], ◌∷◌}
use liu_he.Base.Text.{Text, codes}
use liu_he.Strings.{ranges_from, collect_string_ranges, is_in_string, strip_from, strip_strings}
use liu_he.Strings.Literals.{AreLiterals, collect_string_ranges-AreLiterals}

abbrev quoted_line : Text
quoted_line = codes "f('a\\'b', \"c\")"

two_literals : collect_string_ranges quoted_line ≡ (2, 8) ∷ (10, 13) ∷ []
unfolding collect_string_ranges ranges_from
two_literals = refl

quote_is_inside : is_in_string quoted_line 5 ≡ true
unfolding is_in_string collect_string_ranges ranges_from
quote_is_inside = refl

expression_is_kept : strip_strings (codes "x = `a${g('}')}b` + 'c'") ≡ codes "x = ${g('}')} + "
unfolding strip_strings strip_from
expression_is_kept = refl

collect_string_ranges-AreLiterals_example :
    AreLiterals quoted_line 0 (collect_string_ranges quoted_line)
collect_string_ranges-AreLiterals_example = collect_string_ranges-AreLiterals quoted_line
