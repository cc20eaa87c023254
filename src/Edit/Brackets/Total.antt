-- ===== src/Edit/Brackets/Total.antt =====
-- Stripping literals in malong/write-edit.js ends, and the check gives a verdict on every text.
use liu_he.Base.{
  ℕ, zero, suc, ◌≤◌, ◌≡◌, refl, ap, subst, Bool, true, false, Option, none, some, [], ◌∷◌, length,
  ◌==◌, if◌then◌else◌, ◌≢◌, ◌↔◌, sym, arith,
}
use liu_he.Base.Text.{Text, backslash}
use mathlib.Core.List.{reverse}
use liu_he.Edit.Brackets.Dyck.{IsDyck, check_loop-IsDyck}
use liu_he.Edit.Brackets.Strip.{
  regex_or_char, Lang, py, rb, bash, other, scan_regex, skip_string, skip_line, skip_block,
  lex_step, strip_loop, strip_literals, hash_is_comment,
}
use liu_he.Edit.Brackets.{Verdict, check_loop, balanced, of_code, check_bracket_balance}

skip_string_le :
    (quote : ℕ) (escaped : Bool) (s : Text) → length (skip_string quote escaped s) ≤ length s
unfolding skip_string
skip_string_le quote escaped [] = omega arith
skip_string_le quote true (c ∷ s) = omega (arith, skip_string_le quote false s)
skip_string_le quote false (c ∷ s) = ground (arith, skip_string_le quote (c == backslash) s)

skip_line_le : (s : Text) → length (skip_line s) ≤ length s
unfolding skip_line
skip_line_le [] = omega arith
skip_line_le (c ∷ s) = ground (arith, skip_line_le s)

skip_block_le : (s : Text) → length (skip_block s) ≤ length s
unfolding skip_block
skip_block_le [] = omega arith
skip_block_le (c ∷ []) = omega arith
skip_block_le (c ∷ d ∷ s) = ground (arith, skip_block_le (d ∷ s))

scan_regex_le :
    (in_class escaped : Bool) (s : Text) (rest : Text)
    → scan_regex in_class escaped s ≡ some rest
    → length rest ≤ length s
unfolding scan_regex
scan_regex_le in_class escaped [] rest h = cc
scan_regex_le in_class true (c ∷ s) rest h = omega (arith, scan_regex_le in_class false s rest h)
scan_regex_le in_class false (c ∷ s) rest h = ground (
  arith,
  scan_regex_le (if c == b'[' then true else if c == b']' then false else in_class) (c == backslash)
      s rest,
)

regex_or_char_le :
    (c : ℕ) (s : Text) (o : Option Text)
    → ((rest : Text) → o ≡ some rest → length rest ≤ length s)
    → length (regex_or_char c s o).1 ≤ length s
regex_or_char_le c s none h = omega arith
regex_or_char_le c s (some rest) h = h rest refl

-- a round moves the position on, so what is left is no longer than what was behind it
lex_step_le :
    (hash : Bool) (out : Text) (c : ℕ) (s : Text) → length (lex_step hash out c s).1 ≤ length s
unfolding lex_step
lex_step_le hash out c [] = ground (
  arith,
  skip_string_le c false [],
  skip_line_le [],
  regex_or_char_le c [] (scan_regex false false []) (scan_regex_le false false []),
)
lex_step_le hash out c (d ∷ s) = ground (
  arith,
  skip_string_le c false (d ∷ s),
  skip_line_le (d ∷ s),
  skip_block_le s,
  regex_or_char_le c (d ∷ s) (scan_regex false false (d ∷ s)) (scan_regex_le false false (d ∷ s)),
)

strip_loop_total :
    (fuel : ℕ) (hash : Bool) (out s : Text)
    → length s ≤ fuel
    → (r : Text) × (strip_loop fuel hash out s ≡ some r)
unfolding strip_loop
strip_loop_total zero hash out [] h = (reverse out, refl)
strip_loop_total (suc fuel) hash out [] h = (reverse out, refl)
strip_loop_total zero hash out (c ∷ s) h = absurd (omega arith)
strip_loop_total (suc fuel) hash out (c ∷ s) h =
    let (d, rest) = lex_step hash out c s in
    strip_loop_total fuel hash (d ∷ out) rest (omega (arith, lex_step_le hash out c s, h))

strip_literals_total :
    (lang : Lang) (text : Text) → (code : Text) × (strip_literals lang text ≡ some code)
unfolding strip_literals
strip_literals_total lang text =
    strip_loop_total (length text) (hash_is_comment lang) [] text (omega arith)

check-of_code :
    (text : Text) (lang : Lang)
    → lang ≢ bash
    → check_bracket_balance text lang ≡ of_code (strip_literals lang text)
unfolding check_bracket_balance
check-of_code text bash h = absurd (h refl)
check-of_code text py h = refl
check-of_code text rb h = refl
check-of_code text other h = refl

of_code-IsDyck :
    (o : Option Text) (code : Text) → o ≡ some code → (of_code o ≡ some balanced) ↔ IsDyck code
unfolding of_code
of_code-IsDyck none code e = cc
of_code-IsDyck (some s) code e =
    let same : s ≡ code = cc in
    (
      λ h.
          subst IsDyck same
            ((let q : check_loop [] s ≡ balanced = cc in (check_loop-IsDyck s).0 q)),
      λ d. ap some ((check_loop-IsDyck s).1 (subst IsDyck (sym same) d)),
    )

-- On every text in a language other than shell the scan for literals ends, and the check answers that
-- the text is balanced exactly if what is left without its literals is well-bracketed.
pub check_bracket_balance-IsDyck :
    (text : Text) (lang : Lang)
    → lang ≢ bash
    → (code : Text) × (strip_literals lang text ≡ some code)
      × ((check_bracket_balance text lang ≡ some balanced) ↔ IsDyck code)
check_bracket_balance-IsDyck text lang h =
    let (code, e) = strip_literals_total lang text in
    (
      code,
      e,
      subst (λ (o : Option Verdict). (o ≡ some balanced) ↔ IsDyck code)
          (sym (check-of_code text lang h)) (of_code-IsDyck (strip_literals lang text) code e),
    )
