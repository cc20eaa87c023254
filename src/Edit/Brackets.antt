-- ===== src/Edit/Brackets.antt =====
-- `checkBracketBalance` of malong/write-edit.js: literals are stripped, then a stack pairs brackets.
pub mod Strip
pub mod Dyck
pub mod Total
use liu_he.Base.{ℕ, Bool, ◌||◌, Option, none, some, [], ◌∷◌, ◌==◌, if◌then◌else◌}
use liu_he.Base.Text.{Text}
use mathlib.Core.List.{reverse}
use Strip.{Lang, py, rb, bash, other, strip_literals}

-- `unbalanced` has the bracket that was expected, if any, and the one that was met; `unclosed` has
-- the stack from its bottom.
pub data Verdict : Type 0 where
  balanced not_applicable : Verdict
  unbalanced : Option ℕ → ℕ → Verdict
  unclosed : Text → Verdict

abbrev pub is_open : ℕ → Bool
is_open c = c == b'(' || c == b'[' || c == b'{'

abbrev pub is_close : ℕ → Bool
is_close c = c == b')' || c == b']' || c == b'}'

-- `pairs[c]` at an opening bracket
abbrev pub close_of : ℕ → ℕ
close_of c = if c == b'(' then b')' else if c == b'[' then b']' else b'}'

unfoldable pub check_loop : Text → Text → Verdict
check_loop [] [] = balanced
check_loop (o ∷ stack) [] = unclosed (reverse (o ∷ stack))
check_loop [] (c ∷ s) =
    let pushed = check_loop (c ∷ []) s in
    let same = check_loop [] s in
    if is_open c then pushed else if is_close c then unbalanced none c else same
check_loop (o ∷ stack) (c ∷ s) =
    let pushed = check_loop (c ∷ o ∷ stack) s in
    let popped = check_loop stack s in
    let same = check_loop (o ∷ stack) s in
    if is_open c
    then pushed
    else if is_close c
    then (if close_of o == c then popped else unbalanced (some (close_of o)) c)
    else same

of_code : Option Text → Option Verdict
unfolding check_loop
of_code none = none
of_code (some s) = some (check_loop [] s)

unfoldable pub check_bracket_balance : Text → Lang → Option Verdict
unfolding of_code
check_bracket_balance text bash = some not_applicable
check_bracket_balance text py = of_code (strip_literals py text)
check_bracket_balance text rb = of_code (strip_literals rb text)
check_bracket_balance text other = of_code (strip_literals other text)
