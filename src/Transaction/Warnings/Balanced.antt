-- ===== src/Transaction/Warnings/Balanced.antt =====
-- A text has no warning exactly if the brackets of its code are balanced for the check of
-- malong/write-edit.js.
use liu_he.Base.{
  ℕ, ◌≡◌, ◌≢◌, ◌↔◌, refl, ◌∙◌, inl, inr, Bool, true, false, Bool-cases, Option, none, some, List,
  [], ◌∷◌, ◌++◌, ◌==◌, arith,
}
use liu_he.Base.Text.{Text}
use liu_he.Edit.Brackets.{balanced, is_open, is_close, close_of, check_loop}
use liu_he.Edit.Brackets.Strip.{Lang, hash_is_comment}
use liu_he.Edit.Brackets.Dyck.{IsDyck, check_loop-IsDyck}
use liu_he.Transaction.Warnings.{
  Opened, Mode, in_code, line_comment, block_comment, comment_end, comment_start, in_string,
  escaped, open_of, enter, leave, next_line, match_bracket, enter_or_match, step_of, unclosed,
  unclosed_warnings, warn_loop, bracket_warnings,
}

-- what the text keeps of a code unit, and the mode behind it
abbrev pub kept : ℕ → Mode → Option Mode → Text
kept c in_code none = c ∷ []
kept c _ _ = []

abbrev pub or_code : Option Mode → Mode
or_code none = in_code
or_code (some m) = m

abbrev pub mode_after : Bool → Mode → ℕ → Text → Mode
mode_after hash in_code c s = or_code (enter hash c s)
mode_after hash m c s = leave m c s

-- the text without its strings and comments
unfoldable pub code_of : Bool → Mode → Text → Text
code_of hash m [] = []
code_of hash m (c ∷ s) =
    let rest = code_of hash (mode_after hash m c s) s in kept c m (enter hash c s) ++ rest

append-ne-nil : {A : Type 0} (xs : List A) (y : A) → xs ++ y ∷ [] ≢ []
append-ne-nil [] y e = cc
append-ne-nil (x ∷ xs) y e = cc

chars : List Opened → Text
chars [] = []
chars (o ∷ stack) = o.char ∷ chars stack

IsOpened : List Opened → Type 0
IsOpened [] = Unit
IsOpened (o ∷ stack) = (is_open o.char ≡ true) × IsOpened stack

close-open : (o c : ℕ) → is_open o ≡ true → is_close c ≡ true → (close_of o == c) ≡ (o == open_of c)
close-open o c h k = ground arith

Iff-refused : {A B : Type 0} → (A → ⊥) → (B → ⊥) → A ↔ B
Iff-refused h k = (λ a. absurd (h a), λ b. absurd (k b))

-- both go on with the same stack and the same text
abbrev Agrees : Bool → ℕ → Mode → List Opened → Text → Type 0
Agrees hash line m stack s =
    (warn_loop hash line m stack s ≡ []) ↔ (check_loop (chars stack) (code_of hash m s) ≡ balanced)

abbrev Later : Bool → Text → Type 0
Later hash s =
    (line : ℕ) (m : Mode) (stack : List Opened) → IsOpened stack → Agrees hash line m stack s

match-Agrees :
    (hash : Bool) (line next c : ℕ) (stack : List Opened) (s : Text)
    → IsOpened stack
    → Later hash s
    → let step = match_bracket line c stack in
      (step.warnings ++ warn_loop hash next step.mode step.stack s ≡ [])
      ↔ (check_loop (chars stack) (c ∷ code_of hash in_code s) ≡ balanced)
unfolding match_bracket check_loop chars IsOpened
match-Agrees hash line next c [] s o later = elim (Bool-cases (is_open c)) [
  | inl e ↦ rw e (later next in_code (record { char = c; line = line } ∷ []) (e, tt))
  | inr e ↦ elim (Bool-cases (is_close c)) [
    | inl k ↦ rw (e, k) (Iff-refused (λ x. cc) (λ x. cc))
    | inr k ↦ rw (e, k) (later next in_code [] tt)
  ]
]
match-Agrees hash line next c (t ∷ stack) s o later = elim (Bool-cases (is_open c)) [
  | inl e ↦ rw e (later next in_code (record { char = c; line = line } ∷ t ∷ stack) (e, o))
  | inr e ↦ elim (Bool-cases (is_close c)) [
    | inl k ↦ elim (Bool-cases (t.char == open_of c)) [
      | inl f ↦
          let g : (close_of t.char == c) ≡ true = close-open t.char c o.0 k ∙ f in
          simp (e, k, f, g) (later next in_code stack o.1)
      | inr f ↦
          let g : (close_of t.char == c) ≡ false = close-open t.char c o.0 k ∙ f in
          simp (e, k, f, g) (Iff-refused (λ x. cc) (λ x. cc))
    ]
    | inr k ↦ rw (e, k) (later next in_code (t ∷ stack) o)
  ]
]

code-Agrees :
    (hash : Bool) (line next c : ℕ) (stack : List Opened) (o : Option Mode) (s : Text)
    → IsOpened stack
    → Later hash s
    → let step = enter_or_match line c stack o in
      (step.warnings ++ warn_loop hash next step.mode step.stack s ≡ [])
      ↔ (check_loop (chars stack) (kept c in_code o ++ code_of hash (or_code o) s) ≡ balanced)
code-Agrees hash line next c stack none s opened later =
    match-Agrees hash line next c stack s opened later
code-Agrees hash line next c stack (some m) s opened later = later next m stack opened

end-Agrees : (hash : Bool) (line : ℕ) (m : Mode) (stack : List Opened) → Agrees hash line m stack []
unfolding warn_loop check_loop code_of chars
end-Agrees hash line m [] = (λ h. refl, λ h. refl)
end-Agrees hash line m (o ∷ stack) =
    Iff-refused (append-ne-nil (unclosed_warnings stack) (unclosed o)) (λ x. cc)

warn_loop-Agrees : (hash : Bool) (s : Text) → Later hash s
unfolding warn_loop code_of step_of
warn_loop-Agrees hash [] line m stack o = end-Agrees hash line m stack
warn_loop-Agrees hash (c ∷ s) line in_code stack o =
    code-Agrees hash line (next_line line c) c stack (enter hash c s) s o (warn_loop-Agrees hash s)
warn_loop-Agrees hash (c ∷ s) line line_comment stack o =
    warn_loop-Agrees hash s (next_line line c) (leave line_comment c s) stack o
warn_loop-Agrees hash (c ∷ s) line block_comment stack o =
    warn_loop-Agrees hash s (next_line line c) (leave block_comment c s) stack o
warn_loop-Agrees hash (c ∷ s) line comment_end stack o =
    warn_loop-Agrees hash s (next_line line c) (leave comment_end c s) stack o
warn_loop-Agrees hash (c ∷ s) line comment_start stack o =
    warn_loop-Agrees hash s (next_line line c) (leave comment_start c s) stack o
warn_loop-Agrees hash (c ∷ s) line (in_string q) stack o =
    warn_loop-Agrees hash s (next_line line c) (leave (in_string q) c s) stack o
warn_loop-Agrees hash (c ∷ s) line (escaped q) stack o =
    warn_loop-Agrees hash s (next_line line c) (leave (escaped q) c s) stack o

-- A transaction reports no bracket of a text exactly if what the text keeps without its strings and
-- comments is well-bracketed.
pub bracket_warnings-IsDyck :
    (content : Text) (lang : Lang)
    → (bracket_warnings content lang ≡ []) ↔ IsDyck (code_of (hash_is_comment lang) in_code content)
unfolding bracket_warnings chars IsOpened
bracket_warnings-IsDyck content lang =
    let agrees = warn_loop-Agrees (hash_is_comment lang) content 1 in_code [] tt in
    let dyck = check_loop-IsDyck (code_of (hash_is_comment lang) in_code content) in
    (λ h. dyck.0 (agrees.0 h), λ d. agrees.1 (dyck.1 d))
