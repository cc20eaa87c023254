-- ===== src/Symbols/Parents.antt =====
-- The map of parents: a parent starts on an earlier line and reaches the first line of its child.
use liu_he.Base.{
  ℕ, ◌≤◌, ◌<◌, ◌≡◌, inl, inr, refl, Bool-cases, List, [], ◌∷◌, All, All-self, In, ltb, ◌==◌, arith,
}
use liu_he.Base.Sort.{insert_by, sort_by-All}
use liu_he.Symbols.{
  Symbol, is_before, is_behind, sort_symbols, pop_ended, set_parent, parent_loop, build_parent_map,
}

-- the entry names a symbol and one around it
pub record IsParent (symbols : List Symbol) (entry : ℕ × ℕ) : Type 0 where
  pub child : Symbol
  pub parent : Symbol
  pub child_in : In child symbols
  pub parent_in : In parent symbols
  pub child_id : child.id ≡ entry.0
  pub parent_id : parent.id ≡ entry.1
  pub starts_earlier : parent.start_line < child.start_line
  pub reaches : child.start_line ≤ parent.end_line

-- the symbols start in order, from a line on
abbrev pub IsSortedFrom : ℕ → List Symbol → Type 0
IsSortedFrom line [] = Unit
IsSortedFrom line (s ∷ symbols) = (line ≤ s.start_line) × IsSortedFrom s.start_line symbols

insert-IsSortedFrom :
    (line : ℕ) (s : Symbol) (symbols : List Symbol)
    → line ≤ s.start_line
    → IsSortedFrom line symbols
    → IsSortedFrom line (insert_by is_behind s symbols)
insert-IsSortedFrom line s [] l h = (l, tt)
insert-IsSortedFrom line s (t ∷ symbols) l h = elim (Bool-cases (is_before t s)) [
  | inl e ↦ rw e (h.0, insert-IsSortedFrom t.start_line s symbols (ground arith) h.1)
  | inr e ↦ rw e (l, (ground arith, h.1))
]

sort-IsSortedFrom : (symbols : List Symbol) → IsSortedFrom 0 (sort_symbols symbols)
sort-IsSortedFrom [] = tt
sort-IsSortedFrom (s ∷ symbols) =
    insert-IsSortedFrom 0 s (sort_symbols symbols) (omega arith) (sort-IsSortedFrom symbols)

module _ (symbols : List Symbol) where
  -- the stack at a line: symbols that have started
  abbrev IsOpened : ℕ → Symbol → Type 0
  IsOpened line s = In s symbols × (s.start_line ≤ line)

  later-IsOpened :
      (line next : ℕ) (stack : List Symbol)
      → line ≤ next
      → All (IsOpened line) stack
      → All (IsOpened next) stack
  later-IsOpened line next [] l h = tt
  later-IsOpened line next (s ∷ stack) l h =
      ((h.0.0, omega arith), later-IsOpened line next stack l h.1)

  abbrev TopReaches : ℕ → List Symbol → Type 0
  TopReaches line [] = Unit
  TopReaches line (top ∷ stack) = line ≤ top.end_line

  pop-IsOpened :
      (line : ℕ) (stack : List Symbol)
      → All (IsOpened line) stack
      → All (IsOpened line) (pop_ended line stack) × TopReaches line (pop_ended line stack)
  unfolding pop_ended
  pop-IsOpened line [] h = (tt, tt)
  pop-IsOpened line (top ∷ stack) h = elim (Bool-cases (ltb top.end_line line)) [
    | inl e ↦ rw e (pop-IsOpened line stack h.1)
    | inr e ↦ rw e (h, (ground arith))
  ]

  set-IsParent :
      (s : Symbol) (stack : List Symbol) (parents : List (ℕ × ℕ))
      → In s symbols
      → All (IsOpened s.start_line) stack
      → TopReaches s.start_line stack
      → All (IsParent symbols) parents
      → All (IsParent symbols) (set_parent s stack parents)
  set-IsParent s [] parents i o t h = h
  set-IsParent s (top ∷ stack) parents i o t h =
      elim (Bool-cases (top.start_line == s.start_line)) [
        | inl e ↦ rw e h
        | inr e ↦ rw e (
          record {
            child = s;
            parent = top;
            child_in = i;
            parent_in = o.0.0;
            child_id = refl;
            parent_id = refl;
            starts_earlier = ground arith;
            reaches = t;
          },
          h,
        )
      ]

  loop-IsParent :
      (line : ℕ) (stack : List Symbol) (parents : List (ℕ × ℕ)) (rest : List Symbol)
      → All (IsOpened line) stack
      → IsSortedFrom line rest
      → All (λ (s : Symbol). In s symbols) rest
      → All (IsParent symbols) parents
      → All (IsParent symbols) (parent_loop stack parents rest)
  unfolding parent_loop
  loop-IsParent line stack parents [] o sorted inside h = h
  loop-IsParent line stack parents (s ∷ rest) o sorted inside h =
      let popped =
        pop-IsOpened s.start_line stack (later-IsOpened line s.start_line stack sorted.0 o) in
      loop-IsParent s.start_line (s ∷ pop_ended s.start_line stack)
        (set_parent s (pop_ended s.start_line stack) parents) rest
        ((inside.0, omega arith), popped.0) sorted.1 inside.1
        (set-IsParent s (pop_ended s.start_line stack) parents inside.0 popped.0 popped.1 h)

-- Each entry of the map names two symbols of the file, of which the parent starts on an earlier line than
-- the child and does not end before the child starts.
pub build_parent_map-IsParent :
    (symbols : List Symbol) → All (IsParent symbols) (build_parent_map symbols)
unfolding build_parent_map
build_parent_map-IsParent symbols =
    loop-IsParent symbols 0 [] [] (sort_symbols symbols) tt (sort-IsSortedFrom symbols)
      (sort_by-All is_behind (λ (s : Symbol). In s symbols) symbols (All-self symbols)) tt
