-- ===== src/Symbols.antt =====
-- Symbols of a file in malong/symbol-anchors.js: which one stands within which, and the qualified name
-- that follows from it.
use liu_he.Base.{
  ℕ, zero, suc, Bool, true, false, ◌&&◌, ◌||◌, not, Option, none, some, List, [], ◌∷◌, ◌++◌, any,
  ltb, ◌==◌, if◌then◌else◌,
}
use liu_he.Base.Text.{Text}
use liu_he.Base.Sort.{sort_by}
pub mod Parents
pub mod Names

pub record Symbol : Type 0 where
  pub id : ℕ
  pub name : Text
  pub start_line : ℕ
  pub end_line : ℕ

-- the order by first line, then by last line
abbrev pub is_before : Symbol → Symbol → Bool
is_before a b =
    ltb a.start_line b.start_line || a.start_line == b.start_line && ltb a.end_line b.end_line

abbrev pub is_behind : Symbol → Symbol → Bool
is_behind s t = is_before t s

abbrev pub sort_symbols : List Symbol → List Symbol
sort_symbols symbols = sort_by is_behind symbols

-- the stack, whose top comes first, without those that end above the line
unfoldable pub pop_ended : ℕ → List Symbol → List Symbol
pop_ended line [] = []
pop_ended line (top ∷ stack) =
    let rest = pop_ended line stack in if ltb top.end_line line then rest else top ∷ stack

-- the map of parents, the latest entry first
abbrev pub set_parent : Symbol → List Symbol → List (ℕ × ℕ) → List (ℕ × ℕ)
set_parent s [] parents = parents
set_parent s (top ∷ stack) parents =
    if top.start_line == s.start_line then parents else (s.id, top.id) ∷ parents

unfoldable pub parent_loop : List Symbol → List (ℕ × ℕ) → List Symbol → List (ℕ × ℕ)
parent_loop stack parents [] = parents
parent_loop stack parents (s ∷ symbols) =
    let open_ones = pop_ended s.start_line stack in
    parent_loop (s ∷ open_ones) (set_parent s open_ones parents) symbols

unfoldable pub build_parent_map : List Symbol → List (ℕ × ℕ)
build_parent_map symbols = parent_loop [] [] (sort_symbols symbols)

abbrev pub lookup : ℕ → List (ℕ × ℕ) → Option ℕ
lookup i [] = none
lookup i ((k, v) ∷ entries) = let rest = lookup i entries in if k == i then some v else rest

-- `byId`, where the last symbol of an id counts
abbrev pub or_found : Option Symbol → Option Symbol → Option Symbol
or_found none s = s
or_found (some t) s = some t

unfoldable pub by_id : ℕ → List Symbol → Option Symbol
by_id i [] = none
by_id i (s ∷ symbols) = or_found (by_id i symbols) (if s.id == i then some s else none)

abbrev pub parent_symbol : List Symbol → Option ℕ → Option Symbol
parent_symbol symbols none = none
parent_symbol symbols (some i) = by_id i symbols

-- the names from the outermost symbol to the current one; each round takes one unit of fuel
unfoldable pub name_chain :
    ℕ → List Symbol → List (ℕ × ℕ) → List ℕ → List Text → Option Symbol → Option (List Text)
name_chain fuel symbols parents seen chain none = some chain
name_chain zero symbols parents seen chain (some cur) = none
name_chain (suc fuel) symbols parents seen chain (some cur) =
    let rest =
      name_chain fuel symbols parents (cur.id ∷ seen) (cur.name ∷ chain)
        (parent_symbol symbols (lookup cur.id parents)) in
    if any (λ i. i == cur.id) seen then some chain else rest

unfoldable pub join_dots : List Text → Text
join_dots [] = []
join_dots (n ∷ []) = n
join_dots (n ∷ m ∷ names) = n ++ b'.' ∷ join_dots (m ∷ names)

abbrev pub dotted : Option (List Text) → Option Text
dotted none = none
dotted (some names) = some (join_dots names)

-- A parent starts on an earlier line, so there are no more rounds than lines.
unfoldable pub build_qualified_name : List Symbol → List (ℕ × ℕ) → Symbol → Option Text
build_qualified_name symbols parents sym =
    dotted (name_chain (suc sym.start_line) symbols parents [] [] (some sym))
