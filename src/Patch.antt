-- ===== src/Patch.antt =====
-- `parseBlocks` of malong/patch-parser.js: the SEARCH/REPLACE blocks in the lines of a text. The source
-- moves one index in three nested loops; here each loop is a mode.
use liu_he.Base.{Bool, true, false, ◌||◌, List, [], ◌∷◌, ◌++◌, if◌then◌else◌}
use liu_he.Base.Text.{Text, codes, ◌===◌, starts_with, trim, split, join}
pub mod Apply
pub mod Matched
pub mod Replaced
pub mod RoundTrip

abbrev pub search_marker : Text
search_marker = codes "<<<<<<< SEARCH"

abbrev pub separator : Text
separator = codes "======="

abbrev pub replace_marker : Text
replace_marker = codes ">>>>>>> REPLACE"

pub record Block : Type 0 where
  pub search : Text
  pub replace : Text

-- `unclosed`: the text ends within a block
pub record Blocks : Type 0 where
  pub blocks : List Block
  pub unclosed : Bool

pub data Mode : Type 0 where
  outside : Mode
  in_search : List Text → Mode
  in_replace : List Text → List Text → Mode

unfoldable pub is_search_marker : Text → Bool
is_search_marker line = trim line === search_marker

unfoldable pub is_separator : Text → Bool
is_separator line = trim line === separator

unfoldable pub is_end : Text → Bool
is_end line = trim line === replace_marker || starts_with (codes ">>>>>>>") (trim line)

abbrev pub add_block : List Text → List Text → Blocks → Blocks
add_block search_lines replace_lines p = record p {
  blocks = record { search = join search_lines; replace = join replace_lines } ∷ p.blocks;
}

unfoldable pub parse_lines : Mode → List Text → Blocks
parse_lines outside [] = record { blocks = []; unclosed = false }
parse_lines (in_search search_lines) [] = record { blocks = []; unclosed = true }
parse_lines (in_replace search_lines replace_lines) [] = record { blocks = []; unclosed = true }
parse_lines outside (line ∷ lines) =
    let entered = parse_lines (in_search []) lines in
    let rest = parse_lines outside lines in if is_search_marker line then entered else rest
parse_lines (in_search search_lines) (line ∷ lines) =
    let ended = parse_lines (in_replace search_lines []) lines in
    let more = parse_lines (in_search (search_lines ++ line ∷ [])) lines in
    if is_separator line then ended else more
parse_lines (in_replace search_lines replace_lines) (line ∷ lines) =
    let rest = parse_lines outside lines in
    let more = parse_lines (in_replace search_lines (replace_lines ++ line ∷ [])) lines in
    if is_end line then add_block search_lines replace_lines rest else more

unfoldable pub parse_blocks : Text → Blocks
parse_blocks text = parse_lines outside (split text)
