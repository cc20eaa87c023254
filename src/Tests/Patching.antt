-- ===== src/Tests/Patching.antt =====
-- Blocks that are parsed, and blocks that are printed and parsed.
use liu_he.Base.{◌≡◌, refl, true, false, [], ◌∷◌, map, List, length}
use liu_he.Base.Text.{codes, split, join, trim, is_space}
use liu_he.Patch.{Block, parse_blocks, parse_lines, outside, is_search_marker, is_separator, is_end}
use liu_he.Patch.Apply.{
  apply_blocks, apply_from, apply_block, find_exact_match, find_fuzzy_match, find_match, find_start,
  find_end, normalize_whitespace, fuzzy_normalize,
}
use liu_he.Patch.Replaced.{Runs, apply_blocks-Runs}
use liu_he.Transaction.Simulate.{index_of}
use liu_he.Patch.RoundTrip.{Lines, IsPlain, print_blocks, block_of, parse_lines-print_blocks}

-- a text that ends within a block
cut_off : (parse_blocks (codes "x\n<<<<<<< SEARCH\na\n=======\nb")).unclosed ≡ true
unfolding parse_blocks parse_lines is_search_marker is_separator is_end trim split
cut_off = refl

abbrev swap : Lines
swap = record { search_lines = codes "a" ∷ codes "b" ∷ []; replace_lines = codes "b" ∷ [] }

abbrev clear : Lines
clear = record { search_lines = codes "c" ∷ []; replace_lines = [] }

swap-IsPlain : IsPlain swap
unfolding is_separator is_end trim
swap-IsPlain = ((refl, (refl, tt)), (refl, tt))

clear-IsPlain : IsPlain clear
unfolding is_separator is_end trim
clear-IsPlain = ((refl, tt), tt)

done_is_outside : is_search_marker (codes "done") ≡ false
unfolding is_search_marker trim
done_is_outside = refl

parse_lines-print_blocks_example :
    parse_lines outside (print_blocks (swap ∷ clear ∷ []) (codes "done" ∷ []))
    ≡ record { blocks = map block_of (swap ∷ clear ∷ []); unclosed = false }
parse_lines-print_blocks_example =
    parse_lines-print_blocks (swap ∷ clear ∷ []) (codes "done" ∷ [])
      (swap-IsPlain, (clear-IsPlain, tt)) (done_is_outside, tt)

abbrev loose : Block
loose = record { search = codes "foo bar"; replace = codes "X" }

abbrev added : Block
added = record { search = codes " "; replace = codes "Y" }

abbrev absent : Block
absent = record { search = codes "zzz"; replace = codes "Z" }

abbrev three_blocks : List Block
three_blocks = loose ∷ added ∷ absent ∷ []

-- the loose match takes the empty line before it along
patched : (apply_blocks (codes "a\n\nfoo  bar") three_blocks).result ≡ codes "aX\nY"
unfolding apply_blocks apply_from apply_block find_exact_match find_fuzzy_match find_match
    find_start find_end normalize_whitespace fuzzy_normalize index_of split join trim is_space
patched = refl

apply_blocks-Runs_example :
    Runs
      (codes "a\n\nfoo  bar")
      three_blocks
      (apply_blocks (codes "a\n\nfoo  bar") three_blocks).result
      (length (apply_blocks (codes "a\n\nfoo  bar") three_blocks).errors)
apply_blocks-Runs_example = apply_blocks-Runs (codes "a\n\nfoo  bar") three_blocks
