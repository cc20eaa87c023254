-- ===== src/Patch/RoundTrip.antt =====
-- What is written as a block is read as that block.
use liu_he.Base.{◌≡◌, refl, sym, ap, ◌∙◌, true, false, List, [], ◌∷◌, ◌++◌, map, All}
use liu_he.Base.Text.{Text, trim, join}
use mathlib.Core.List.{append_assoc, append-nil}
use liu_he.Patch.{
  Block, outside, in_search, in_replace, is_search_marker, is_separator, is_end, parse_lines,
  add_block, search_marker, separator, replace_marker,
}

-- a block by its lines
pub record Lines : Type 0 where
  pub search_lines : List Text
  pub replace_lines : List Text

-- no line of a part is one that ends it
abbrev pub IsPlain : Lines → Type 0
IsPlain b =
    All (λ (l : Text). is_separator l ≡ false) b.search_lines
    × All (λ (l : Text). is_end l ≡ false) b.replace_lines

-- The protocol's format, one block after the other, and the lines `rest` after the last.
abbrev pub print_blocks : List Lines → List Text → List Text
print_blocks [] rest = rest
print_blocks (b ∷ bs) rest =
    search_marker
    ∷ (b.search_lines ++ (separator ∷ (b.replace_lines ++ (replace_marker ∷ print_blocks bs rest))))

abbrev pub block_of : Lines → Block
block_of b = record { search = join b.search_lines; replace = join b.replace_lines }

-- the text around the blocks, which has no block of its own
abbrev IsOutside : List Text → Type 0
IsOutside lines = All (λ (l : Text). is_search_marker l ≡ false) lines

search_part :
    (seen lines rest : List Text)
    → All (λ (l : Text). is_separator l ≡ false) lines
    → is_separator separator ≡ true
    → parse_lines (in_search seen) (lines ++ separator ∷ rest)
      ≡ parse_lines (in_replace (seen ++ lines) []) rest
unfolding parse_lines
search_part seen [] rest h s =
    rw s (ap (λ (l : List Text). parse_lines (in_replace l []) rest) (sym (append-nil seen)))
search_part seen (l ∷ lines) rest h s = rw h.0 (
    search_part (seen ++ l ∷ []) lines rest h.1 s
    ∙ ap (λ (x : List Text). parse_lines (in_replace x []) rest) (append_assoc seen (l ∷ []) lines))

replace_part :
    (search seen lines rest : List Text)
    → All (λ (l : Text). is_end l ≡ false) lines
    → is_end replace_marker ≡ true
    → parse_lines (in_replace search seen) (lines ++ replace_marker ∷ rest)
      ≡ add_block search (seen ++ lines) (parse_lines outside rest)
unfolding parse_lines
replace_part search seen [] rest h s =
    rw s (
      ap (λ (l : List Text). add_block search l (parse_lines outside rest)) (sym (append-nil seen)))
replace_part search seen (l ∷ lines) rest h s = rw h.0 (
    replace_part search (seen ++ l ∷ []) lines rest h.1 s
    ∙ ap (λ (x : List Text). add_block search x (parse_lines outside rest))
        (append_assoc seen (l ∷ []) lines))

markers :
    (is_search_marker search_marker ≡ true)
    × (is_separator separator ≡ true)
    × (is_end replace_marker ≡ true)
unfolding is_search_marker is_separator is_end trim
markers = (refl, refl, refl)

printed_block :
    (b : Lines) (rest : List Text)
    → IsPlain b
    → parse_lines outside (
        search_marker
        ∷ (b.search_lines ++ (separator ∷ (b.replace_lines ++ (replace_marker ∷ rest)))))
      ≡ add_block b.search_lines b.replace_lines (parse_lines outside rest)
unfolding parse_lines
printed_block b rest h =
    let tail = b.replace_lines ++ replace_marker ∷ rest in
    rw markers.0 (
      search_part [] b.search_lines tail h.0 markers.1
      ∙ replace_part b.search_lines [] b.replace_lines rest h.1 markers.2)

outside_text :
    (lines : List Text)
    → IsOutside lines
    → parse_lines outside lines ≡ record { blocks = []; unclosed = false }
unfolding parse_lines
outside_text [] h = refl
outside_text (l ∷ lines) h = rw h.0 (outside_text lines h.1)

-- Blocks that are printed in the protocol's format, and followed by text without a start marker, are
-- read back in their order with both of their parts, if no line of a part is one that ends it, and
-- no block is reported as unclosed.
pub parse_lines-print_blocks :
    (bs : List Lines) (rest : List Text)
    → All IsPlain bs
    → All (λ (l : Text). is_search_marker l ≡ false) rest
    → parse_lines outside (print_blocks bs rest)
      ≡ record { blocks = map block_of bs; unclosed = false }
parse_lines-print_blocks [] rest plain after = outside_text rest after
parse_lines-print_blocks (b ∷ bs) rest plain after =
    printed_block b (print_blocks bs rest) plain.0
    ∙ ap (add_block b.search_lines b.replace_lines) (parse_lines-print_blocks bs rest plain.1 after)
