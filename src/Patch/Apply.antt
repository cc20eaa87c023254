-- ===== src/Patch/Apply.antt =====
-- `applyBlocks` of malong/patch-parser.js with its two matchers: where a block's search text stands in a
-- text, up to white space, and what replacing it gives.
use liu_he.Base.{
  ℕ, zero, suc, ◌+◌, ◌-◌, min, Bool, true, false, Option, none, some, List, [], ◌∷◌, ◌++◌, map,
  take, drop, length, ltb, ◌==◌, if◌then◌else◌,
}
use liu_he.Base.Text.{Text, ◌===◌, newline, is_space, is_missing, drop_while, trim, split, join}
use liu_he.Patch.{Block}
use liu_he.Transaction.Simulate.{index_of}
use mathlib.Core.List.{reverse}

-- every line end becomes a newline; the test says whether a carriage return was just read
abbrev pub unify_ends : Bool → Text → Text
unify_ends after [] = []
unify_ends after (c ∷ s) =
    let behind = unify_ends true s in
    let rest = unify_ends false s in
    if c == 13
    then newline ∷ behind
    else if c == newline
    then (if after then rest else c ∷ rest)
    else c ∷ rest

abbrev trim_end : Text → Text
trim_end line = reverse (drop_while is_space (reverse line))

unfoldable pub normalize_whitespace : Text → Text
normalize_whitespace text = join (map trim_end (split (unify_ends false text)))

-- every run of white space is one blank; the test says whether one was just read
abbrev collapse : Bool → Text → Text
collapse after [] = []
collapse after (c ∷ s) =
    let inside = collapse true s in
    let outside = collapse false s in
    if is_space c then (if after then inside else 32 ∷ inside) else c ∷ outside

unfoldable pub fuzzy_normalize : Text → Text
fuzzy_normalize text = trim (collapse false (unify_ends false text))

pub record Range : Type 0 where
  pub start : ℕ
  pub end : ℕ

-- `content.slice(start, end)`
abbrev pub slice : Text → Range → Text
slice content r = drop r.start (take r.end content)

abbrev distance : ℕ → ℕ → ℕ
distance a b = a - b + (b - a)

module _ (normalize : Text → Text) (content : Text) (target : Text) where
  -- the inner loop, of so many ends
  unfoldable pub find_end : ℕ → ℕ → ℕ → Option Range
  find_end zero start end = none
  find_end (suc n) start end =
      let later = find_end n start (suc end) in
      if normalize (slice content (record { start = start; end = end })) === target
      then some (record { start = start; end = end })
      else later

  abbrev pub or_later : Option Range → Option Range → Option Range
  or_later none later = later
  or_later (some r) _ = some r

  -- the ends from a start and the length of the search text
  abbrev pub find_from : ℕ → ℕ → Option Range
  find_from len start =
      find_end (suc (min (length content) (start + len + 64)) - (start + len)) start (start + len)

  -- the outer loop, of so many starts; `ahead` is the start with the window added
  unfoldable pub find_start : ℕ → ℕ → ℕ → ℕ → Option Range
  find_start zero window len ahead = none
  find_start (suc n) window len ahead =
      let later = find_start n window len (suc ahead) in
      if ltb ahead window
      then later
      else if ltb (length content) (ahead - window)
      then later
      else or_later (find_from len (ahead - window)) later

abbrev pub find_near : (Text → Text) → Text → Text → ℕ → Option ℕ → Option Range
find_near normalize content search window none = none
find_near normalize content search window (some idx) =
    find_start normalize content (normalize search) (suc (window + window)) window (length search)
      idx

-- both matchers, which differ in how they normalise and in their window
unfoldable pub find_match : (Text → Text) → ℕ → Text → Text → Option Range
find_match normalize slack content search =
    find_near normalize content search
      (slack + distance (length (normalize search)) (length search))
      (index_of (normalize search) (normalize content))

unfoldable pub find_exact_match : Text → Text → Option Range
find_exact_match content search = find_match normalize_whitespace 5 content search

unfoldable pub find_fuzzy_match : Text → Text → Option Range
find_fuzzy_match content search = find_match fuzzy_normalize 20 content search

pub data Method : Type 0 where
  inserted exact fuzzy : Method

pub record Patched : Type 0 where
  pub result : Text
  pub applied : List (Block × Method)
  pub errors : List Block

abbrev pub replace_range : Text → Range → Text → Text
replace_range content r new = take r.start content ++ new ++ drop r.end content

abbrev pub append_block : Patched → Block → Patched
append_block p block = record {
  result = p.result ++ newline ∷ block.replace;
  applied = p.applied ++ ((record { search = []; replace = block.replace }, inserted) ∷ []);
  errors = p.errors;
}

abbrev pub replace_block : Patched → Block → Method → Range → Patched
replace_block p block method r = record {
  result = replace_range p.result r block.replace;
  applied = p.applied ++ ((block, method) ∷ []);
  errors = p.errors;
}

-- what the two matchers found
abbrev pub apply_found : Patched → Block → Option Range → Option Range → Patched
apply_found p block (some r) _ = replace_block p block exact r
apply_found p block none (some r) = replace_block p block fuzzy r
apply_found p block none none = record p { errors = p.errors ++ (block ∷ []) }

unfoldable pub apply_block : Patched → Block → Patched
apply_block p block =
    if is_missing (trim block.search)
    then append_block p block
    else apply_found p block (find_exact_match p.result block.search)
        (find_fuzzy_match p.result block.search)

unfoldable pub apply_from : Patched → List Block → Patched
apply_from p [] = p
apply_from p (block ∷ blocks) = apply_from (apply_block p block) blocks

unfoldable pub apply_blocks : Text → List Block → Patched
apply_blocks content blocks =
    apply_from (record { result = content; applied = []; errors = [] }) blocks
