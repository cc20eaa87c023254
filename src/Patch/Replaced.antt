-- ===== src/Patch/Replaced.antt =====
-- What a patch does: a block is put in the place of a part of the text that equals its search text up to
-- white space, and what is around it stays.
use liu_he.Base.{
  ℕ, zero, suc, ◌+◌, ◌≤◌, ◌≡◌, ◌≢◌, refl, sym, ap, subst, ◌⊎◌, length-append, take-append-drop,
  true, false, inl, inr, Option, none, some, List, [], ◌∷◌, ◌++◌, take, drop, length, arith,
}
use liu_he.Base.Text.{Text, newline, is_missing, missing-cases, trim}
use liu_he.Patch.{Block}
use liu_he.Patch.Apply.{
  Range, slice, find_exact_match, find_fuzzy_match, normalize_whitespace, fuzzy_normalize, Patched,
  replace_range, append_block, apply_found, apply_block, apply_from, apply_blocks,
}
use liu_he.Patch.Matched.{IsMatched, exact-IsMatched, fuzzy-IsMatched}

slices :
    (start end : ℕ) (text : Text)
    → start ≤ end
    → take start text ++ drop start (take end text) ++ drop end text ≡ text
slices zero end text l = take-append-drop end text
slices (suc start) zero text l = absurd (omega (arith, l))
slices (suc start) (suc end) [] l = refl
slices (suc start) (suc end) (c ∷ text) l =
    ap (λ (t : Text). c ∷ t) (slices start end text (omega (arith, l)))

-- a text, and what is left of it when a range is taken out
slice_between :
    (content : Text) (r : Range)
    → r.start ≤ r.end
    → take r.start content ++ slice content r ++ drop r.end content ≡ content
slice_between content r l = slices r.start r.end content l

-- `Runs content blocks result missed`: from `content`, the blocks one after the other give `result`, and
-- `missed` of them are not found
pub data Runs : Text → List Block → Text → ℕ → Type 0 where
  finished : (content : Text) → Runs content [] content 0
  appended :
      (content result : Text) (block : Block) (blocks : List Block) (missed : ℕ)
      → trim block.search ≡ []
      → Runs (content ++ newline ∷ block.replace) blocks result missed
      → Runs content (block ∷ blocks) result missed
  put :
      (before part behind result : Text) (block : Block) (blocks : List Block) (missed : ℕ)
      → trim block.search ≢ []
      → (normalize_whitespace part ≡ normalize_whitespace block.search)
        ⊎ (fuzzy_normalize part ≡ fuzzy_normalize block.search)
      → Runs (before ++ block.replace ++ behind) blocks result missed
      → Runs (before ++ part ++ behind) (block ∷ blocks) result missed
  not_found :
      (content result : Text) (block : Block) (blocks : List Block) (missed : ℕ)
      → trim block.search ≢ []
      → find_exact_match content block.search ≡ none
      → find_fuzzy_match content block.search ≡ none
      → Runs content blocks result missed
      → Runs content (block ∷ blocks) result (suc missed)

-- a run that starts with a part of the text replaced
put_at :
    (content result : Text) (r : Range) (block : Block) (blocks : List Block) (missed : ℕ)
    → trim block.search ≢ []
    → r.start ≤ r.end
    → (normalize_whitespace (slice content r) ≡ normalize_whitespace block.search)
      ⊎ (fuzzy_normalize (slice content r) ≡ fuzzy_normalize block.search)
    → Runs (replace_range content r block.replace) blocks result missed
    → Runs content (block ∷ blocks) result missed
put_at content result r block blocks missed named l same run =
    subst (λ (t : Text). Runs t (block ∷ blocks) result missed) (slice_between content r l)
      (put (take r.start content) (slice content r) (drop r.end content) result block blocks missed
        named same run)

-- the blocks are run from `p`, and those that are missed are added to its errors
abbrev Continues : Patched → List Block → Patched → Type 0
Continues p blocks q =
    (missed : ℕ) × Runs p.result blocks q.result missed
    × (length q.errors ≡ length p.errors + missed)

continue_found :
    (p : Patched) (block : Block) (blocks : List Block) (e f : Option Range)
    → trim block.search ≢ []
    → find_exact_match p.result block.search ≡ e
    → find_fuzzy_match p.result block.search ≡ f
    → Continues (apply_found p block e f) blocks (apply_from (apply_found p block e f) blocks)
    → Continues p (block ∷ blocks) (apply_from (apply_found p block e f) blocks)
continue_found p block blocks (some r) f named ee ef (missed, run, count) =
    let m : IsMatched normalize_whitespace p.result (normalize_whitespace block.search) (some r) =
      subst
        (λ (o : Option Range).
          IsMatched normalize_whitespace p.result (normalize_whitespace block.search) o)
        ee (exact-IsMatched p.result block.search) in
    (missed, put_at p.result _ r block blocks missed named m.in_order (inl m.same) run, count)
continue_found p block blocks none (some r) named ee ef (missed, run, count) =
    let m : IsMatched fuzzy_normalize p.result (fuzzy_normalize block.search) (some r) =
      subst
        (λ (o : Option Range). IsMatched fuzzy_normalize p.result (fuzzy_normalize block.search) o)
        ef (fuzzy-IsMatched p.result block.search) in
    (missed, put_at p.result _ r block blocks missed named m.in_order (inr m.same) run, count)
continue_found p block blocks none none named ee ef (missed, run, count) = (
  suc missed,
  not_found p.result _ block blocks missed named ee ef run,
  omega (arith, count, length-append p.errors (block ∷ [])),
)

apply_block-empty :
    (p : Patched) (block : Block)
    → is_missing (trim block.search) ≡ true
    → apply_block p block ≡ append_block p block
unfolding apply_block
apply_block-empty p block e = rw e refl

apply_block-found :
    (p : Patched) (block : Block)
    → is_missing (trim block.search) ≡ false
    → apply_block p block
      ≡ apply_found p block
          (find_exact_match p.result block.search)
          (find_fuzzy_match p.result block.search)
unfolding apply_block
apply_block-found p block e = rw e refl

continue_from : (p : Patched) (blocks : List Block) → Continues p blocks (apply_from p blocks)
unfolding apply_from
continue_from p [] = (0, finished p.result, omega arith)
continue_from p (block ∷ blocks) = elim (missing-cases (trim block.search)) [
  | inl (e, empty) ↦
      let (missed, run, count) = continue_from (append_block p block) blocks in
      subst (λ (q : Patched). Continues p (block ∷ blocks) (apply_from q blocks))
        (sym (apply_block-empty p block e))
        (missed, appended p.result _ block blocks missed empty run, count)
  | inr (e, named) ↦
      subst (λ (q : Patched). Continues p (block ∷ blocks) (apply_from q blocks))
        (sym (apply_block-found p block e))
        (continue_found p block blocks (find_exact_match p.result block.search)
          (find_fuzzy_match p.result block.search) named refl refl
          (continue_from
            (apply_found p block (find_exact_match p.result block.search)
              (find_fuzzy_match p.result block.search))
            blocks))
]

-- Applying blocks takes them one after the other: a block without search text is appended behind a
-- newline, another one takes the place of a part of the text that equals its search text up to white
-- space while the rest stays, and one that neither matcher finds changes nothing. The errors are as many
-- as the blocks of the last kind.
pub apply_blocks-Runs :
    (content : Text) (blocks : List Block)
    → Runs content blocks
        (apply_blocks content blocks).result
        (length (apply_blocks content blocks).errors)
unfolding apply_blocks
apply_blocks-Runs content blocks =
    let start : Patched = record { result = content; applied = []; errors = [] } in
    let (missed, run, count) = continue_from start blocks in
    subst (λ (n : ℕ). Runs content blocks (apply_from start blocks).result n) (omega (arith, count))
      run
