-- ===== src/Symbols/Names.antt =====
-- The walk from a symbol to the outermost one around it ends.
use liu_he.Base.{
  In, ℕ, zero, suc, ◌<◌, ◌≡◌, inl, inr, refl, sym, ap, ◌∙◌, Bool-cases, none, some, Option-cases,
  List, [], ◌∷◌, All, any, ◌==◌, ==_iff, if◌then◌else◌, arith,
}
use liu_he.Base.Text.{Text}
use liu_he.Symbols.{
  Symbol, lookup, by_id, parent_symbol, name_chain, join_dots, build_parent_map,
  build_qualified_name,
}
use liu_he.Symbols.Parents.{IsParent, build_parent_map-IsParent}

-- no two symbols have one id
abbrev pub HasUniqueIds : List Symbol → Type 0
HasUniqueIds symbols = (a b : Symbol) → In a symbols → In b symbols → a.id ≡ b.id → a ≡ b

by_id-In :
    (i : ℕ) (symbols : List Symbol) (s : Symbol)
    → by_id i symbols ≡ some s
    → In s symbols × (s.id ≡ i)
unfolding by_id
by_id-In i [] s h = cc
by_id-In i (t ∷ symbols) s h = elim (Option-cases (by_id i symbols)) [
  | inr (u, e) ↦
      let k : some u ≡ some s = rw e at h in
      let same : u ≡ s = cc in let r = by_id-In i symbols s (e ∙ k) in (inr r.0, r.1)
  | inl e ↦
      let k : (if t.id == i then some t else none) ≡ some s = rw e at h in
      elim (Bool-cases (t.id == i)) [
        | inl f ↦
            let x : some t ≡ some s = simp f at k in
            let same : s ≡ t = cc in
            (inl same, ap (λ (z : Symbol). z.id) same ∙ (==_iff t.id i).0 f)
        | inr f ↦ let x : none ≡ some s = simp f at k in cc
      ]
]

lookup-IsParent :
    (symbols : List Symbol) (i j : ℕ) (entries : List (ℕ × ℕ))
    → All (IsParent symbols) entries
    → lookup i entries ≡ some j
    → IsParent symbols (i, j)
lookup-IsParent symbols i j [] h e = cc
lookup-IsParent symbols i j ((k, v) ∷ entries) h e = elim (Bool-cases (k == i)) [
  | inl f ↦
      let x : some v ≡ some j = rw f at e in
      let p = h.0 in
      record {
        child = p.child;
        parent = p.parent;
        child_in = p.child_in;
        parent_in = p.parent_in;
        child_id = p.child_id ∙ (==_iff k i).0 f;
        parent_id = p.parent_id ∙ (let y : v ≡ j = cc in y);
        starts_earlier = p.starts_earlier;
        reaches = p.reaches;
      }
  | inr f ↦ lookup-IsParent symbols i j entries h.1 (rw f at e)
]

name_chain-end :
    (fuel : ℕ) (symbols : List Symbol) (parents : List (ℕ × ℕ)) (seen : List ℕ) (chain : List Text)
    → name_chain fuel symbols parents seen chain none ≡ some chain
unfolding name_chain
name_chain-end zero symbols parents seen chain = refl
name_chain-end (suc fuel) symbols parents seen chain = refl

module _ (symbols : List Symbol) (unique : HasUniqueIds symbols) (parents : List (ℕ × ℕ))
    (related : All (IsParent symbols) parents) where
  parent-earlier :
      (s p : Symbol)
      → In s symbols
      → parent_symbol symbols (lookup s.id parents) ≡ some p
      → In p symbols × (p.start_line < s.start_line)
  parent-earlier s p inside h = elim (Option-cases (lookup s.id parents)) [
    | inl e ↦ let k : none ≡ some p = rw e at h in cc
    | inr (j, e) ↦
        let k : by_id j symbols ≡ some p = rw e at h in
        let r = by_id-In j symbols p k in
        let q = lookup-IsParent symbols s.id j parents related e in
        let child : q.child ≡ s = unique q.child s q.child_in inside q.child_id in
        let parent : q.parent ≡ p = unique q.parent p q.parent_in r.0 (q.parent_id ∙ sym r.1) in
        let a = ap (λ (z : Symbol). z.start_line) child in
        let b = ap (λ (z : Symbol). z.start_line) parent in
        let less = q.starts_earlier in (r.0, omega arith)
  ]

  name_chain-total :
      (fuel : ℕ) (s : Symbol) (seen : List ℕ) (chain : List Text)
      → In s symbols
      → s.start_line < fuel
      → (names : List Text) × (name_chain fuel symbols parents seen chain (some s) ≡ some names)
  unfolding name_chain
  name_chain-total zero s seen chain inside less = absurd (omega arith)
  name_chain-total (suc fuel) s seen chain inside less =
      elim (Bool-cases (any (λ (i : ℕ). i == s.id) seen)) [
        | inl e ↦ rw e (chain, refl)
        | inr e ↦ rw e (elim (Option-cases (parent_symbol symbols (lookup s.id parents))) [
          | inl h ↦
              rw h
                (s.name ∷ chain, name_chain-end fuel symbols parents (s.id ∷ seen) (s.name ∷ chain))
          | inr (p, h) ↦
              let earlier = parent-earlier s p inside h in
              rw h (
                name_chain-total fuel p (s.id ∷ seen) (s.name ∷ chain) earlier.0
                  (omega (arith, earlier.1)))
        ])
      ]

-- The qualified name of a symbol is found: the walk over parents comes to an end within as many rounds
-- as the symbol's first line has lines before it, and one more, if no two symbols have one id.
pub build_qualified_name-total :
    (symbols : List Symbol) (s : Symbol)
    → HasUniqueIds symbols
    → In s symbols
    → (name : Text) × (build_qualified_name symbols (build_parent_map symbols) s ≡ some name)
unfolding build_qualified_name
build_qualified_name-total symbols s unique inside =
    let parents = build_parent_map symbols in
    let (names, e) =
      name_chain-total symbols unique parents (build_parent_map-IsParent symbols) (suc s.start_line)
        s [] [] inside (omega arith) in
    (join_dots names, rw e refl)
