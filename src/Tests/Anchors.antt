-- ===== src/Tests/Anchors.antt =====
-- The theorems on symbols, at a class with a method.
use liu_he.Base.{◌≡◌, inl, inr, refl, some, List, [], ◌∷◌, All}
use liu_he.Base.Text.{Text, codes}
use liu_he.Symbols.{
  Symbol, pop_ended, parent_loop, build_parent_map, by_id, name_chain, join_dots,
  build_qualified_name,
}
use liu_he.Symbols.Parents.{IsParent, build_parent_map-IsParent}
use liu_he.Symbols.Names.{HasUniqueIds, build_qualified_name-total}

abbrev method : Symbol
method = record { id = 1; name = codes "go"; start_line = 3; end_line = 5 }

abbrev class_symbol : Symbol
class_symbol = record { id = 2; name = codes "Car"; start_line = 1; end_line = 5 }

abbrev symbols : List Symbol
symbols = method ∷ class_symbol ∷ []

method_is_qualified :
    build_qualified_name symbols (build_parent_map symbols) method ≡ some (codes "Car.go")
unfolding build_qualified_name build_parent_map parent_loop pop_ended name_chain by_id join_dots
method_is_qualified = refl

symbols-HasUniqueIds : HasUniqueIds symbols
symbols-HasUniqueIds a b (inl x) (inl y) e = cc
symbols-HasUniqueIds a b (inl x) (inr (inl y)) e = cc
symbols-HasUniqueIds a b (inl x) (inr (inr y)) e = elim y [ ]
symbols-HasUniqueIds a b (inr (inl x)) (inl y) e = cc
symbols-HasUniqueIds a b (inr (inl x)) (inr (inl y)) e = cc
symbols-HasUniqueIds a b (inr (inl x)) (inr (inr y)) e = elim y [ ]
symbols-HasUniqueIds a b (inr (inr x)) k e = elim x [ ]

build_parent_map-IsParent_example : All (IsParent symbols) (build_parent_map symbols)
build_parent_map-IsParent_example = build_parent_map-IsParent symbols

build_qualified_name-total_example :
    (name : Text) × (build_qualified_name symbols (build_parent_map symbols) method ≡ some name)
build_qualified_name-total_example =
    build_qualified_name-total symbols method symbols-HasUniqueIds (inl refl)
