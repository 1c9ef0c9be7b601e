-- ===== src/Ranges/Examples.antt =====
-- Ranges of ranges of numbers.
use libsg.Common.{ℕ, ◌≡◌, some, none, [], ◌∷◌, length, refl, arith}
use libsg.Ranges.{Range, flatten, flatten_copy_to_iterator}
use libsg.Ranges.Flatten.{elements, flatten-elements}

abbrev two_deep : Range ℕ 2
two_deep = ((1 ∷ 2 ∷ []) ∷ [] ∷ []) ∷ [] ∷ ((3 ∷ []) ∷ []) ∷ []

-- A vector that is too short is written past its end.
too_short : flatten_copy_to_iterator ℕ 2 two_deep (0 ∷ 0 ∷ []) 0 ≡ none
unfolding flatten_copy_to_iterator
too_short = refl

flatten-elements_example :
    flatten ℕ 0 2 two_deep ≡ some (elements ℕ 2 two_deep, length (elements ℕ 2 two_deep))
flatten-elements_example = flatten-elements ℕ 0 2 two_deep (omega arith)
