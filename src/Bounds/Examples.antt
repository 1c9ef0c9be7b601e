-- ===== src/Bounds/Examples.antt =====
-- The array of the repository's test, and one without the value.
use libsg.Common.{ℕ, ◌≡◌, refl, some, List, [], ◌∷◌, arith}
use libsg.Bounds.{
  upper_bound, lower_bound, upper_bound_index, lower_bound_index, step_back, step_on,
  greater_or_equal_index, less_or_equal_index,
}
use libsg.Bounds.Choice.{IsSorted, Chosen, led_to, same_choice}

abbrev tested : List ℕ
tested = 0 ∷ 1 ∷ 2 ∷ 2 ∷ 3 ∷ 4 ∷ []

-- of two equal elements, the second
tested_two : greater_or_equal_index tested 2 ≡ some 3
unfolding greater_or_equal_index upper_bound_index upper_bound step_back
tested_two = refl

tested_six : greater_or_equal_index tested 6 ≡ some 5
unfolding greater_or_equal_index upper_bound_index upper_bound step_back
tested_six = refl

-- of three equal elements at the end, neither the first nor the last
tested_end : greater_or_equal_index (3 ∷ 3 ∷ 3 ∷ []) 3 ≡ some 1
unfolding greater_or_equal_index upper_bound_index upper_bound step_back
tested_end = refl

abbrev odd : List ℕ
odd = 1 ∷ 3 ∷ 5 ∷ []

-- 3 is not less than or equal to 2
odd_two : led_to odd (less_or_equal_index odd 2) ≡ some 3
unfolding less_or_equal_index lower_bound_index lower_bound step_on
odd_two = refl

odd-IsSorted : IsSorted odd
odd-IsSorted i j p q = ground (arith, p, q)

same_choice_example :
    Chosen odd 2 (greater_or_equal_index odd 2)
    × Chosen odd 2 (less_or_equal_index odd 2)
    × (led_to odd (greater_or_equal_index odd 2) ≡ led_to odd (less_or_equal_index odd 2))
same_choice_example = same_choice odd 2 odd-IsSorted (omega arith)
