-- ===== src/Bounds.antt =====
-- common/include/sg/bounds.h: indices of bounds in a sorted array of numbers. None is the exception
-- `out_of_range` on empty input.
pub mod Choice
mod Examples
use libsg.Common.{
  ℕ, zero, suc, ◌+◌, ◌-◌, Bool, true, false, ◌&&◌, not, Option, none, some, List, [], ◌∷◌, length,
  ltb, leb, ◌==◌, if◌then◌else◌,
}

-- `data[i]`; the code stays inside the array
infixl 60 ◌!◌
abbrev pub ◌!◌ : List ℕ → ℕ → ℕ
[] ! i = 0
(x ∷ xs) ! zero = x
(x ∷ xs) ! (suc i) = xs ! i

-- `std::upper_bound` on a sorted range: the first position of a greater element, or the end
unfoldable pub upper_bound : List ℕ → ℕ → ℕ
upper_bound [] v = 0
upper_bound (x ∷ xs) v = let rest = upper_bound xs v in if ltb v x then 0 else suc rest

-- `std::lower_bound`: the first position of an element that is not less, or the end
unfoldable pub lower_bound : List ℕ → ℕ → ℕ
lower_bound [] v = 0
lower_bound (x ∷ xs) v = let rest = lower_bound xs v in if ltb x v then suc rest else 0

abbrev pub inside : ℕ → ℕ → ℕ
inside count i = if i == count then count - 1 else i

unfoldable pub upper_bound_index : List ℕ → ℕ → Option ℕ
upper_bound_index xs v =
    if length xs == 0 then none else some (inside (length xs) (upper_bound xs v))

unfoldable pub lower_bound_index : List ℕ → ℕ → Option ℕ
lower_bound_index xs v =
    if length xs == 0 then none else some (inside (length xs) (lower_bound xs v))

unfoldable pub step_back : List ℕ → ℕ → ℕ → ℕ
step_back xs v i = if not (i == 0) && leb v (xs ! (i - 1)) then i - 1 else i

unfoldable pub greater_or_equal_index : List ℕ → ℕ → Option ℕ
greater_or_equal_index xs v = elim (upper_bound_index xs v) [
  | none ↦ none
  | some i ↦ some (step_back xs v i)
]

unfoldable pub step_on : List ℕ → ℕ → ℕ → ℕ
step_on xs v i = if not (i == length xs - 1) && leb (xs ! (i + 1)) v then i + 1 else i

unfoldable pub less_or_equal_index : List ℕ → ℕ → Option ℕ
less_or_equal_index xs v = elim (lower_bound_index xs v) [
  | none ↦ none
  | some i ↦ some (step_on xs v i)
]
