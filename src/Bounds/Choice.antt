-- ===== src/Bounds/Choice.antt =====
-- Which element the indices lead to.
use libsg.Common.{
  ℕ, zero, suc, ◌+◌, ◌-◌, ◌≡◌, ◌≤◌, ◌<◌, sym, subst, ap, ◌∙◌, Bool, true, false, Option, none, some,
  List, [], ◌∷◌, length, leb, ◌==◌, ◌⊎◌, ◌≢◌, ◌&&◌, not, arith, inl, inr,
}
use libsg.Bounds.{
  ◌!◌, upper_bound, lower_bound, inside, upper_bound_index, lower_bound_index, step_back, step_on,
  greater_or_equal_index, less_or_equal_index,
}

abbrev pub IsSorted : List ℕ → Type 0
IsSorted xs = (i j : ℕ) → i ≤ j → j < length xs → xs ! i ≤ xs ! j

-- elements before r are at most v, and the one at r is greater
abbrev SplitsAbove : List ℕ → ℕ → ℕ → Type 0
SplitsAbove xs v r = (r ≤ length xs) × ((i : ℕ) → i < r → xs ! i ≤ v) × (r < length xs → v < xs ! r)

abbrev SplitsBelow : List ℕ → ℕ → ℕ → Type 0
SplitsBelow xs v r = (r ≤ length xs) × ((i : ℕ) → i < r → xs ! i < v) × (r < length xs → v ≤ xs ! r)

all_before :
    (P : ℕ → Type 0) (x : ℕ) (xs : List ℕ) (r : ℕ)
    → P x
    → ((i : ℕ) → i < r → P (xs ! i))
    → (i : ℕ) → i < suc r
    → P ((x ∷ xs) ! i)
all_before P x xs r h b zero p = h
all_before P x xs r h b (suc i) p = b i (omega (arith, p))

above_here : (x : ℕ) (xs : List ℕ) (v : ℕ) → v < x → SplitsAbove (x ∷ xs) v 0
above_here x xs v h = (omega arith, λ i p. absurd (omega arith), λ p. h)

above_later :
    (x : ℕ) (xs : List ℕ) (v r : ℕ) → x ≤ v → SplitsAbove xs v r → SplitsAbove (x ∷ xs) v (suc r)
above_later x xs v r h (n, b, a) =
    (omega (arith, n), all_before (λ y. y ≤ v) x xs r h b, λ p. a (omega (arith, p)))

below_here : (x : ℕ) (xs : List ℕ) (v : ℕ) → v ≤ x → SplitsBelow (x ∷ xs) v 0
below_here x xs v h = (omega arith, λ i p. absurd (omega arith), λ p. h)

below_later :
    (x : ℕ) (xs : List ℕ) (v r : ℕ) → x < v → SplitsBelow xs v r → SplitsBelow (x ∷ xs) v (suc r)
below_later x xs v r h (n, b, a) =
    (omega (arith, n), all_before (λ y. y < v) x xs r h b, λ p. a (omega (arith, p)))

upper_bound-SplitsAbove : (xs : List ℕ) (v : ℕ) → SplitsAbove xs v (upper_bound xs v)
unfolding upper_bound
upper_bound-SplitsAbove [] v = (omega arith, λ i p. absurd (omega arith), λ p. absurd (omega arith))
upper_bound-SplitsAbove (x ∷ xs) v =
    ground (
      arith,
      above_here x xs v,
      above_later x xs v (upper_bound xs v),
      upper_bound-SplitsAbove xs v,
    )

lower_bound-SplitsBelow : (xs : List ℕ) (v : ℕ) → SplitsBelow xs v (lower_bound xs v)
unfolding lower_bound
lower_bound-SplitsBelow [] v = (omega arith, λ i p. absurd (omega arith), λ p. absurd (omega arith))
lower_bound-SplitsBelow (x ∷ xs) v =
    ground (
      arith,
      below_here x xs v,
      below_later x xs v (lower_bound xs v),
      lower_bound-SplitsBelow xs v,
    )

-- An index inside the array whose element is the least that is not below v; the last one if all are.
abbrev pub Leads : List ℕ → ℕ → ℕ → Type 0
Leads xs v i =
    (i < length xs)
    × ((k : ℕ) → k < length xs → v ≤ xs ! k → (v ≤ xs ! i) × (xs ! i ≤ xs ! k))
    × (xs ! i < v → i + 1 ≡ length xs)

abbrev pub Chosen : List ℕ → ℕ → Option ℕ → Type 0
Chosen xs v none = ⊥
Chosen xs v (some i) = Leads xs v i

and_true : (j : ℕ) (b : Bool) → not (j == 0) && b ≡ true → (0 < j) × (b ≡ true)
and_true j b h = ground (arith, h)

inside-cases :
    (n r : ℕ) → 0 < n → r ≤ n → ((r < n) × (inside n r ≡ r)) ⊎ ((r ≡ n) × (inside n r + 1 ≡ n))
inside-cases n r p h = ground (arith, p, h)

back_cases :
    (j x v : ℕ)
    → ((0 < j) × (v ≤ x) × (not (j == 0) && leb v x ≡ true))
      ⊎ (((j ≡ 0) ⊎ (x < v)) × (not (j == 0) && leb v x ≡ false))
back_cases j x v = ground arith

on_cases :
    (j l x v : ℕ)
    → ((j ≢ l) × (x ≤ v) × (not (j == l) && leb x v ≡ true)) ⊎ (not (j == l) && leb x v ≡ false)
on_cases j l x v = ground arith

module _ (xs : List ℕ) (v : ℕ) (sorted : IsSorted xs) (filled : 0 < length xs) where
  equal-Leads : (i : ℕ) → i < length xs → xs ! i ≡ v → Leads xs v i
  equal-Leads i p e =
      (p, λ k q h. (omega (arith, e), omega (arith, e, h)), λ h. omega (arith, e, h))

  first-Leads :
      (i : ℕ)
      → i < length xs
      → ((k : ℕ) → k < i → xs ! k < v)
      → (v ≤ xs ! i) ⊎ (i + 1 ≡ length xs)
      → Leads xs v i
  first-Leads i p b e =
      (p, λ k q h. ground (arith, b k, sorted i k, e, q, h), λ h. ground (arith, e, h))

  step_back-Leads :
      (r j : ℕ)
      → SplitsAbove xs v r
      → ((r < length xs) × (j ≡ r)) ⊎ ((r ≡ length xs) × (j + 1 ≡ length xs))
      → Leads xs v (step_back xs v j)
  unfolding step_back
  step_back-Leads r j (n, b, a) c = elim (back_cases j (xs ! (j - 1)) v) [
    | inl (p, q, e) ↦
        rw e (equal-Leads (j - 1) (ground (arith, c)) (ground (arith, p, q, c, b (j - 1))))
    | inr (q, e) ↦ rw e (
        first-Leads j (ground (arith, c)) (λ k l. ground (arith, q, l, c, sorted k (j - 1)))
          (ground (arith, c, a)))
  ]

  step_on-Leads :
      (r j : ℕ)
      → SplitsBelow xs v r
      → ((r < length xs) × (j ≡ r)) ⊎ ((r ≡ length xs) × (j + 1 ≡ length xs))
      → Leads xs v (step_on xs v j)
  unfolding step_on
  step_on-Leads r j (n, b, a) c = elim (on_cases j (length xs - 1) (xs ! (j + 1)) v) [
    | inl (p, q, e) ↦
        rw e (
          equal-Leads (j + 1) (ground (arith, c, p)) (ground (arith, p, q, c, a, sorted j (j + 1))))
    | inr e ↦ rw e (
        first-Leads j (ground (arith, c)) (λ k l. b k (ground (arith, c, l)))
          (ground (arith, c, a)))
  ]

greater_or_equal_index-some :
    (xs : List ℕ) (v : ℕ)
    → 0 < length xs
    → greater_or_equal_index xs v ≡ some (step_back xs v (inside (length xs) (upper_bound xs v)))
unfolding greater_or_equal_index upper_bound_index
greater_or_equal_index-some xs v h = ground (arith, h)

less_or_equal_index-some :
    (xs : List ℕ) (v : ℕ)
    → 0 < length xs
    → less_or_equal_index xs v ≡ some (step_on xs v (inside (length xs) (lower_bound xs v)))
unfolding less_or_equal_index lower_bound_index
less_or_equal_index-some xs v h = ground (arith, h)

abbrev pub led_to : List ℕ → Option ℕ → Option ℕ
led_to xs none = none
led_to xs (some i) = some (xs ! i)

le_or_lt : (a b : ℕ) → (a ≤ b) ⊎ (b < a)
le_or_lt a b = ground arith

Leads-unique : (xs : List ℕ) (v i j : ℕ) → Leads xs v i → Leads xs v j → xs ! i ≡ xs ! j
Leads-unique xs v i j (p, q, r) (p', q', r') = elim (le_or_lt v (xs ! i)) [
  | inl h ↦ let (k, l) = q' i p h in omega (arith, l, (q j p' k).1)
  | inr h ↦ elim (le_or_lt v (xs ! j)) [
    | inl k ↦ absurd (omega (arith, (q j p' k).0, h))
    | inr k ↦ ap (◌!◌ xs) (omega (arith, r h, r' k))
  ]
]

-- In a sorted array that is not empty, `greater_or_equal_index` and `less_or_equal_index` both give an
-- index inside the array, of a least element that is not below the value; if all are below, the last
-- index. The two lead to equal elements.
pub same_choice :
    (xs : List ℕ) (v : ℕ)
    → IsSorted xs
    → 0 < length xs
    → Chosen xs v (greater_or_equal_index xs v)
      × Chosen xs v (less_or_equal_index xs v)
      × (led_to xs (greater_or_equal_index xs v) ≡ led_to xs (less_or_equal_index xs v))
same_choice xs v sorted filled =
    let r = upper_bound xs v in
    let s = lower_bound xs v in
    let u = upper_bound-SplitsAbove xs v in
    let l = lower_bound-SplitsBelow xs v in
    let i = step_back xs v (inside (length xs) r) in
    let j = step_on xs v (inside (length xs) s) in
    let up : Leads xs v i =
      step_back-Leads xs v sorted filled r (inside (length xs) r) u
        (inside-cases (length xs) r filled u.0) in
    let low : Leads xs v j =
      step_on-Leads xs v sorted filled s (inside (length xs) s) l
        (inside-cases (length xs) s filled l.0) in
    let e = greater_or_equal_index-some xs v filled in
    let f = less_or_equal_index-some xs v filled in
    (
      subst (Chosen xs v) (sym e) up,
      subst (Chosen xs v) (sym f) low,
      ap (led_to xs) e ∙ ap some (Leads-unique xs v i j up low) ∙ sym (ap (led_to xs) f),
    )
